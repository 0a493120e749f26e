-- ===== src/Layers/Casts.antt =====
-- The casts of `get_prev` are right: the class that it casts to is the class of the layer above.
use acpp_network.Prelude.{
  ℕ, ◌+◌, ◌<◌, ◌≤◌, ◌≡◌, refl, sym, ap, ◌∙◌, List, [], ◌∷◌, none, some, arith, ltb, ltb→lt, ltb→ge,
  if_cases, length, length-append, get_elem?, get_elem?-append, get_elem?-last,
}
use acpp_network.Layers.{Kind, Stack, bottom, over, it, chain_type, cast_to, get_prev}

-- `Within t s`: the layer `t` is a part of the stream `s`.
pub data Within (t : Stack) : Stack → Type 0 where
  itself : Within t t
  below : (s : Stack) (k : Kind) → Within t s → Within t (over k s)

length-chain_type : (s : Stack) → length (chain_type s) ≡ it s + 1
unfolding chain_type it
length-chain_type (bottom k) = omega arith
length-chain_type (over k s) =
    omega (arith, length-append (chain_type s) (k ∷ []), length-chain_type s)

-- A layer over another keeps its place in the chain of every stream that it is within.
pub Within-it : (t s : Stack) → Within t s → it t ≤ it s
unfolding it
Within-it t _ itself = omega arith
Within-it t _ (below s k w) = omega (arith, Within-it t s w)

class_above :
    (k : Kind) (t s : Stack) → Within (over k t) s → get_elem? (chain_type s) (it t + 1) ≡ some k
unfolding chain_type
class_above k t _ itself = get_elem?-last (chain_type t) k (it t + 1) (sym (length-chain_type t))
class_above k t _ (below s j w) =
    let e = length-chain_type s in
    let l : it (over k t) ≤ it s = Within-it (over k t) s w in
    get_elem?-append (chain_type s) (j ∷ []) (it t + 1) (unfold it in omega arith)
    ∙ class_above k t s w

get_prev-some :
    (chain : List Kind) (i p : ℕ) (k : Kind)
    → i + 1 < length chain
    → get_elem? chain (i + 1) ≡ some k
    → get_prev chain i p ≡ some (k, p)
unfolding get_prev cast_to
get_prev-some chain i p k h e =
    if_cases (λ x. x ≡ some (k, p)) (ltb (i + 1) (length chain)) (λ inside. ap (λ o. cast_to o p) e)
      (λ outside. absurd (omega (arith, ltb→ge (i + 1) (length chain) outside)))

get_prev-none : (chain : List Kind) (i p : ℕ) → length chain ≤ i + 1 → get_prev chain i p ≡ none
unfolding get_prev
get_prev-none chain i p h =
    if_cases (λ x. x ≡ none) (ltb (i + 1) (length chain))
      (λ inside. absurd (omega (arith, ltb→lt (i + 1) (length chain) inside))) (λ outside. refl)

-- In a stream `s` of any height, `get_prev` casts the pointer of a layer `t` to the class of the layer
-- that stands directly over `t`, and gives the null pointer at the top.
pub get_prev-cast :
    (s : Stack) (p : ℕ)
    → ((k : Kind) (t : Stack)
        → Within (over k t) s
        → get_prev (chain_type s) (it t) p ≡ some (k, p))
      × (get_prev (chain_type s) (it s) p ≡ none)
get_prev-cast s p = (
  λ k t w.
      get_prev-some (chain_type s) (it t) p k
        (let e = length-chain_type s in
          let l = Within-it (over k t) s w in unfold it in omega arith)
        (class_above k t s w),
  get_prev-none (chain_type s) (it s) p (let e = length-chain_type s in omega arith),
)
