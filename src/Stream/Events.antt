-- ===== src/Stream/Events.antt =====
-- An event of the socket reaches the callback of the stream.
use acpp_network.Prelude.{
  ℕ, zero, suc, ◌+◌, ◌<◌, ◌≡◌, refl, sym, ap, ◌∙◌, subst, ◌⊎◌, inl, inr, true, List, [], ◌∷◌, some,
  Action, ok, arith, length, length-append, get_elem?, get_elem?-append, get_elem?-last,
}
use acpp_network.Layers.{
  Kind, null_layer, socket_stream, layer, ssl_stream, stream, Stack, bottom, over, it, chain_type,
  get_prev,
}
use acpp_network.Layers.Casts.{Within, itself, below, Within-it, get_prev-cast}
use acpp_network.Stream.{
  Event, connected, disconnected, received, Memory, construct, tell_user, passes, tell, pass_on,
  heard_by, at_object, hear,
}

abbrev pub kind_of : Stack → Kind
kind_of (bottom k) = k
kind_of (over k next) = k

-- Every layer passes the event on.
abbrev pub IsPassing : Event → Stack → Type 0
IsPassing ev (bottom k) = passes ev k ≡ true
IsPassing ev (over k next) = (passes ev k ≡ true) × IsPassing ev next

IsPassing-top : (ev : Event) (s : Stack) → IsPassing ev s → passes ev (kind_of s) ≡ true
IsPassing-top ev (bottom k) v = v
IsPassing-top ev (over k next) v = v.0

IsPassing-Within :
    (ev : Event) (t s : Stack) → Within t s → IsPassing ev s → passes ev (kind_of t) ≡ true
IsPassing-Within ev t _ itself v = IsPassing-top ev t v
IsPassing-Within ev t _ (below s k w) v = IsPassing-Within ev t s w v.1

-- A part of a stack is the whole, or has a layer over it.
parent : (t s : Stack) → Within t s → (t ≡ s) ⊎ ((k : Kind) × Within (over k t) s)
parent t _ itself = inl refl
parent t _ (below s k w) = elim (parent t s w) [
  | inl e ↦ inr (k, subst (λ x. Within (over k x) (over k s)) (sym e) itself)
  | inr p ↦ inr (p.0, below s k p.1)
]

Within-down : (k : Kind) (t s : Stack) → Within (over k t) s → Within t s
Within-down k t _ itself = below t k itself
Within-down k t _ (below s j w) = below s j (Within-down k t s w)

Within-under : (k j : Kind) (t s : Stack) → Within (over k t) (over j s) → Within t s
Within-under k j t _ itself = itself
Within-under k j t _ (below s _ w) = Within-down k t s w

length-construct : (above : ℕ) (s : Stack) → length (construct above s) ≡ it s + 1
unfolding construct it
length-construct above (bottom k) = omega arith
length-construct above (over k next) = omega (
  arith,
  length-append (construct (it next + 1) next) (record { kind = k; prev_ = above } ∷ []),
  length-construct (it next + 1) next,
)

construct-top :
    (above : ℕ) (s : Stack)
    → get_elem? (construct above s) (it s) ≡ some (record { kind = kind_of s; prev_ = above })
unfolding construct it
construct-top above (bottom k) = refl
construct-top above (over k next) =
    get_elem?-last (construct (it next + 1) next) (record { kind = k; prev_ = above }) (it next + 1)
      (sym (length-construct (it next + 1) next))

-- Each object below the top stands in its place, and its `prev_` is the place of the layer above.
construct-Within :
    (k : Kind) (t s : Stack) (above : ℕ)
    → Within (over k t) s
    → get_elem? (construct above s) (it t) ≡ some (record { kind = kind_of t; prev_ = it t + 1 })
unfolding construct it
construct-Within k t _ above itself =
    get_elem?-append (construct (it t + 1) t) _ (it t)
      (let l = length-construct (it t + 1) t in omega arith)
    ∙ construct-top (it t + 1) t
construct-Within k t _ above (below s j w) =
    get_elem?-append (construct (it s + 1) s) _ (it t)
      (let l = length-construct (it s + 1) s in let i = Within-it (over k t) s w in omega arith)
    ∙ construct-Within k t s (it s + 1) w

module _ (encrypting : Event → Action Memory (Unit {0})) (chain : List Kind)
    (hear_next : Kind → ℕ → ℕ → Action Memory (Unit {0})) where
  at_object-passes :
      (ev : Event) (k : Kind) (i p : ℕ) (m : Memory)
      → passes ev k ≡ true
      → at_object encrypting chain hear_next ev k i (some (record { kind = k; prev_ = p })) m
        ≡ tell encrypting chain hear_next i (get_prev chain i p) m
  unfolding at_object heard_by pass_on
  at_object-passes (received bytes) socket_stream i p m h = refl
  at_object-passes (received bytes) layer i p m h = refl
  at_object-passes (received bytes) null_layer i p m h = refl
  at_object-passes (received bytes) ssl_stream i p m h = absurd (cc)
  at_object-passes (received bytes) stream i p m h = absurd (cc)
  at_object-passes connected socket_stream i p m h = refl
  at_object-passes connected layer i p m h = absurd (cc)
  at_object-passes connected null_layer i p m h = absurd (cc)
  at_object-passes connected ssl_stream i p m h = absurd (cc)
  at_object-passes connected stream i p m h = absurd (cc)
  at_object-passes disconnected socket_stream i p m h = refl
  at_object-passes disconnected layer i p m h = absurd (cc)
  at_object-passes disconnected null_layer i p m h = absurd (cc)
  at_object-passes disconnected ssl_stream i p m h = absurd (cc)
  at_object-passes disconnected stream i p m h = absurd (cc)

  at_object-stream :
      (ev : Event) (i p : ℕ) (m : Memory)
      → at_object encrypting chain hear_next ev stream i
          (some (record { kind = stream; prev_ = p }))
          m
        ≡ (ok tt, tell_user ev m)
  unfolding at_object heard_by
  at_object-stream ev i p m = refl

module _ (encrypting : Event → Action Memory (Unit {0})) (ev : Event) (below_top : Stack)
    (g : ℕ) where
  abbrev whole : Stack
  whole = over stream below_top

  abbrev chain : List Kind
  chain = chain_type whole

  -- From a layer to the one above it.
  climb_step :
      (fuel : ℕ) (k : Kind) (t : Stack) (m : Memory)
      → Within (over k t) whole
      → passes ev (kind_of t) ≡ true
      → m.objects ≡ construct g whole
      → hear encrypting chain fuel ev k (it t + 1) (it t + 1) m ≡ (ok tt, tell_user ev m)
      → hear encrypting chain (suc fuel) ev (kind_of t) (it t) (it t) m ≡ (ok tt, tell_user ev m)
  unfolding hear tell
  climb_step fuel k t m w passing made next =
      ap (λ o. at_object encrypting chain (hear encrypting chain fuel ev) ev (kind_of t) (it t) o m)
        (ap (λ os. get_elem? os (it t)) made ∙ construct-Within k t whole g w)
      ∙ at_object-passes encrypting chain (hear encrypting chain fuel ev) ev (kind_of t) (it t)
          (it t + 1) m passing
      ∙ ap (λ c. tell encrypting chain (hear encrypting chain fuel ev) (it t) c m)
          ((get_prev-cast whole (it t + 1)).0 k t w)
      ∙ next

  -- From a layer of the stream up to the callback.
  climb :
      (fuel : ℕ) (t : Stack) (m : Memory)
      → Within t whole
      → IsPassing ev below_top
      → m.objects ≡ construct g whole
      → it whole < it t + fuel
      → hear encrypting chain fuel ev (kind_of t) (it t) (it t) m ≡ (ok tt, tell_user ev m)
  unfolding hear tell it
  climb zero t m w v made enough = absurd (let l = Within-it t whole w in omega arith)
  climb (suc fuel) t m w v made enough = elim (parent t whole w) [
    | inl top ↦
        subst
          (λ x.
            hear encrypting chain (suc fuel) ev (kind_of x) (it x) (it x) m
            ≡ (ok tt, tell_user ev m))
          (sym top)
          (ap
              (λ o.
                at_object encrypting chain (hear encrypting chain fuel ev) ev stream (it whole) o m)
              (ap (λ os. get_elem? os (it whole)) made ∙ construct-top g whole)
            ∙ at_object-stream encrypting chain (hear encrypting chain fuel ev) ev (it whole) g m)
    | inr parent_of ↦
        climb_step fuel parent_of.0 t m parent_of.1
          (IsPassing-Within ev t below_top (Within-under parent_of.0 stream t below_top parent_of.1)
            v)
          made (climb fuel (over parent_of.0 t) m parent_of.1 v made (omega arith))
  ]

abbrev pub bottom_of : Stack → Kind
bottom_of (bottom k) = k
bottom_of (over k next) = bottom_of next

bottom-Within : (s : Stack) → Within (bottom (bottom_of s)) s
bottom-Within (bottom k) = itself
bottom-Within (over j next) = below next j (bottom-Within next)

-- In a stream of any height whose layers all pass the event on, an event at the lowest layer is handled with one
-- call for each layer: no pointer is cast to a class that is not the object's, nothing is thrown, and the callback
-- of the stream is called once, with the event, if it is set; nothing else changes.
pub hear_lowest :
    (encrypting : Event → Action Memory (Unit {0})) (ev : Event) (s : Stack) (g : ℕ) (m : Memory)
    → IsPassing ev s
    → m.objects ≡ construct g (over stream s)
    → hear encrypting (chain_type (over stream s)) (it s + 2) ev (bottom_of s) 0 0 m
      ≡ (ok tt, tell_user ev m)
unfolding it
hear_lowest encrypting ev s g m v made =
    climb encrypting ev s g (it s + 2) (bottom (bottom_of s)) m (below s stream (bottom-Within s)) v
      made (omega arith)
