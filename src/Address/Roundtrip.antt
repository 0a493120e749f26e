-- ===== src/Address/Roundtrip.antt =====
-- Addresses through the memory of a `sockaddr`, and from the text of the application.
use acpp_network.Prelude.{
  if◌then◌else◌, ℕ, ◌≡◌, refl, sym, ap, ◌∙◌, Bool, true, false, List, ◌++◌, arith, ◌==◌, ltb,
  length, length-append, take-append, take-length, drop-append,
}
use acpp_network.Address.{
  af_inet, af_inet6, Ip4Sockaddress, Ip6Sockaddress, IpSocketaddress, ip4, ip6, copied, get_family,
  to_sockaddr4, to_sockaddr6, to_sockaddr, read4, read6, from_sockaddr4, from_sockaddr6,
  from_sockaddr, map_copied,
}

-- The fields have the sizes of the C struct, and the family is the class's.
pub record IsIp4 (a : Ip4Sockaddress) : Type 0 where
  pub family : a.sin_family ≡ af_inet
  pub port_size : length a.sin_port ≡ 2
  pub addr_size : length a.sin_addr ≡ 4
  pub zero_size : length a.sin_zero ≡ 8

pub record IsIp6 (a : Ip6Sockaddress) : Type 0 where
  pub family : a.sin6_family ≡ af_inet6
  pub port_size : length a.sin6_port ≡ 2
  pub flow_size : length a.sin6_flowinfo ≡ 4
  pub addr_size : length a.sin6_addr ≡ 16
  pub scope_size : length a.sin6_scope_id ≡ 4

abbrev pub IsAddress : IpSocketaddress → Type 0
IsAddress (ip4 a) = IsIp4 a
IsAddress (ip6 a) = IsIp6 a

-- Where a test holds, the conditional is its first branch; where it does not, the second.
if-true : {A : Type 0} (b : Bool) (x y : A) → b ≡ true → (if b then x else y) ≡ x
if-true b x y h = rw h refl

if-false : {A : Type 0} (b : Bool) (x y : A) → b ≡ false → (if b then x else y) ≡ y
if-false b x y h = rw h refl

read4-bytes :
    (p a z : List ℕ)
    → length p ≡ 2
    → length a ≡ 4
    → length z ≡ 8
    → read4 (p ++ (a ++ z))
      ≡ record { sin_family = af_inet; sin_port = p; sin_addr = a; sin_zero = z }
unfolding read4
read4-bytes p a z hp ha hz =
    rw
      (
        take-append 2 p (a ++ z) hp,
        drop-append 2 p (a ++ z) hp,
        take-append 4 a z ha,
        drop-append 4 a z ha,
        take-length 8 z (omega arith),
      )
      refl

read6-bytes :
    (p f a c : List ℕ)
    → length p ≡ 2
    → length f ≡ 4
    → length a ≡ 16
    → length c ≡ 4
    → read6 (p ++ (f ++ (a ++ c))) ≡ record {
      sin6_family = af_inet6;
      sin6_port = p;
      sin6_flowinfo = f;
      sin6_addr = a;
      sin6_scope_id = c;
    }
unfolding read6
read6-bytes p f a c hp hf ha hc =
    rw
      (
        take-append 2 p (f ++ (a ++ c)) hp,
        drop-append 2 p (f ++ (a ++ c)) hp,
        take-append 4 f (a ++ c) hf,
        drop-append 4 f (a ++ c) hf,
        take-append 16 a c ha,
        drop-append 16 a c ha,
        take-length 4 c (omega arith),
      )
      refl

copied4 : (a : Ip4Sockaddress) → IsIp4 a → from_sockaddr4 (to_sockaddr4 a) ≡ copied a
unfolding from_sockaddr4 to_sockaddr4
copied4 a v =
    let bytes = a.sin_port ++ (a.sin_addr ++ a.sin_zero) in
    let size : length bytes ≡ 14 = omega (
      arith,
      length-append a.sin_port (a.sin_addr ++ a.sin_zero),
      length-append a.sin_addr a.sin_zero,
      v.port_size,
      v.addr_size,
      v.zero_size,
    ) in
    if-true (a.sin_family == af_inet) _ _ (ap (λ x. x == af_inet) v.family)
    ∙ if-false (ltb (length bytes) 14) _ _ (ap (λ n. ltb n 14) size)
    ∙ ap copied (read4-bytes a.sin_port a.sin_addr a.sin_zero v.port_size v.addr_size v.zero_size)
    ∙ ap
        (λ f. copied (record {
          sin_family = f;
          sin_port = a.sin_port;
          sin_addr = a.sin_addr;
          sin_zero = a.sin_zero;
        }))
        (sym v.family)

copied6 : (a : Ip6Sockaddress) → IsIp6 a → from_sockaddr6 (to_sockaddr6 a) ≡ copied a
unfolding from_sockaddr6 to_sockaddr6
copied6 a v =
    let bytes = a.sin6_port ++ (a.sin6_flowinfo ++ (a.sin6_addr ++ a.sin6_scope_id)) in
    let size : length bytes ≡ 26 = omega (
      arith,
      length-append a.sin6_port (a.sin6_flowinfo ++ (a.sin6_addr ++ a.sin6_scope_id)),
      length-append a.sin6_flowinfo (a.sin6_addr ++ a.sin6_scope_id),
      length-append a.sin6_addr a.sin6_scope_id,
      v.port_size,
      v.flow_size,
      v.addr_size,
      v.scope_size,
    ) in
    if-true (a.sin6_family == af_inet6) _ _ (ap (λ x. x == af_inet6) v.family)
    ∙ if-false (ltb (length bytes) 26) _ _ (ap (λ n. ltb n 26) size)
    ∙ ap copied (
        read6-bytes a.sin6_port a.sin6_flowinfo a.sin6_addr a.sin6_scope_id v.port_size v.flow_size
          v.addr_size v.scope_size)
    ∙ ap
        (λ f. copied (record {
          sin6_family = f;
          sin6_port = a.sin6_port;
          sin6_flowinfo = a.sin6_flowinfo;
          sin6_addr = a.sin6_addr;
          sin6_scope_id = a.sin6_scope_id;
        }))
        (sym v.family)

-- An address whose fields have their sizes comes back from the memory of its `sockaddr`, whose family is
-- the one that `get_family` gives.
pub from_sockaddr-to_sockaddr :
    (a : IpSocketaddress)
    → IsAddress a
    → (from_sockaddr (to_sockaddr a) ≡ copied a) × ((to_sockaddr a).sa_family ≡ get_family a)
unfolding from_sockaddr to_sockaddr get_family map_copied to_sockaddr4 to_sockaddr6
from_sockaddr-to_sockaddr (ip4 a) v = (
  if-true (a.sin_family == af_inet) _ _ (ap (λ x. x == af_inet) v.family)
      ∙ ap (map_copied ip4) (copied4 a v),
  v.family,
)
from_sockaddr-to_sockaddr (ip6 a) v = (
  if-false (a.sin6_family == af_inet) _ _ (ap (λ x. x == af_inet) v.family)
      ∙ if-true (a.sin6_family == af_inet6) _ _ (ap (λ x. x == af_inet6) v.family)
      ∙ ap (map_copied ip6) (copied6 a v),
  v.family,
)
