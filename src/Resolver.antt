-- ===== src/Resolver.antt =====
-- include/acpp-network/socket.inl: `resolve_host`, on the list that `getaddrinfo` gives.
use acpp_network.Prelude.{Bool, List, [], ◌∷◌, Option, none, some, if◌then◌else◌}

-- It returns, ends the process, or throws.
pub data Resolved : Type 0 where
  finished exits throws : Resolved

-- `from` is `from_sockaddr`, which gives nothing where it throws; the callback sets `success`.
module _ {Raw Address S : Type 0} (from : Raw → Option Address)
    (callback : Address → S → Bool × S) where
  pub visit : List Raw → S → Resolved × S
  visit [] s = (finished, s)
  visit (sa ∷ rest) s = elim (from sa) [
    | none ↦ (throws, s)
    | some addr ↦
        let (success, s') = callback addr s in
        let others = visit rest s' in if success then (finished, s') else others
  ]

  -- `none` is a failure of `getaddrinfo`.
  pub resolve_host : Option (List Raw) → S → Resolved × S
  resolve_host none s = (exits, s)
  resolve_host (some result) s = visit result s
