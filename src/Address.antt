-- ===== src/Address.antt =====
-- include/acpp-network/address.h and src/address.cpp: socket addresses. The conversions of the C library are a
-- parameter; memory is a list of bytes.
pub mod Roundtrip
use acpp_network.Prelude.{
  ℕ, ◌+◌, Bool, List, [], ◌∷◌, ◌++◌, Option, none, some, Result, ok, throw, invalid_argument, ◌==◌,
  ltb, if◌then◌else◌, length, take, drop,
}
use acpp_network.Posix.{Sockaddr}

-- `inet_pton` gives nothing on a text that is no address. A port in the order of the network is two bytes.
pub record Inet : Type 0 where
  pub inet_pton : ℕ → List ℕ → Option (List ℕ)
  pub inet_ntop : ℕ → List ℕ → List ℕ
  pub htons : ℕ → List ℕ
  pub ntohs : List ℕ → ℕ
  -- std::to_string
  pub digits : ℕ → List ℕ

abbrev pub af_unix : ℕ
af_unix = 1

abbrev pub af_inet : ℕ
af_inet = 2

abbrev pub af_inet6 : ℕ
af_inet6 = 10

-- `sockaddr_in`, and so `ip4_sockaddress`.
pub record Ip4Sockaddress : Type 0 where
  pub sin_family : ℕ
  pub sin_port : List ℕ
  pub sin_addr : List ℕ
  pub sin_zero : List ℕ

-- `sockaddr_in6`, and so `ip6_sockaddress`.
pub record Ip6Sockaddress : Type 0 where
  pub sin6_family : ℕ
  pub sin6_port : List ℕ
  pub sin6_flowinfo : List ℕ
  pub sin6_addr : List ℕ
  pub sin6_scope_id : List ℕ

-- The variant.
pub data IpSocketaddress : Type 0 where
  ip4 : Ip4Sockaddress → IpSocketaddress
  ip6 : Ip6Sockaddress → IpSocketaddress

-- What a `memcpy` from a `const sockaddr&` gives: an address, the exception of a wrong family, or a read past
-- the end of the object.
pub data Copied (A : Type 0) : Type 0 where
  copied : A → Copied A
  wrong_family : Copied A
  past_end : Copied A

-- `get_family` of the variant does not look at the field.
pub get_family : IpSocketaddress → ℕ
get_family (ip4 a) = af_inet
get_family (ip6 a) = af_inet6

-- `to_sockaddr` is a cast of the reference: the memory behind it.
pub to_sockaddr4 : Ip4Sockaddress → Sockaddr
to_sockaddr4 a = record {
  sa_family = a.sin_family;
  sa_data = a.sin_port ++ (a.sin_addr ++ a.sin_zero);
}

pub to_sockaddr6 : Ip6Sockaddress → Sockaddr
to_sockaddr6 a = record {
  sa_family = a.sin6_family;
  sa_data = a.sin6_port ++ (a.sin6_flowinfo ++ (a.sin6_addr ++ a.sin6_scope_id));
}

pub to_sockaddr : IpSocketaddress → Sockaddr
to_sockaddr (ip4 a) = to_sockaddr4 a
to_sockaddr (ip6 a) = to_sockaddr6 a

-- The fields of the bytes that follow the family.
pub read4 : List ℕ → Ip4Sockaddress
read4 bytes = record {
  sin_family = af_inet;
  sin_port = take 2 bytes;
  sin_addr = take 4 (drop 2 bytes);
  sin_zero = take 8 (drop 4 (drop 2 bytes));
}

pub read6 : List ℕ → Ip6Sockaddress
read6 bytes = record {
  sin6_family = af_inet6;
  sin6_port = take 2 bytes;
  sin6_flowinfo = take 4 (drop 2 bytes);
  sin6_addr = take 16 (drop 4 (drop 2 bytes));
  sin6_scope_id = take 4 (drop 16 (drop 4 (drop 2 bytes)));
}

-- The family is two bytes of the sixteen, or of the twenty-eight.
pub from_sockaddr4 : Sockaddr → Copied Ip4Sockaddress
from_sockaddr4 sa =
    if sa.sa_family == af_inet
    then if ltb (length sa.sa_data) 14 then past_end else copied (read4 sa.sa_data)
    else wrong_family

pub from_sockaddr6 : Sockaddr → Copied Ip6Sockaddress
from_sockaddr6 sa =
    if sa.sa_family == af_inet6
    then if ltb (length sa.sa_data) 26 then past_end else copied (read6 sa.sa_data)
    else wrong_family

map_copied : {A B : Type 0} → (A → B) → Copied A → Copied B
map_copied f (copied a) = copied (f a)
map_copied f wrong_family = wrong_family
map_copied f past_end = past_end

pub from_sockaddr : Sockaddr → Copied IpSocketaddress
from_sockaddr sa =
    if sa.sa_family == af_inet
    then map_copied ip4 (from_sockaddr4 sa)
    else if sa.sa_family == af_inet6
    then map_copied ip6 (from_sockaddr6 sa)
    else wrong_family

module _ (i : Inet) where
  make4 : ℕ → List ℕ → Option (List ℕ) → Result Ip4Sockaddress
  make4 port zero_bytes none = throw invalid_argument
  make4 port zero_bytes (some addr) = ok (record {
    sin_family = af_inet;
    sin_port = i.htons port;
    sin_addr = addr;
    sin_zero = zero_bytes;
  })

  -- The constructor leaves `sin_zero` as it finds it.
  pub ip4_sockaddress : List ℕ → ℕ → List ℕ → Result Ip4Sockaddress
  ip4_sockaddress ip port zero_bytes = make4 port zero_bytes (i.inet_pton af_inet ip)

  make6 : ℕ → Option (List ℕ) → Result Ip6Sockaddress
  make6 port none = throw invalid_argument
  make6 port (some addr) = ok (record {
    sin6_family = af_inet6;
    sin6_port = i.htons port;
    sin6_flowinfo = 0 ∷ 0 ∷ 0 ∷ 0 ∷ [];
    sin6_addr = addr;
    sin6_scope_id = 0 ∷ 0 ∷ 0 ∷ 0 ∷ [];
  })

  pub ip6_sockaddress : List ℕ → ℕ → Result Ip6Sockaddress
  ip6_sockaddress ip port = make6 port (i.inet_pton af_inet6 ip)

  pub ip : IpSocketaddress → List ℕ
  ip (ip4 a) = i.inet_ntop af_inet a.sin_addr
  ip (ip6 a) = i.inet_ntop af_inet6 a.sin6_addr

  pub port : IpSocketaddress → ℕ
  port (ip4 a) = i.ntohs a.sin_port
  port (ip6 a) = i.ntohs a.sin6_port

  -- The colon is the character 58.
  pub to_string : IpSocketaddress → List ℕ
  to_string a = ip a ++ 58 ∷ i.digits (port a)
