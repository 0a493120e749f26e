-- ===== src/Certificates.antt =====
-- src/ssl/ssl.cpp: keys, certificates and contexts of TLS. OpenSSL is a parameter: each of its calls that the
-- source makes has a name here, and the kernel is the memory of OpenSSL. A handle is an address.
pub mod Calls
pub mod Issued
use acpp_network.Prelude.{
  ℕ, ◌+◌, Bool, true, false, List, [], ◌∷◌, ◌++◌, Option, none, some, Action, ◌>>=◌, ok, throw,
  ssl_exception, Result,
}
use acpp_network.Ssl.{Side, client, server}

-- The parts of a name: C, ST, L, O and CN.
pub data Entry : Type 0 where
  country state locality organization common_name : Entry

abbrev pub DistinguishedName : Type 0
DistinguishedName = List (Entry × List ℕ)

-- What is allocated.
pub data Class : Type 0 where
  x509_class pkey_class rsa_class big_num_class req_class : Class

-- The calls on a certificate: X509_set_version, ASN1_INTEGER_set of the serial number, X509_gmtime_adj of the two
-- times, X509_set_pubkey, X509_NAME_add_entry_by_txt on the subject, X509_set_issuer_name.
pub data Setting : Type 0 where
  version serial not_before not_after pubkey : ℕ → Setting
  subject_entry : Entry → List ℕ → Setting
  issuer : DistinguishedName → Setting

-- The other calls: BN_set_word, RSA_generate_key_ex, EVP_PKEY_assign_RSA, X509_add_ext, X509_EXTENSION_free, the
-- calls on a request, and the functions that free.
pub data Call : Type 0 where
  bn_set_word assign_rsa add_extension req_set_pubkey req_sign : ℕ → ℕ → Call
  rsa_generate : ℕ → ℕ → ℕ → Call
  req_subject_entry : ℕ → Entry → List ℕ → Call
  extension_free : ℕ → Call
  big_num_free req_free ctx_set_partial_write ctx_free : ℕ → Call

pub record Crypto : Type 1 where
  pub Kernel : Type 0
  pub new : Class → Kernel → ℕ × Kernel
  pub set : ℕ → Setting → Kernel → Kernel
  pub call : Call → Kernel → Kernel
  pub get_subject_name : ℕ → Kernel → DistinguishedName
  -- X509V3_EXT_conf_nid of a subject's alternative name.
  pub make_extension : ℕ → List ℕ → Kernel → Option ℕ × Kernel
  -- X509_sign with a key.
  pub sign : ℕ → ℕ → Kernel → Kernel
  pub ctx_new : Side → Kernel → Option ℕ × Kernel
  pub use_certificate : ℕ → ℕ → Kernel → Bool × Kernel
  pub use_private_key : ℕ → ℕ → Kernel → Bool × Kernel

-- `x509::Name`.
pub record Name : Type 0 where
  pub c : List ℕ
  pub st : List ℕ
  pub l : List ℕ
  pub o : List ℕ
  pub cn : List ℕ

abbrev pub entries : Name → DistinguishedName
entries n =
    (country, n.c)
    ∷ (state, n.st)
    ∷ (locality, n.l)
    ∷ (organization, n.o)
    ∷ (common_name, n.cn)
    ∷ []

-- `set_name`, on the subject of a certificate and on that of a request.
abbrev pub set_name : DistinguishedName → List Setting
set_name [] = []
set_name ((e, v) ∷ more) = subject_entry e v ∷ set_name more

abbrev pub set_req_name : ℕ → DistinguishedName → List Call
set_req_name req [] = []
set_req_name req ((e, v) ∷ more) = req_subject_entry req e v ∷ set_req_name req more

-- RSA_F4.
abbrev pub rsa_f4 : ℕ
rsa_f4 = 65537

-- A year in seconds.
abbrev pub valid_for : ℕ
valid_for = 31536000

-- `cont` is the static counter of `create_cert`.
pub record Machine (s : Crypto) : Type 0 where
  pub kernel : s.Kernel
  pub cont : ℕ

-- A key of 2048 bits is made, and given to the object of the key.
abbrev pub key_calls : ℕ → ℕ → ℕ → List Call
key_calls pk rsa bn = bn_set_word bn rsa_f4 ∷ rsa_generate rsa 2048 bn ∷ assign_rsa pk rsa ∷ []

-- The text "DNS:", and then the name.
abbrev pub dns_name : List ℕ → List ℕ
dns_name cn = 68 ∷ 78 ∷ 83 ∷ 58 ∷ cn

module _ (s : Crypto) where
  abbrev pub set_all : ℕ → List Setting → s.Kernel → s.Kernel
  set_all c [] k = k
  set_all c (x ∷ xs) k = set_all c xs (s.set c x k)

  abbrev pub call_all : List Call → s.Kernel → s.Kernel
  call_all [] k = k
  call_all (x ∷ xs) k = call_all xs (s.call x k)

  after_extension : ℕ → Option ℕ × s.Kernel → Bool × s.Kernel
  after_extension cert (none, k) = (false, k)
  after_extension cert (some ex, k) =
      (true, call_all (add_extension cert ex ∷ extension_free ex ∷ []) k)

  pub add_ext : ℕ → List ℕ → s.Kernel → Bool × s.Kernel
  add_ext cert value k = after_extension cert (s.make_extension cert value k)

  -- The certificate and the key, with their handles. Where `add_ext` fails, the source makes an exception and does
  -- not throw it.
  pub create_cert : Name → Machine s → (ℕ × ℕ) × Machine s
  create_cert n m =
      let (cert, k₁) = s.new x509_class m.kernel in
      let (pk, k₂) = s.new pkey_class k₁ in
      let (rsa, k₃) = s.new rsa_class k₂ in
      let (bn, k₄) = s.new big_num_class k₃ in
      let k₅ = call_all (key_calls pk rsa bn) k₄ in
      let k₆ =
        set_all cert
          (version 2
            ∷ serial (m.cont + 1)
            ∷ not_before 0
            ∷ not_after valid_for
            ∷ pubkey pk
            ∷ set_name (entries n))
          k₅ in
      let (_, k₇) = add_ext cert (dns_name n.cn) k₆ in
      ((cert, pk), record { kernel = s.call (big_num_free bn) k₇; cont = m.cont + 1 })

  -- `x509::sign`.
  pub sign_by : ℕ → ℕ → ℕ → s.Kernel → s.Kernel
  sign_by cert ca_cert pk k = s.sign cert pk (s.set cert (issuer (s.get_subject_name ca_cert k)) k)

  pub create_self_signed_cert : Name → Machine s → (ℕ × ℕ) × Machine s
  create_self_signed_cert n m =
      let (x, m₁) = create_cert n m in (x, record m₁ { kernel = sign_by x.0 x.0 x.1 m₁.kernel })

  -- The request is made and signed, and not used.
  make_request : ℕ → Name → s.Kernel → ℕ × s.Kernel
  make_request pk n k =
      let (req, k₁) = s.new req_class k in
      let k₂ = s.call (req_set_pubkey req pk) k₁ in
      let k₃ = call_all (set_req_name req (entries n)) k₂ in (req, s.call (req_sign req pk) k₃)

  pub create_signed_cert : ℕ → ℕ → Name → Machine s → (ℕ × ℕ) × Machine s
  create_signed_cert ca_cert ca_pkey n m =
      let (x, m₁) = create_cert n m in
      let (req, k₂) = make_request x.1 n m₁.kernel in
      (x, record m₁ { kernel = s.call (req_free req) (sign_by x.0 ca_cert ca_pkey k₂) })

  with_ctx : Option ℕ × s.Kernel → Action (Machine s) ℕ
  with_ctx (none, k) m = (throw ssl_exception, record m { kernel = k })
  with_ctx (some h, k) m = (ok h, record m { kernel = s.call (ctx_set_partial_write h) k })

  -- The constructor of `context`, and its destructor.
  pub create_context : Side → Action (Machine s) ℕ
  create_context side m = with_ctx (s.ctx_new side m.kernel) m

  pub destroy_context : ℕ → Machine s → Machine s
  destroy_context h m = record m { kernel = s.call (ctx_free h) m.kernel }

  after_use : Bool × s.Kernel → Action (Machine s) (Unit {0})
  after_use (true, k) m = (ok tt, record m { kernel = k })
  after_use (false, k) m = (throw ssl_exception, record m { kernel = k })

  pub set_cert : ℕ → ℕ → Action (Machine s) (Unit {0})
  set_cert h cert m = after_use (s.use_certificate h cert m.kernel) m

  -- The result is not looked at.
  pub set_pkey : ℕ → ℕ → Machine s → Machine s
  set_pkey h pk m = record m { kernel = (s.use_private_key h pk m.kernel).1 }

  -- The name of the certificate of a server: "xxx", "l", "o" and "st".
  abbrev server_name : Name
  server_name = record {
    c = [];
    st = 115 ∷ 116 ∷ [];
    l = 108 ∷ [];
    o = 111 ∷ [];
    cn = 120 ∷ 120 ∷ 120 ∷ [];
  }

  serve_with : ℕ → (ℕ × ℕ) × Machine s → Result ℕ × Machine s
  serve_with h (x, m) = (set_cert h x.0 >>= λ _ m'. (ok h, set_pkey h x.1 m')) m

  for_side : Side → ℕ → Action (Machine s) ℕ
  for_side client h m = (ok h, m)
  for_side server h m = serve_with h (create_self_signed_cert server_name m)

  -- The constructor of `ssl_stream_context`; its result is the handle of the context.
  pub create_stream_context : Side → Action (Machine s) ℕ
  create_stream_context side = create_context side >>= for_side side
