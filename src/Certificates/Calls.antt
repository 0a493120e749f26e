-- ===== src/Certificates/Calls.antt =====
-- What the calls of OpenSSL are for, and what `create_cert` leaves in a certificate.
use acpp_network.Prelude.{
  ℕ, ◌+◌, ◌≡◌, ◌≢◌, refl, sym, ap, ◌∙◌, append-nil, append_assoc, if_cases, Bool, true, false, List,
  [], ◌∷◌, ◌++◌, if◌then◌else◌, Option, none, some,
}
use acpp_network.Certificates.{
  Crypto, Class, Entry, x509_class, pkey_class, rsa_class, big_num_class, req_class, Setting,
  version, serial, not_before, not_after, pubkey, subject_entry, issuer, Call, add_extension,
  extension_free, key_calls, DistinguishedName, Name, entries, set_name, valid_for, Machine,
  set_all, call_all, after_extension, add_ext, create_cert, dns_name,
}

pub record Certificate : Type 0 where
  pub version_of : ℕ
  pub serial_of : ℕ
  pub not_before_of : ℕ
  pub not_after_of : ℕ
  pub pubkey_of : ℕ
  pub subject_of : DistinguishedName
  pub issuer_of : DistinguishedName

-- What each call is for; an entry that OpenSSL does not accept is not added, and nobody looks.
abbrev pub after_setting : (Entry → List ℕ → Bool) → Setting → Certificate → Certificate
after_setting accepts (version n) c = record c { version_of = n }
after_setting accepts (serial n) c = record c { serial_of = n }
after_setting accepts (not_before n) c = record c { not_before_of = n }
after_setting accepts (not_after n) c = record c { not_after_of = n }
after_setting accepts (pubkey n) c = record c { pubkey_of = n }
after_setting accepts (subject_entry e v) c = record c {
  subject_of = c.subject_of ++ (if accepts e v then (e, v) ∷ [] else []);
}
after_setting accepts (issuer dn) c = record c { issuer_of = dn }

abbrev pub after_all : (Entry → List ℕ → Bool) → List Setting → Certificate → Certificate
after_all accepts [] c = c
after_all accepts (x ∷ xs) c = after_all accepts xs (after_setting accepts x c)

abbrev pub is_certificate : Class → Bool
is_certificate x509_class = true
is_certificate pkey_class = false
is_certificate rsa_class = false
is_certificate big_num_class = false
is_certificate req_class = false

-- The entries of a name that are accepted.
abbrev pub accepted : (Entry → List ℕ → Bool) → DistinguishedName → DistinguishedName
accepted accepts [] = []
accepted accepts ((e, v) ∷ more) =
    if accepts e v then (e, v) ∷ accepted accepts more else accepted accepts more

-- The entries are added one after another.
abbrev pub add_all :
    (Entry → List ℕ → Bool) → DistinguishedName → DistinguishedName → DistinguishedName
add_all accepts dn [] = dn
add_all accepts dn ((e, v) ∷ more) =
    add_all accepts (dn ++ (if accepts e v then (e, v) ∷ [] else [])) more

add_all-append :
    (accepts : Entry → List ℕ → Bool) (dn more : DistinguishedName)
    → add_all accepts dn more ≡ dn ++ accepted accepts more
add_all-append accepts dn [] = sym (append-nil dn)
add_all-append accepts dn ((e, v) ∷ more) =
    add_all-append accepts (dn ++ (if accepts e v then (e, v) ∷ [] else [])) more
    ∙ append_assoc dn (if accepts e v then (e, v) ∷ [] else []) (accepted accepts more)
    ∙ ap (λ x. dn ++ x)
        (if_cases
          (λ (x : DistinguishedName).
            x ++ accepted accepts more
            ≡ (if accepts e v then (e, v) ∷ accepted accepts more else accepted accepts more))
          (accepts e v)
          (λ yes.
            ap (λ b. if b then (e, v) ∷ accepted accepts more else accepted accepts more) (sym yes))
          (λ no.
            ap (λ b. if b then (e, v) ∷ accepted accepts more else accepted accepts more) (sym no)))

pub added :
    (accepts : Entry → List ℕ → Bool) (dn : DistinguishedName)
    → add_all accepts [] dn ≡ accepted accepts dn
added accepts dn = add_all-append accepts [] dn

-- OpenSSL with memory to spare; `accepts` is whether X509_NAME_add_entry_by_txt takes an entry (it refuses an empty
-- one, and a country that is not of two characters). `signer` is the key that a certificate was signed with last.
pub record CryptoLaws (s : Crypto) : Type 0 where
  pub certificate : s.Kernel → ℕ → Certificate
  pub signer : s.Kernel → ℕ → Option ℕ
  pub accepts : Entry → List ℕ → Bool
  pub new_empty :
      (k : s.Kernel) → (certificate (s.new x509_class k).1 (s.new x509_class k).0).subject_of ≡ []
  pub new_other :
      (k : s.Kernel) (c : ℕ)
      → (s.new x509_class k).0 ≢ c
      → certificate (s.new x509_class k).1 c ≡ certificate k c
  pub new_keeps :
      (cls : Class) (k : s.Kernel) (c : ℕ)
      → is_certificate cls ≡ false
      → certificate (s.new cls k).1 c ≡ certificate k c
  pub set_same :
      (c : ℕ) (x : Setting) (k : s.Kernel)
      → certificate (s.set c x k) c ≡ after_setting accepts x (certificate k c)
  pub set_other :
      (c d : ℕ) (x : Setting) (k : s.Kernel) → c ≢ d → certificate (s.set c x k) d ≡ certificate k d
  pub call_keeps : (x : Call) (k : s.Kernel) (c : ℕ) → certificate (s.call x k) c ≡ certificate k c
  pub extension_keeps :
      (c : ℕ) (v : List ℕ) (k : s.Kernel) (d : ℕ)
      → certificate (s.make_extension c v k).1 d ≡ certificate k d
  pub subject_name : (c : ℕ) (k : s.Kernel) → s.get_subject_name c k ≡ (certificate k c).subject_of
  pub sign_keeps :
      (c pk : ℕ) (k : s.Kernel) (d : ℕ) → certificate (s.sign c pk k) d ≡ certificate k d
  pub sign_signer : (c pk : ℕ) (k : s.Kernel) → signer (s.sign c pk k) c ≡ some pk
  pub call_signer : (x : Call) (k : s.Kernel) (c : ℕ) → signer (s.call x k) c ≡ signer k c

-- The settings that `create_cert` makes.
abbrev pub settings : Name → ℕ → ℕ → List Setting
settings n number pk =
    version 2
    ∷ serial number
    ∷ not_before 0
    ∷ not_after valid_for
    ∷ pubkey pk
    ∷ set_name (entries n)

module _ (s : Crypto) (law : CryptoLaws s) where
  set_all-same :
      (c : ℕ) (xs : List Setting) (k : s.Kernel)
      → law.certificate (set_all s c xs k) c ≡ after_all law.accepts xs (law.certificate k c)
  set_all-same c [] k = refl
  set_all-same c (x ∷ xs) k =
      set_all-same c xs (s.set c x k) ∙ ap (λ y. after_all law.accepts xs y) (law.set_same c x k)

  set_all-other :
      (c d : ℕ) (xs : List Setting) (k : s.Kernel)
      → c ≢ d
      → law.certificate (set_all s c xs k) d ≡ law.certificate k d
  set_all-other c d [] k ne = refl
  set_all-other c d (x ∷ xs) k ne = set_all-other c d xs (s.set c x k) ne ∙ law.set_other c d x k ne

  pub call_all-keeps :
      (xs : List Call) (k : s.Kernel) (c : ℕ)
      → law.certificate (call_all s xs k) c ≡ law.certificate k c
  call_all-keeps [] k c = refl
  call_all-keeps (x ∷ xs) k c = call_all-keeps xs (s.call x k) c ∙ law.call_keeps x k c

  after_extension-keeps :
      (cert : ℕ) (x : Option ℕ × s.Kernel) (c : ℕ)
      → law.certificate (after_extension s cert x).1 c ≡ law.certificate x.1 c
  unfolding after_extension
  after_extension-keeps cert (none, k) c = refl
  after_extension-keeps cert (some ex, k) c =
      call_all-keeps (add_extension cert ex ∷ extension_free ex ∷ []) k c

  add_ext-keeps :
      (cert : ℕ) (v : List ℕ) (k : s.Kernel) (c : ℕ)
      → law.certificate (add_ext s cert v k).1 c ≡ law.certificate k c
  unfolding add_ext
  add_ext-keeps cert v k c =
      after_extension-keeps cert (s.make_extension cert v k) c ∙ law.extension_keeps cert v k c

  pub create_cert-same :
      (n : Name) (m : Machine s)
      → let r = create_cert s n m in
        let x = s.new x509_class m.kernel in
        law.certificate r.1.kernel r.0.0
        ≡ after_all law.accepts (settings n (m.cont + 1) r.0.1) (law.certificate x.1 x.0)
  unfolding create_cert
  create_cert-same n m =
      let x = s.new x509_class m.kernel in
      let y = s.new pkey_class x.1 in
      let z = s.new rsa_class y.1 in
      let b = s.new big_num_class z.1 in
      law.call_keeps _ _ x.0
      ∙ add_ext-keeps x.0 (dns_name n.cn) _ x.0
      ∙ set_all-same x.0 (settings n (m.cont + 1) y.0) _
      ∙ ap (λ c. after_all law.accepts (settings n (m.cont + 1) y.0) c)
          (call_all-keeps (key_calls y.0 z.0 b.0) b.1 x.0
            ∙ law.new_keeps big_num_class z.1 x.0 refl
            ∙ law.new_keeps rsa_class y.1 x.0 refl
            ∙ law.new_keeps pkey_class x.1 x.0 refl)

  pub create_cert-other :
      (n : Name) (m : Machine s) (c : ℕ)
      → (s.new x509_class m.kernel).0 ≢ c
      → law.certificate (create_cert s n m).1.kernel c ≡ law.certificate m.kernel c
  unfolding create_cert
  create_cert-other n m c ne =
      let x = s.new x509_class m.kernel in
      let y = s.new pkey_class x.1 in
      let z = s.new rsa_class y.1 in
      let b = s.new big_num_class z.1 in
      law.call_keeps _ _ c
      ∙ add_ext-keeps x.0 (dns_name n.cn) _ c
      ∙ set_all-other x.0 c (settings n (m.cont + 1) y.0) _ ne
      ∙ call_all-keeps (key_calls y.0 z.0 b.0) b.1 c
      ∙ law.new_keeps big_num_class z.1 c refl
      ∙ law.new_keeps rsa_class y.1 c refl
      ∙ law.new_keeps pkey_class x.1 c refl
      ∙ law.new_other m.kernel c ne
