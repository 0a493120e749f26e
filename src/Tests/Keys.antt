-- ===== src/Tests/Keys.antt =====
-- A memory of certificates, each at its own address, and the theorems on them.
use acpp_network.Prelude.{
  ℕ, suc, ◌≡◌, ◌≢◌, refl, ap, Bool, List, not, is_empty, true, false, [], ◌∷◌, Option, none, some,
  arith, ◌==◌, if◌then◌else◌, if_cases, ==→eq,
}
use acpp_network.Certificates.{
  Crypto, Class, Entry, country, state, locality, organization, common_name, x509_class, pkey_class,
  rsa_class, big_num_class, req_class, Name, entries, Machine, create_self_signed_cert,
}
use acpp_network.Certificates.Calls.{
  Certificate, after_setting, accepted, is_certificate, CryptoLaws,
}
use acpp_network.Certificates.Issued.{Issued, create_self_signed_cert-Issued}

record Memory : Type 0 where
  next : ℕ
  certs : ℕ → Certificate
  signers : ℕ → Option ℕ

abbrev empty : Certificate
empty = record {
  version_of = 0;
  serial_of = 0;
  not_before_of = 0;
  not_after_of = 0;
  pubkey_of = 0;
  subject_of = [];
  issuer_of = [];
}

abbrev update : {A : Type 0} → ℕ → A → (ℕ → A) → ℕ → A
update a x f b = if a == b then x else f b

abbrev new : Class → Memory → ℕ × Memory
new x509_class k = (k.next, record k { next = suc k.next; certs = update k.next empty k.certs })
new pkey_class k = (k.next, record k { next = suc k.next })
new rsa_class k = (k.next, record k { next = suc k.next })
new big_num_class k = (k.next, record k { next = suc k.next })
new req_class k = (k.next, record k { next = suc k.next })

-- A country is of two characters, and no entry is empty.
abbrev takes : Entry → List ℕ → Bool
takes country (a ∷ b ∷ []) = true
takes country [] = false
takes country (a ∷ []) = false
takes country (a ∷ b ∷ c ∷ more) = false
takes state v = not (is_empty v)
takes locality v = not (is_empty v)
takes organization v = not (is_empty v)
takes common_name v = not (is_empty v)

abbrev toy : Crypto
toy = record {
  Kernel = Memory;
  new = new;
  set = λ c x k. record k { certs = update c (after_setting takes x (k.certs c)) k.certs };
  call = λ _ k. k;
  get_subject_name = λ c k. (k.certs c).subject_of;
  make_extension = λ _ _ k. (none, k);
  sign = λ c pk k. record k { signers = update c (some pk) k.signers };
  ctx_new = λ _ k. (some 1, k);
  use_certificate = λ _ _ k. (true, k);
  use_private_key = λ _ _ k. (true, k);
}

update-same : {A : Type 0} (a : ℕ) (x : A) (f : ℕ → A) → update a x f a ≡ x
update-same a x f = let t : (a == a) ≡ true = ground arith in ap (λ b. if b then x else f a) t

update-other : {A : Type 0} (a b : ℕ) (x : A) (f : ℕ → A) → a ≢ b → update a x f b ≡ f b
update-other a b x f ne =
    if_cases (λ y. y ≡ f b) (a == b) (λ same. absurd (ne (==→eq a b same))) (λ other. refl)

new_keeps :
    (cls : Class) (k : Memory) (c : ℕ)
    → is_certificate cls ≡ false
    → (new cls k).1.certs c ≡ k.certs c
new_keeps x509_class k c h = absurd (cc)
new_keeps pkey_class k c h = refl
new_keeps rsa_class k c h = refl
new_keeps big_num_class k c h = refl
new_keeps req_class k c h = refl

abbrev laws : CryptoLaws toy
laws = record {
  certificate = λ (k : Memory) c. k.certs c;
  signer = λ (k : Memory) c. k.signers c;
  accepts = takes;
  new_empty = λ k. ap (λ c. c.subject_of) (update-same k.next empty k.certs);
  new_other = λ k c ne. update-other k.next c empty k.certs ne;
  new_keeps = new_keeps;
  set_same = λ c x k. update-same c _ k.certs;
  set_other = λ c d x k ne. update-other c d _ k.certs ne;
  call_keeps = λ x k c. refl;
  extension_keeps = λ c v k d. refl;
  subject_name = λ c k. refl;
  sign_keeps = λ c pk k d. refl;
  sign_signer = λ c pk k. update-same c _ k.signers;
  call_signer = λ x k c. refl;
}

abbrev name : Name
name = record { c = []; st = []; l = []; o = []; cn = 97 ∷ [] }

abbrev machine : Machine toy
machine = record {
  kernel = record { next = 10; certs = λ _. empty; signers = λ _. none };
  cont = 4;
}

create_self_signed_cert-Issued_example :
    let r = create_self_signed_cert toy name machine in
    Issued toy laws name (accepted takes (entries name)) r.0.1 5 r
create_self_signed_cert-Issued_example = create_self_signed_cert-Issued toy laws name machine
