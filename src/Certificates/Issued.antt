-- ===== src/Certificates/Issued.antt =====
-- Who issues and who signs the certificates.
use acpp_network.Prelude.{ℕ, ◌+◌, ◌≡◌, ap, ◌∙◌, [], some}
use acpp_network.Certificates.{
  Crypto, x509_class, issuer, DistinguishedName, Name, entries, valid_for, Machine, create_cert,
  sign_by, create_self_signed_cert,
}
use acpp_network.Certificates.Calls.{
  Certificate, after_setting, after_all, accepted, added, CryptoLaws, settings, create_cert-same,
}

module _ (s : Crypto) (law : CryptoLaws s) where
  -- A certificate with the entries of this name that OpenSSL accepts, and of this serial number, issued by `by` and signed with `key`.
  pub record Issued (n : Name) (by : DistinguishedName) (key number : ℕ) (r : (ℕ × ℕ) × Machine s)
      : Type 0 where
    pub contents : law.certificate r.1.kernel r.0.0 ≡ record {
      version_of = 2;
      serial_of = number;
      not_before_of = 0;
      not_after_of = valid_for;
      pubkey_of = r.0.1;
      subject_of = accepted law.accepts (entries n);
      issuer_of = by;
    }
    pub signed : law.signer r.1.kernel r.0.0 ≡ some key

  -- The certificate that `create_cert` leaves has no issuer of its own choice yet.
  abbrev unissued : Name → ℕ → ℕ → Certificate → Certificate
  unissued n pk number c = record {
    version_of = 2;
    serial_of = number;
    not_before_of = 0;
    not_after_of = valid_for;
    pubkey_of = pk;
    subject_of = accepted law.accepts (entries n);
    issuer_of = c.issuer_of;
  }

  -- The entries are added to a subject that is empty.
  all_settings :
      (n : Name) (pk number : ℕ) (c : Certificate)
      → c.subject_of ≡ []
      → after_all law.accepts (settings n number pk) c ≡ unissued n pk number c
  all_settings n pk number c h =
      ap (λ dn. after_all law.accepts (settings n number pk) (record c { subject_of = dn })) h
      ∙ ap (λ dn. record (unissued n pk number c) { subject_of = dn })
          (added law.accepts (entries n))

  sign_by-same :
      (cert ca pk : ℕ) (k : s.Kernel)
      → law.certificate (sign_by s cert ca pk k) cert
        ≡ after_setting law.accepts
            (issuer ((law.certificate k ca).subject_of))
            (law.certificate k cert)
  unfolding sign_by
  sign_by-same cert ca pk k =
      law.sign_keeps cert pk _ cert
      ∙ law.set_same cert (issuer (s.get_subject_name ca k)) k
      ∙ ap (λ dn. after_setting law.accepts (issuer dn) (law.certificate k cert))
          (law.subject_name ca k)

  -- A self-signed certificate has the entries of the name that OpenSSL accepts for its subject and for its issuer
  -- (the others are left out, and nobody is told), the key that is made with it, and
  -- the next serial number; it is signed with that key, whether the alternative name could be added or not.
  pub create_self_signed_cert-Issued :
      (n : Name) (m : Machine s)
      → let r = create_self_signed_cert s n m in
        Issued n (accepted law.accepts (entries n)) r.0.1 (m.cont + 1) r
  unfolding create_self_signed_cert sign_by
  create_self_signed_cert-Issued n m =
      let x = s.new x509_class m.kernel in
      let r = create_cert s n m in
      let made =
        create_cert-same s law n m
        ∙ all_settings n r.0.1 (m.cont + 1) (law.certificate x.1 x.0) (law.new_empty m.kernel) in
      record {
        contents =
            sign_by-same r.0.0 r.0.0 r.0.1 r.1.kernel
            ∙ ap (λ c. after_setting law.accepts (issuer (c.subject_of)) c) made;
        signed = law.sign_signer r.0.0 r.0.1 _;
      }
