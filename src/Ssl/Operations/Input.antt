-- ===== src/Ssl/Operations/Input.antt =====
-- What the incoming direction of the encrypting layer relies on: OpenSSL on input, and the layer above.
use acpp_network.Prelude.{
  ℕ, ◌≤◌, ◌<◌, ◌≡◌, refl, sym, ap, ◌∙◌, true, false, List, [], ◌∷◌, ◌++◌, length, take,
  append_assoc, append-nil, is_empty, ℤ, pos, ◌==◌,
}
use acpp_network.Ssl.{
  OpenSsl, Env, Stream, Act, down, up_connected, up_disconnected, up_received, buffer_size,
  ssl_received_shutdown,
}

-- The bytes that the layer above was given, in order.
abbrev pub ups : List Act → List ℕ
ups [] = []
ups (up_received bytes ∷ acts) = bytes ++ ups acts
ups (up_connected ∷ acts) = ups acts
ups (up_disconnected ∷ acts) = ups acts
ups (down bytes ∷ acts) = ups acts

pub ups-append :
    (acts : List Act) (bytes : List ℕ) → ups (acts ++ up_received bytes ∷ []) ≡ ups acts ++ bytes
ups-append [] bytes = append-nil bytes
ups-append (up_received b ∷ acts) bytes =
    ap (λ x. b ++ x) (ups-append acts bytes) ∙ sym (append_assoc b (ups acts) bytes)
ups-append (up_connected ∷ acts) bytes = ups-append acts bytes
ups-append (up_disconnected ∷ acts) bytes = ups-append acts bytes
ups-append (down b ∷ acts) bytes = ups-append acts bytes

pub ups-down : (acts : List Act) (bytes : List ℕ) → ups (acts ++ down bytes ∷ []) ≡ ups acts
ups-down [] bytes = refl
ups-down (up_received b ∷ acts) bytes = ap (λ x. b ++ x) (ups-down acts bytes)
ups-down (up_connected ∷ acts) bytes = ups-down acts bytes
ups-down (up_disconnected ∷ acts) bytes = ups-down acts bytes
ups-down (down b ∷ acts) bytes = ups-down acts bytes

-- What an SSL object has seen: the ciphertext that was fed to it, the plain bytes that SSL_read has given, and those
-- that it can give now. It is idle when SSL_read has emptied the BIO.
pub record Inside (o : OpenSsl) : Type 1 where
  pub fed : o.Ssl → List ℕ
  pub opened : o.Ssl → List ℕ
  pub ready : o.Ssl → List ℕ
  pub IsIdle : o.Ssl → Type 0

module _ (o : OpenSsl) (i : Inside o) where
  -- BIO_write on a BIO that is empty takes a prefix of the bytes, and some of them if there are any.
  pub record Feeds (bytes : List ℕ) (s : o.Ssl) (r : ℤ) (s' : o.Ssl) : Type 0 where
    pub n : ℕ
    pub counted : r ≡ pos n
    pub some_fed : 0 < n
    pub within : n ≤ length bytes
    pub feeds : i.fed s' ≡ i.fed s ++ take n bytes
    pub same : i.opened s' ≡ i.opened s

  -- SSL_read gives plain bytes from the front, and none only where none can be given.
  pub record Opens (s : o.Ssl) (bytes : List ℕ) (s' : o.Ssl) : Type 0 where
    pub same : i.fed s' ≡ i.fed s
    pub opens : i.opened s' ≡ i.opened s ++ bytes
    pub front : i.ready s ≡ bytes ++ i.ready s'
    pub ends : is_empty bytes ≡ true → (i.ready s ≡ []) × i.IsIdle s'

  -- BIO_read takes output, and touches none of the input.
  pub record Apart (s s' : o.Ssl) : Type 0 where
    pub fed : i.fed s' ≡ i.fed s
    pub opened : i.opened s' ≡ i.opened s
    pub ready : i.ready s' ≡ i.ready s
    pub idle : i.IsIdle s → i.IsIdle s'

-- A session that is established, and that the peer does not shut down. `decode` gives the plain bytes that the
-- records in a ciphertext carry.
pub record ReceiveLaws (o : OpenSsl) : Type 1 where
  pub inside : Inside o
  pub open inside use *
  pub decode : List ℕ → List ℕ
  pub decodes : (s : o.Ssl) → decode (fed s) ≡ opened s ++ ready s
  pub feeds :
      (bytes : List ℕ) (s : o.Ssl)
      → 0 < length bytes
      → IsIdle s
      → Feeds o inside bytes s (o.bio_write bytes s).0 (o.bio_write bytes s).1
  pub opens :
      (s : o.Ssl) → Opens o inside s (o.ssl_read buffer_size s).0 (o.ssl_read buffer_size s).1
  pub apart : (s : o.Ssl) → Apart o inside s (o.bio_read buffer_size s).1
  pub stays : (s : o.Ssl) → (o.ssl_get_shutdown s == ssl_received_shutdown) ≡ false

-- The layer above does not touch the stream from within a call.
abbrev pub LeavesAlone : Env → Type 0
LeavesAlone e = (a : Act) (t : Stream e.openssl) → e.app a t ≡ (t, [])

-- The loop of SSL_read has a round for each byte that an SSL object can hold ready.
abbrev pub ReadsEnough : (e : Env) → ReceiveLaws e.openssl → Type 0
ReadsEnough e law = (s : e.Ssl) → length (law.ready s) < e.read_fuel
