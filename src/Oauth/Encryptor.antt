-- ===== src/Oauth/Encryptor.antt =====
-- Encryptor of internal/oauth/tokens.go. The AEAD (AES-GCM under the key) is a parameter; the nonce
-- that rand.Read draws is an argument, `none` where the draw fails.
use ssh_bot.Base.{
  ℕ, ◌≡◌, refl, sym, ap, ◌∙◌, arith, false, Option, none, some, ◌++◌, if◌then◌else◌, ltb,
  le→ltb_false, Bytes, length, take, drop, length-append, take-append_self, drop-append_self,
}

-- cipher.AEAD with no additional data
pub record Aead : Type 0 where
  pub nonce_size : ℕ
  pub seal : (nonce plaintext : Bytes) → Bytes
  pub open_sealed : (nonce ciphertext : Bytes) → Option Bytes

-- What is sealed opens under the same nonce.
abbrev pub IsAead : Aead → Type 0
IsAead a = (nonce plaintext : Bytes) → a.open_sealed nonce (a.seal nonce plaintext) ≡ some plaintext

module _ (a : Aead) where
  -- Seal; aead.Seal(nonce, nonce, …) appends to the nonce.
  unfoldable pub seal : Option Bytes → Bytes → Option Bytes
  seal none plaintext = none
  seal (some nonce) plaintext = some (nonce ++ a.seal nonce plaintext)

  -- Open; `none` is an error.
  pub open_envelope : Bytes → Option Bytes
  open_envelope envelope =
      if ltb (length envelope) a.nonce_size
      then none
      else a.open_sealed (take a.nonce_size envelope) (drop a.nonce_size envelope)

  pub open_envelope-seal :
      (nonce plaintext : Bytes)
      → IsAead a
      → length nonce ≡ a.nonce_size
      → open_envelope (nonce ++ a.seal nonce plaintext) ≡ some plaintext
  unfolding open_envelope
  open_envelope-seal nonce plaintext laws n =
      let ct = a.seal nonce plaintext in
      let enough : ltb (length (nonce ++ ct)) a.nonce_size ≡ false =
        le→ltb_false _ _ (omega (arith, length-append nonce ct)) in
      rw
        (enough, take-append_self a.nonce_size nonce ct n, drop-append_self a.nonce_size nonce ct n)
        (laws nonce plaintext)

  -- Whatever Seal returns, drawn with a nonce of the right length, opens to the plaintext.
  pub opened :
      (drawn : Option Bytes) (plaintext envelope : Bytes)
      → IsAead a
      → ((nonce : Bytes) → drawn ≡ some nonce → length nonce ≡ a.nonce_size)
      → seal drawn plaintext ≡ some envelope
      → open_envelope envelope ≡ some plaintext
  unfolding seal
  opened none plaintext envelope laws n h = absurd (nothing h)
    where
      nothing : none ≡ some envelope → ⊥
      nothing e = cc
  opened (some nonce) plaintext envelope laws n h =
      let same : nonce ++ a.seal nonce plaintext ≡ envelope = cc in
      ap open_envelope (sym same) ∙ open_envelope-seal nonce plaintext laws (n nonce refl)
