-- ===== src/Oauth/State.antt =====
-- StateSigner of internal/oauth/state.go. HMAC-SHA256 under the key and unpadded base64url are
-- parameters; the nonce that was drawn is an argument, `none` where the draw failed.
use ssh_bot.Base.{
  ◌-◌, ◌<◌, ◌≡◌, ◌≢◌, refl, sym, ap, ◌∙◌, arith, false, ltb, ◌==◌, Option-cases, inl, inr, Option,
  none, some, [], ◌∷◌, ◌++◌, if◌then◌else◌, Bytes, beq, beq_refl, length, take, drop, length-append,
  take-append_self, drop-append_self, All, le→ltb_false, length-take,
}

pub record Crypto : Type 0 where
  -- hmac.New(sha256.New, key), written and summed
  pub mac : Bytes → Bytes
  pub encode : Bytes → Bytes
  pub decode : Bytes → Option Bytes

-- The documented behaviour: a sum has 32 bytes, and what is encoded decodes.
pub record IsCrypto (c : Crypto) : Type 0 where
  pub mac_length : (s : Bytes) → length (c.mac s) ≡ 32
  pub decode_encode : (s : Bytes) → c.decode (c.encode s) ≡ some s

-- payload[:nul] at the first zero byte, if there is one
before_nul : Bytes → Option Bytes
before_nul [] = none
before_nul (b ∷ s) = elim (before_nul s) [
  | none ↦ if b == 0 then some [] else none
  | some t ↦ if b == 0 then some [] else some (b ∷ t)
]

-- nul <= 0 is refused.
non_empty : Option Bytes → Option Bytes
non_empty none = none
non_empty (some []) = none
non_empty (some (b ∷ s)) = some (b ∷ s)

module _ (c : Crypto) where
  abbrev pub tag : Bytes → Bytes
  tag payload = take 16 (c.mac payload)

  -- Sign; `none` is an error.
  unfoldable pub sign : Bytes → Option Bytes → Option Bytes
  sign [] drawn = none
  sign (b ∷ open_id) none = none
  sign (b ∷ open_id) (some nonce) =
      let payload = (b ∷ open_id) ++ 0 ∷ nonce in some (c.encode (payload ++ tag payload))

  accepted : Bytes → Bytes → Option Bytes
  unfolding before_nul non_empty
  accepted payload given = if beq given (tag payload) then non_empty (before_nul payload) else none

  verified : Option Bytes → Option Bytes
  unfolding accepted
  verified none = none
  verified (some raw) =
      if ltb (length raw) 33
      then none
      else accepted (take (length raw - 16) raw) (drop (length raw - 16) raw)

  -- Verify; `none` is ErrInvalidState.
  unfoldable pub verify : Bytes → Option Bytes
  unfolding verified
  verify state = verified (c.decode state)

-- No byte is zero, as in every open_id.
abbrev pub NoNul : Bytes → Type 0
NoNul s = All (λ b. b ≢ 0) s

before_nul_at : (s rest : Bytes) → NoNul s → before_nul (s ++ 0 ∷ rest) ≡ some s
unfolding before_nul
before_nul_at [] rest h = elim (Option-cases (before_nul rest)) [ inl e ↦ rw e | inr (t, e) ↦ rw e ]
before_nul_at (b ∷ s) rest h = rw (before_nul_at s rest h.1) (ground (arith, h.0))

module _ (c : Crypto) (laws : IsCrypto c) where
  length-tag : (payload : Bytes) → length (take 16 (c.mac payload)) ≡ 16
  length-tag payload = omega (arith, length-take 16 (c.mac payload), laws.mac_length payload)

  verified_tagged :
      (payload : Bytes)
      → 16 < length payload
      → verified c (some (payload ++ take 16 (c.mac payload))) ≡ non_empty (before_nul payload)
  unfolding verify
  verified_tagged payload long =
      let t = take 16 (c.mac payload) in
      let total : length (payload ++ t) - 16 ≡ length payload =
        omega (arith, length-append payload t, length-tag payload) in
      let enough : ltb (length (payload ++ t)) 33 ≡ false =
        le→ltb_false _ 33 (omega (arith, length-append payload t, length-tag payload)) in
      rw (
        enough,
        total,
        take-append_self (length payload) payload t refl,
        drop-append_self (length payload) payload t refl,
        beq_refl t,
      )

  -- With sums of 32 bytes and an encoding that decodes, what Sign returns for an open_id without a
  -- zero byte and a nonce of sixteen bytes, Verify answers with that open_id.
  pub verify-sign :
      (open_id nonce state : Bytes)
      → NoNul open_id
      → length nonce ≡ 16
      → sign c open_id (some nonce) ≡ some state
      → verify c state ≡ some open_id
  unfolding sign verify
  verify-sign [] nonce state h n e = cc
  verify-sign (b ∷ open_id) nonce state h n e =
      let payload = (b ∷ open_id) ++ 0 ∷ nonce in
      let same : c.encode (payload ++ take 16 (c.mac payload)) ≡ state = cc in
      ap (λ s. verified c (c.decode s)) (sym same)
      ∙ ap (verified c) (laws.decode_encode (payload ++ take 16 (c.mac payload)))
      ∙ verified_tagged payload (omega (arith, length-append open_id (0 ∷ nonce)))
      ∙ ap non_empty (before_nul_at (b ∷ open_id) nonce h)
