-- ===== src/Oauth/Store/Kept.antt =====
-- What Get of internal/oauth/store.go finds after a Save.
use ssh_bot.Base.{
  ℕ, ◌≤◌, ◌<◌, ◌≡◌, ◌≢◌, refl, sym, ap, ◌∙◌, Option, none, some, [], ◌∷◌, Bytes, length,
}
use ssh_bot.Oauth.Encryptor.{Aead, IsAead, seal, open_envelope, opened}
use ssh_bot.Oauth.Store.{
  Credential, CredRedis, CredCodec, seal_failed, redis_set, no_open_id, encode_failed, credential,
  no_credential, cred_key, reply_credential, get, expired, with_expiry, write, encode_then,
  save_named, save,
}
use ssh_bot.Session.Redis.{missing, value}

-- SET shows in the next GET. EXPIREAT leaves the value where the time is still to come, and deletes
-- the key where it has passed.
pub record IsCredRedis (redis : CredRedis) (now : ℕ) : Type 0 where
  pub set_get :
      (k raw : Bytes) (s : redis.State)
      → (redis.set k raw s).0 ≡ none
      → redis.get k (redis.set k raw s).1 ≡ value raw
  pub expire_keeps :
      (k : Bytes) (at : ℕ) (s : redis.State)
      → now < at
      → redis.get k (redis.expire_at k at s).1 ≡ redis.get k s
  pub expire_drops :
      (k : Bytes) (at : ℕ) (s : redis.State)
      → at ≤ now
      → (redis.expire_at k at s).0 ≡ none
      → redis.get k (redis.expire_at k at s).1 ≡ missing

-- The refresh token has no end, or one that is still to come.
abbrev pub IsLive : ℕ → Option ℕ → Type 0
IsLive now none = Unit
IsLive now (some at) = now < at

module _ (redis : CredRedis) (codec : CredCodec) (aead : Aead) (now : ℕ)
    (laws : IsCredRedis redis now) where
  state-expired : (r : Option Bytes × redis.State) → (expired redis codec aead r).1 ≡ r.1
  unfolding save
  state-expired (none, s) = refl
  state-expired (some e, s) = refl

  error-expired :
      (r : Option Bytes × redis.State) → (expired redis codec aead r).0 ≡ none → r.0 ≡ none
  unfolding save
  error-expired (none, s) h = refl
  error-expired (some e, s) h = cc

  with_expiry-live :
      (c : Credential) (at : Option ℕ) (s : redis.State)
      → IsLive now at
      → redis.get (cred_key c.open_id) (with_expiry redis codec aead c at s).1
        ≡ redis.get (cred_key c.open_id) s
  unfolding save
  with_expiry-live c none s live = refl
  with_expiry-live c (some at) s live =
      ap (redis.get (cred_key c.open_id))
        (state-expired (redis.expire_at (cred_key c.open_id) at s))
      ∙ laws.expire_keeps (cred_key c.open_id) at s live

  with_expiry-over :
      (c : Credential) (at : ℕ) (s : redis.State)
      → at ≤ now
      → (with_expiry redis codec aead c (some at) s).0 ≡ none
      → redis.get (cred_key c.open_id) (with_expiry redis codec aead c (some at) s).1 ≡ missing
  unfolding save
  with_expiry-over c at s over h =
      let r = redis.expire_at (cred_key c.open_id) at s in
      ap (redis.get (cred_key c.open_id)) (state-expired r)
      ∙ laws.expire_drops (cred_key c.open_id) at s over (error-expired r h)

  -- What a Save without an error has done: it has a key, an encoding and an envelope, which SET took.
  pub record Saved (drawn : Option Bytes) (c : Credential) (s : redis.State) : Type 0 where
    pub plaintext : Bytes
    pub envelope : Bytes
    pub encodes : codec.marshal c ≡ some plaintext
    pub seals : seal aead drawn plaintext ≡ some envelope
    pub sets : (redis.set (cred_key c.open_id) envelope s).0 ≡ none
    pub rest :
        save redis codec aead drawn c s
        ≡ with_expiry redis codec aead c c.refresh_expires_at
            (redis.set (cred_key c.open_id) envelope s).1
    pub named : c.open_id ≢ []

  write-Saved :
      (id : Bytes) (drawn : Option Bytes) (c : Credential) (s : redis.State) (o : Option Bytes)
      (plaintext : Bytes)
      → c.open_id ≡ id
      → id ≢ []
      → codec.marshal c ≡ some plaintext
      → seal aead drawn plaintext ≡ o
      → save redis codec aead drawn c s ≡ write redis codec aead c o s
      → (write redis codec aead c o s).0 ≡ none
      → Saved drawn c s
  unfolding save
  write-Saved id drawn c s none plaintext i ne e f same h = absurd (failed_seal h)
    where
      failed_seal : some seal_failed ≡ none → ⊥
      failed_seal x = cc
  write-Saved id drawn c s (some envelope) plaintext i ne e f same h =
      sent (redis.set (cred_key c.open_id) envelope s) refl
    where
      failed_set : (x : Bytes) → some (redis_set x) ≡ none → ⊥
      failed_set x h = cc

      sent :
          (r : Option Bytes × redis.State)
          → redis.set (cred_key c.open_id) envelope s ≡ r
          → Saved drawn c s
      sent (some x, s') r = absurd (failed_set x (rw r at h))
      sent (none, s') r = record {
        plaintext = plaintext;
        envelope = envelope;
        encodes = e;
        seals = f;
        sets = rw r;
        rest = same ∙ rw r;
        named = λ empty. ne (sym i ∙ empty);
      }

  encode-Saved :
      (id : Bytes) (drawn : Option Bytes) (c : Credential) (s : redis.State) (m : Option Bytes)
      → c.open_id ≡ id
      → id ≢ []
      → codec.marshal c ≡ m
      → save redis codec aead drawn c s ≡ encode_then redis codec aead drawn c m s
      → (encode_then redis codec aead drawn c m s).0 ≡ none
      → Saved drawn c s
  unfolding save
  encode-Saved id drawn c s none i ne e same h = absurd (failed_encoding h)
    where
      failed_encoding : some encode_failed ≡ none → ⊥
      failed_encoding x = cc
  encode-Saved id drawn c s (some pt) i ne e same h =
      write-Saved id drawn c s (seal aead drawn pt) pt i ne e refl same h

  named-Saved :
      (id : Bytes) (drawn : Option Bytes) (c : Credential) (s : redis.State)
      → c.open_id ≡ id
      → save redis codec aead drawn c s ≡ save_named redis codec aead id drawn c s
      → (save_named redis codec aead id drawn c s).0 ≡ none
      → Saved drawn c s
  unfolding save
  named-Saved [] drawn c s i same h = absurd (unnamed h)
    where
      unnamed : some no_open_id ≡ none → ⊥
      unnamed x = cc
  named-Saved (b ∷ id) drawn c s i same h =
      encode-Saved (b ∷ id) drawn c s (codec.marshal c) i (λ x. cc) refl same h

  pub save-Saved :
      (drawn : Option Bytes) (c : Credential) (s : redis.State)
      → (save redis codec aead drawn c s).0 ≡ none
      → Saved drawn c s
  unfolding save
  save-Saved drawn c s h = named-Saved c.open_id drawn c s refl refl h

  -- What Get makes of an envelope that opens to an encoded credential.
  reply_opened :
      (c : Credential) (pt envelope : Bytes)
      → open_envelope aead envelope ≡ some pt
      → codec.unmarshal pt ≡ some c
      → reply_credential redis codec aead (value envelope) ≡ credential c
  unfolding get
  reply_opened c pt envelope o u = rw (o, u)

  -- A credential whose refresh token has not ended is read back as it was by Get after a Save without
  -- an error: sealed and opened, encoded and decoded. The AEAD opens what it seals under a nonce of
  -- its size, and the codec reads this credential back.
  pub get_credential-save :
      (drawn : Option Bytes) (c : Credential) (s : redis.State)
      → IsAead aead
      → ((nonce : Bytes) → drawn ≡ some nonce → length nonce ≡ aead.nonce_size)
      → ((pt : Bytes) → codec.marshal c ≡ some pt → codec.unmarshal pt ≡ some c)
      → IsLive now c.refresh_expires_at
      → (save redis codec aead drawn c s).0 ≡ none
      → get redis codec aead c.open_id (save redis codec aead drawn c s).1 ≡ credential c
  get_credential-save drawn c s opens size reads live h =
      let w = save-Saved drawn c s h in
      let set_state = (redis.set (cred_key c.open_id) w.envelope s).1 in
      let kept : redis.get (cred_key c.open_id) (save redis codec aead drawn c s).1
          ≡ value w.envelope =
        ap (λ r. redis.get (cred_key c.open_id) (r.1)) w.rest
        ∙ with_expiry-live c c.refresh_expires_at set_state live
        ∙ laws.set_get (cred_key c.open_id) w.envelope s w.sets in
      unfold get in
      ap (reply_credential redis codec aead) kept
      ∙ reply_opened c w.plaintext w.envelope
          (opened aead drawn w.plaintext w.envelope opens size w.seals)
          (reads w.plaintext w.encodes)

  -- A credential whose refresh token has ended is gone after a Save without an error.
  pub get_credential-expired :
      (drawn : Option Bytes) (c : Credential) (s : redis.State) (at : ℕ)
      → c.refresh_expires_at ≡ some at
      → at ≤ now
      → (save redis codec aead drawn c s).0 ≡ none
      → get redis codec aead c.open_id (save redis codec aead drawn c s).1 ≡ no_credential
  get_credential-expired drawn c s at e over h =
      let w = save-Saved drawn c s h in
      let set_state = (redis.set (cred_key c.open_id) w.envelope s).1 in
      let same = w.rest ∙ ap (λ o. with_expiry redis codec aead c o set_state) e in
      let gone : redis.get (cred_key c.open_id) (save redis codec aead drawn c s).1 ≡ missing =
        ap (λ r. redis.get (cred_key c.open_id) (r.1)) same
        ∙ with_expiry-over c at set_state over (ap (λ r. r.0) (sym same) ∙ h) in
      unfold get in ap (reply_credential redis codec aead) gone
