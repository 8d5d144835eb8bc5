-- ===== src/Oauth/Callback/Lost.antt =====
-- The credential of a grant without a lifetime of its refresh token, in internal/oauth.
use ssh_bot.Base.{ℕ, ◌≡◌, sym, ap, subst, ◌∙◌, arith, inl, inr, Option, none, some, Bytes}
use ssh_bot.Oauth.Callback.Exchange.{asked, Grant}
use ssh_bot.Oauth.Callback.Gates.{Outcome, limited, invalid, refused, kept, handle_callback-Outcome}
use ssh_bot.Oauth.Callback.{Request, TokenRequest, World, Handled, handle_callback}
use ssh_bot.Oauth.Start.{Config}
use ssh_bot.Oauth.Encryptor.{Aead}
use ssh_bot.Oauth.Endpoint.{HttpAnswer, response, Decoder}
use ssh_bot.Oauth.Limiter.{Limits}
use ssh_bot.Oauth.State.{Crypto, verify}
use ssh_bot.Oauth.Store.Kept.{IsCredRedis, get_credential-expired}
use ssh_bot.Oauth.Store.{Credential, CredRedis, CredCodec, save, get, no_credential}

-- What the endpoint answers to this code says nothing of the lifetime of a refresh token.
abbrev pub IsUnsaid : Config → (TokenRequest → HttpAnswer) → Decoder → Bytes → Type 0
IsUnsaid cfg post decode code =
    (status : ℕ) (body : Bytes)
    → post (asked cfg code) ≡ response status body
    → (decode body).1.refresh_token_expires_in ≡ 0

expires-Grant :
    (cfg : Config) (post : TokenRequest → HttpAnswer) (decode : Decoder) (now : ℕ)
    (code open_id : Bytes) (cred : Credential)
    → IsUnsaid cfg post decode code
    → Grant cfg post decode now code open_id cred
    → (cred.open_id ≡ open_id) × (cred.refresh_expires_at ≡ some now)
expires-Grant cfg post decode now code open_id cred unsaid g = (
  ap (λ (c : Credential). c.open_id) g.cred_is,
  ap (λ (c : Credential). c.refresh_expires_at) g.cred_is
      ∙ ap (λ (n : ℕ). some n) (omega (arith, unsaid g.status g.body g.answers)),
)

module _ (redis : CredRedis) (codec : CredCodec) (aead : Aead) (crypto : Crypto) (limits : Limits)
    (cfg : Config) where
  module _ (post : TokenRequest → HttpAnswer) (decode : Decoder) (now : ℕ) (drawn : Option Bytes)
      (r : Request) (w : World redis codec aead crypto limits cfg) (open_id : Bytes)
      (laws : IsCredRedis redis now) (unsaid : IsUnsaid cfg post decode r.code) where
    forgotten_after :
        (cred : Credential) (stored : redis.State)
        → Grant cfg post decode now r.code open_id cred
        → stored ≡ (save redis codec aead drawn cred w.stored).1
        → (save redis codec aead drawn cred w.stored).0 ≡ none
        → get redis codec aead open_id stored ≡ no_credential
    forgotten_after cred stored g e saved =
        let (named, ends) = expires-Grant cfg post decode now r.code open_id cred unsaid g in
        ap (get redis codec aead open_id) e
        ∙ ap (λ id. get redis codec aead id (save redis codec aead drawn cred w.stored).1)
            (sym named)
        ∙ get_credential-expired redis codec aead now laws drawn cred w.stored now ends
            (omega arith) saved

    outcome_forgets :
        (res : Handled redis codec aead crypto limits cfg)
        → verify crypto r.state ≡ some open_id
        → res.0.status ≡ 200
        → Outcome redis codec aead crypto limits cfg post decode now drawn r w res
        → get redis codec aead open_id res.1.stored ≡ no_credential
    outcome_forgets res v h (limited a st b c) = absurd (omega (arith, st, h))
    outcome_forgets res v h (invalid a st b c) = absurd (omega (arith, st, h))
    outcome_forgets res v h (refused id a (inl (b, st)) c d) = absurd (omega (arith, st, h))
    outcome_forgets res v h (refused id a (inr (b, st)) c d) = absurd (omega (arith, st, h))
    outcome_forgets res v h (kept id cred a c v' g e (inr (st, d, told))) =
        absurd (omega (arith, st, h))
    outcome_forgets res v h (kept id cred a c v' g e (inl (st, saved, told))) =
        let same : id ≡ open_id = one_id (sym v' ∙ v) in
        forgotten_after cred res.1.stored
          (subst (λ i. Grant cfg post decode now r.code i cred) same g) e saved
      where
        one_id : {id : Bytes} → some id ≡ some open_id → id ≡ open_id
        one_id x = cc

-- Where the endpoint's response to the code of the callback carries no lifetime of the refresh token, a
-- callback that answers with the page of success leaves the user of the state without a credential:
-- it is stored to expire at once. Redis reads back what SET takes and deletes at an EXPIREAT that has
-- passed.
pub callback-forgets :
    (redis : CredRedis) (codec : CredCodec) (aead : Aead) (crypto : Crypto) (limits : Limits)
    (cfg : Config) (post : TokenRequest → HttpAnswer) (decode : Decoder) (now : ℕ)
    (drawn : Option Bytes) (r : Request) (w : World redis codec aead crypto limits cfg)
    (open_id : Bytes)
    → IsCredRedis redis now
    → IsUnsaid cfg post decode r.code
    → verify crypto r.state ≡ some open_id
    → (handle_callback redis codec aead crypto limits cfg post decode now drawn r w).0.status ≡ 200
    → get redis codec aead open_id
        (handle_callback redis codec aead crypto limits cfg post decode now drawn r w).1.stored
      ≡ no_credential
callback-forgets redis codec aead crypto limits cfg post decode now drawn r w open_id laws unsaid v
      h =
    outcome_forgets redis codec aead crypto limits cfg post decode now drawn r w open_id laws unsaid
      _ v h (handle_callback-Outcome redis codec aead crypto limits cfg post decode now drawn r w)
