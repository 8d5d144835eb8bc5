-- ===== src/Oauth/Callback/Gates.antt =====
-- When the callback of internal/oauth/server.go stores a credential, and whose.
use ssh_bot.Base.{
  ℕ, ◌≡◌, ◌≢◌, refl, ◌⊎◌, Bool, true, false, ◌||◌, Bool-cases, inl, inr, Option, none, some, [],
  ◌∷◌, ◌++◌, if◌then◌else◌, Bytes, utf8,
}
use ssh_bot.Oauth.Callback.Exchange.{
  asked, Grant, Ended, ended_late, ended_broke, ended_granted, exchange-Ended,
}
use ssh_bot.Oauth.Callback.{
  Request, TokenRequest, Exchanged, World, Handled, notify, after_save, after_exchange,
  after_verify, admitted, handle_callback, client_ip,
}
use ssh_bot.Oauth.Start.{Config, is_empty}
use ssh_bot.Oauth.Encryptor.{Aead}
use ssh_bot.Oauth.Endpoint.{HttpAnswer, timed_out, Decoder}
use ssh_bot.Oauth.Limiter.{Limits, CallbackLimiter, allow}
use ssh_bot.Oauth.State.{Crypto, verify}
use ssh_bot.Oauth.Store.{Credential, CredRedis, CredCodec, StoreError, save}

module _ (redis : CredRedis) (codec : CredCodec) (aead : Aead) (crypto : Crypto) (limits : Limits)
    (cfg : Config) where
  abbrev Worlds : Type 0
  Worlds = World redis codec aead crypto limits cfg

  -- What a request leaves: the status, and the stored credentials with the messages sent.
  pub data Outcome (post : TokenRequest → HttpAnswer) (decode : Decoder) (now : ℕ)
      (drawn : Option Bytes) (r : Request) (w : World redis codec aead crypto limits cfg)
      (res : Handled redis codec aead crypto limits cfg) : Type 0 where
    -- too many requests from this address
    limited :
        (allow limits now (client_ip r) w.limiter).0 ≡ false
        → res.0.status ≡ 429
        → res.1.stored ≡ w.stored
        → res.1.notified ≡ w.notified
        → Outcome post decode now drawn r w res
    -- a missing parameter, or a state that Verify does not accept
    invalid :
        (is_empty r.code || is_empty r.state ≡ true) ⊎ (verify crypto r.state ≡ none)
        → res.0.status ≡ 400
        → res.1.stored ≡ w.stored
        → res.1.notified ≡ w.notified
        → Outcome post decode now drawn r w res
    -- nothing granted: no answer in time, or one that grants nothing
    refused :
        (open_id : Bytes)
        → verify crypto r.state ≡ some open_id
        → (post (asked cfg r.code) ≡ timed_out) × (res.0.status ≡ 504)
          ⊎ ((cred : Credential) → Grant cfg post decode now r.code open_id cred → ⊥)
            × (res.0.status ≡ 400)
        → res.1.stored ≡ w.stored
        → res.1.notified ≡ w.notified
        → Outcome post decode now drawn r w res
    -- granted to the user whom the state names, and the credential handed to Save
    kept :
        (open_id : Bytes) (cred : Credential)
        → (allow limits now (client_ip r) w.limiter).0 ≡ true
        → r.code ≢ []
        → verify crypto r.state ≡ some open_id
        → Grant cfg post decode now r.code open_id cred
        → res.1.stored ≡ (save redis codec aead drawn cred w.stored).1
        → (res.0.status ≡ 200)
            × ((save redis codec aead drawn cred w.stored).0 ≡ none)
            × (res.1.notified ≡ (
                if cfg.has_notifier
                then w.notified ++ (open_id, utf8 "✅ 授权成功，请回到飞书继续提问。") ∷ []
                else w.notified))
          ⊎ (res.0.status ≡ 500)
            × ((save redis codec aead drawn cred w.stored).0 ≢ none)
            × (res.1.notified ≡ w.notified)
        → Outcome post decode now drawn r w res

  module _ (post : TokenRequest → HttpAnswer) (decode : Decoder) (now : ℕ) (drawn : Option Bytes)
      (r : Request) where
    stored-notify :
        (open_id : Bytes) (w : World redis codec aead crypto limits cfg)
        → (notify redis codec aead crypto limits cfg open_id w).stored ≡ w.stored
    unfolding handle_callback
    stored-notify open_id w = elim (Bool-cases cfg.has_notifier) [ inl e ↦ rw e | inr e ↦ rw e ]

    notified-notify :
        (open_id : Bytes) (w : World redis codec aead crypto limits cfg)
        → (notify redis codec aead crypto limits cfg open_id w).notified ≡ (
            if cfg.has_notifier
            then w.notified ++ (open_id, utf8 "✅ 授权成功，请回到飞书继续提问。") ∷ []
            else w.notified)
    unfolding handle_callback
    notified-notify open_id w = elim (Bool-cases cfg.has_notifier) [ inl e ↦ rw e | inr e ↦ rw e ]

    after_save-lem :
        (open_id : Bytes) (w : World redis codec aead crypto limits cfg)
        (o : Option StoreError × redis.State)
        → let res = after_save redis codec aead crypto limits cfg open_id w o in
          (res.1.stored ≡ o.1)
          × ((res.0.status ≡ 200)
                × (o.0 ≡ none)
                × (res.1.notified ≡ (
                    if cfg.has_notifier
                    then w.notified ++ (open_id, utf8 "✅ 授权成功，请回到飞书继续提问。") ∷ []
                    else w.notified))
              ⊎ (res.0.status ≡ 500) × (o.0 ≢ none) × (res.1.notified ≡ w.notified))
    unfolding handle_callback
    after_save-lem open_id w (some e, s) = (refl, inr (refl, (λ x. cc), refl))
    after_save-lem open_id w (none, s) =
        let w' = record w { stored = s } in
        (stored-notify open_id w', inl (refl, refl, notified-notify open_id w'))

    after_exchange-Outcome :
        (w : World redis codec aead crypto limits cfg) (l : CallbackLimiter) (open_id : Bytes)
        (e : Exchanged)
        → (allow limits now (client_ip r) w.limiter).0 ≡ true
        → r.code ≢ []
        → verify crypto r.state ≡ some open_id
        → Ended cfg post decode now r.code open_id e
        → Outcome post decode now drawn r w (
            after_exchange redis codec aead crypto limits cfg drawn open_id
              (record w { limiter = l })
              e)
    unfolding handle_callback
    after_exchange-Outcome w l open_id e a c v (ended_late x) =
        refused open_id v (inl (x, refl)) refl refl
    after_exchange-Outcome w l open_id e a c v (ended_broke other deny) =
        refused open_id v (inr (deny, refl)) refl refl
    after_exchange-Outcome w l open_id e a c v (ended_granted cred g) =
        let end =
          after_save-lem open_id (record w { limiter = l })
            (save redis codec aead drawn cred w.stored) in
        kept open_id cred a c v g end.0 end.1

    after_verify-Outcome :
        (w : World redis codec aead crypto limits cfg) (l : CallbackLimiter) (v : Option Bytes)
        → (allow limits now (client_ip r) w.limiter).0 ≡ true
        → r.code ≢ []
        → verify crypto r.state ≡ v
        → Outcome post decode now drawn r w (
            after_verify redis codec aead crypto limits cfg post decode now drawn r
              (record w { limiter = l })
              v)
    unfolding handle_callback
    after_verify-Outcome w l none a c v = invalid (inr v) refl refl refl
    after_verify-Outcome w l (some open_id) a c v =
        after_exchange-Outcome w l open_id _ a c v
          (exchange-Ended cfg post decode now r.code open_id)

    has_code : (code : Bytes) → is_empty code || is_empty r.state ≡ false → code ≢ []
    has_code [] h e = cc
    has_code (c ∷ code) h e = cc

    admitted-Outcome :
        (w : World redis codec aead crypto limits cfg) (p : Bool × CallbackLimiter)
        → allow limits now (client_ip r) w.limiter ≡ p
        → Outcome post decode now drawn r w
            (admitted redis codec aead crypto limits cfg post decode now drawn r p w)
    unfolding handle_callback
    admitted-Outcome w (false, l) e = limited (rw e) refl refl refl
    admitted-Outcome w (true, l) e = elim (Bool-cases (is_empty r.code || is_empty r.state)) [
      | inl b ↦ invalid (inl b) (rw b) (rw b) (rw b)
      | inr b ↦
          rw b (after_verify-Outcome w l (verify crypto r.state) (rw e) (has_code r.code b) refl)
    ]

    -- The callback on all of its branches. A credential is stored only for a request that the limiter
    -- admits, with a code and a state that Verify accepts, after the token endpoint, asked with that
    -- code in the name of the app, has answered below 400 with a body that decodes, reports no error
    -- and holds an access token; it is the credential of that response for the user whom the state
    -- names. Everyone else gets a refusal, 504 only where the endpoint timed out, and what is stored
    -- and sent stays. The page of success is shown exactly if the Save reports no error, and only then
    -- the user is notified, if there is a notifier.
    pub handle_callback-Outcome :
        (w : World redis codec aead crypto limits cfg)
        → Outcome post decode now drawn r w
            (handle_callback redis codec aead crypto limits cfg post decode now drawn r w)
    unfolding handle_callback
    handle_callback-Outcome w = admitted-Outcome w (allow limits now (client_ip r) w.limiter) refl
