-- ===== src/Oauth/Refresh/Outcomes.antt =====
-- How RefreshIfNeeded of internal/oauth/tokens.go can end.
use ssh_bot.Base.{
  ℕ, ◌<◌, ◌≡◌, ◌≢◌, refl, sym, ap, ◌∙◌, subst, arith, Bool-cases, inl, inr, Option, none, some, [],
  Bytes,
}
use ssh_bot.Oauth.Encryptor.{Aead}
use ssh_bot.Oauth.Endpoint.{TokenResponse, HttpAnswer, timed_out, unreachable, response, Decoder}
use ssh_bot.Oauth.Refresh.Effects.{
  Forgot, AsksAgain, Saved, forgotten-Forgot, started-AsksAgain, renew-Saved,
}
use ssh_bot.Oauth.Refresh.Judged.{
  IsFresh, IsStale, Rejects, rejects, Grants, grants, IsRenewal, IsRejecting, is_empty-nil,
  is_empty-cons, is_fresh-IsFresh, is_fresh-IsStale, updated-IsRenewal, IsRejecting-rejected,
  not_rejected, not_refused, refused_lem,
}
use ssh_bot.Oauth.Refresh.{
  RefreshError, endpoint_status, empty_access_token, request_failed, is_empty, is_fresh, is_refused,
  is_rejected, updated, Refresher, Refreshed, forgotten, after_response, after_request,
  refresh_if_needed,
}
use ssh_bot.Oauth.Store.{Credential, CredRedis, CredCodec}

module _ (redis : CredRedis) (codec : CredCodec) (aead : Aead) where
  -- The error, the credential and the store that a call leaves.
  pub data Outcome (r : Refresher redis codec aead) (decode : Decoder) (now : ℕ)
      (drawn : Option Bytes) (cred : Credential) (answer : HttpAnswer) (s : redis.State)
      (res : Refreshed redis codec aead) : Type 0 where
    -- as it is
    fresh :
        IsFresh now cred → res ≡ (none, some cred, s) → Outcome r decode now drawn cred answer s res
    -- nothing to refresh with: forgotten, and the user sent to authorize again
    no_token :
        (e : RefreshError) (s' : redis.State)
        → IsStale now cred
        → cred.refresh_token ≡ []
        → AsksAgain redis codec aead r cred.open_id e
        → Forgot redis codec aead r cred.open_id s s'
        → res ≡ (some e, none, s')
        → Outcome r decode now drawn cred answer s res
    -- rejected: the same, forgotten twice
    rejected :
        (e : RefreshError) (s' s'' : redis.State)
        → IsStale now cred
        → cred.refresh_token ≢ []
        → Rejects decode answer
        → AsksAgain redis codec aead r cred.open_id e
        → Forgot redis codec aead r cred.open_id s s'
        → Forgot redis codec aead r cred.open_id s' s''
        → res ≡ (some e, none, s'')
        → Outcome r decode now drawn cred answer s res
    -- neither granted nor rejected: an error, and what is stored stays
    unanswered :
        (e : RefreshError)
        → IsStale now cred
        → cred.refresh_token ≢ []
        → (Rejects decode answer → ⊥)
        → ((tok : TokenResponse) → Grants decode answer tok → ⊥)
        → res ≡ (some e, none, s)
        → Outcome r decode now drawn cred answer s res
    -- granted: renewed, and saved where there is a store
    renewed :
        (tok : TokenResponse) (new : Credential)
        → IsStale now cred
        → cred.refresh_token ≢ []
        → Grants decode answer tok
        → IsRenewal now tok cred new
        → Saved redis codec aead r drawn new s res
        → Outcome r decode now drawn cred answer s res

  module _ (r : Refresher redis codec aead) (decode : Decoder) (now : ℕ) (drawn : Option Bytes)
      (cred : Credential) (s : redis.State) where
    after_response-Outcome :
        (status : ℕ) (body : Bytes)
        → IsStale now cred
        → cred.refresh_token ≢ []
        → Outcome r decode now drawn cred
            (response status body)
            s
            (after_response redis codec aead r now drawn cred status (decode body).1 s)
    unfolding refresh_if_needed
    after_response-Outcome status body old token = elim (Bool-cases (is_refused status tok)) [
      | inl a ↦ elim (Bool-cases (is_rejected status tok)) [
        | inl b ↦
            rejected _ _ _ old token
              (rejects status body refl (IsRejecting-rejected status tok.code tok.error b))
              (started-AsksAgain redis codec aead r cred.open_id)
              (forgotten-Forgot redis codec aead r cred.open_id s)
              (forgotten-Forgot redis codec aead r cred.open_id
                (forgotten redis codec aead r cred.open_id s))
              (rw (a, b))
        | inr b ↦
            unanswered (endpoint_status status tok.code) old token
              (no_rejection (not_rejected status tok.code tok.error b))
              (no_grant (λ lt z e t. refused_lem status tok.code tok.error a lt z e)) (rw (a, b))
      ]
      | inr a ↦
          let (lt, z, e) = not_refused status tok.code tok.error a in
          elim (Bool-cases (is_empty tok.access_token)) [
            | inl b ↦
                unanswered empty_access_token old token (no_rejection (not_rejecting lt z e))
                  (no_grant (λ _ _ _ t. t (is_empty-nil tok.access_token b))) (rw (a, b))
            | inr b ↦
                rw (a, b)
                  (renewed tok (updated now tok cred) old token
                    (grants status body refl refl lt z e (is_empty-cons tok.access_token b))
                    (updated-IsRenewal now tok cred)
                    (renew-Saved redis codec aead r drawn (updated now tok cred) s))
          ]
    ]
      where
        tok : TokenResponse
        tok = (decode body).1

        not_rejecting :
            status < 400 → tok.code ≡ 0 → tok.error ≡ [] → IsRejecting status tok.code tok.error → ⊥
        not_rejecting lt z e (inl x) = omega (arith, lt, x.0)
        not_rejecting lt z e (inr (inl x)) = x z
        not_rejecting lt z e (inr (inr x)) = x e

        same_status : (st : ℕ) (b : Bytes) → response status body ≡ response st b → status ≡ st
        same_status st b e = cc

        same_tok : (st : ℕ) (b : Bytes) → response status body ≡ response st b → tok ≡ (decode b).1
        same_tok st b e = let same : body ≡ b = cc in ap (λ x. (decode x).1) same

        no_rejection :
            (IsRejecting status tok.code tok.error → ⊥) → Rejects decode (response status body) → ⊥
        no_rejection deny (rejects st b e x) = deny (
            subst (λ n. IsRejecting n tok.code tok.error) (sym (same_status st b e))
              (subst (λ (t : TokenResponse). IsRejecting st t.code t.error) (sym (same_tok st b e))
                x))

        no_grant :
            (status < 400 → tok.code ≡ 0 → tok.error ≡ [] → tok.access_token ≢ [] → ⊥)
            → (t : TokenResponse) → Grants decode (response status body) t
            → ⊥
        no_grant deny t (grants st b e is lt z x y) =
            let same : t ≡ tok = is ∙ sym (same_tok st b e) in
            deny (subst (λ n. n < 400) (sym (same_status st b e)) lt)
              (subst (λ (u : TokenResponse). u.code ≡ 0) same z)
              (subst (λ (u : TokenResponse). u.error ≡ []) same x)
              (subst (λ (u : TokenResponse). u.access_token ≢ []) same y)

    after_request-Outcome :
        (answer : HttpAnswer)
        → IsStale now cred
        → cred.refresh_token ≢ []
        → Outcome r decode now drawn cred answer s
            (after_request redis codec aead r decode now drawn cred answer s)
    unfolding refresh_if_needed
    after_request-Outcome timed_out old token =
        unanswered request_failed old token no_rejection no_grant refl
      where
        no_rejection : Rejects decode timed_out → ⊥
        no_rejection (rejects st b e x) = cc

        no_grant : (t : TokenResponse) → Grants decode timed_out t → ⊥
        no_grant t (grants st b e is lt z x y) = cc
    after_request-Outcome (unreachable m) old token =
        unanswered request_failed old token no_rejection no_grant refl
      where
        no_rejection : Rejects decode (unreachable m) → ⊥
        no_rejection (rejects st b e x) = cc

        no_grant : (t : TokenResponse) → Grants decode (unreachable m) t → ⊥
        no_grant t (grants st b e is lt z x y) = cc
    after_request-Outcome (response status body) old token =
        after_response-Outcome status body old token

    -- RefreshIfNeeded on all of its branches. A credential whose access token is good for more than 60
    -- seconds is returned as it is, and nothing is stored or deleted. One without a refresh token, or
    -- whose refresh token the endpoint rejects (a status from 400 to 499, a code or an error), is
    -- deleted where there are a store and a user, and the error asks to authorize again. A response
    -- below 400 without a code or an error and with an access token renews the credential: it gets
    -- the new access token and what else the response holds, keeps the rest, and is saved where there
    -- is a store, a failed Save being the error. Any other answer is an error and leaves what is
    -- stored.
    pub refresh_if_needed-Outcome :
        (answer : HttpAnswer)
        → Outcome r decode now drawn cred answer s
            (refresh_if_needed redis codec aead r decode now drawn cred answer s)
    unfolding refresh_if_needed
    refresh_if_needed-Outcome answer = elim (Bool-cases (is_fresh now cred.access_expires_at)) [
      | inl a ↦ fresh (is_fresh-IsFresh now cred a) (rw a)
      | inr a ↦
          let old = is_fresh-IsStale now cred a in
          elim (Bool-cases (is_empty cred.refresh_token)) [
            | inl b ↦
                no_token _ _ old (is_empty-nil cred.refresh_token b)
                  (started-AsksAgain redis codec aead r cred.open_id)
                  (forgotten-Forgot redis codec aead r cred.open_id s) (rw (a, b))
            | inr b ↦
                rw (a, b) (after_request-Outcome answer old (is_empty-cons cred.refresh_token b))
          ]
    ]
