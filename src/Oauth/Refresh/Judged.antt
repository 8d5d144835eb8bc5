-- ===== src/Oauth/Refresh/Judged.antt =====
-- What RefreshIfNeeded of internal/oauth/tokens.go makes of a credential's times and of an answer.
use ssh_bot.Base.{
  ℕ, ◌+◌, ◌≤◌, ◌<◌, ◌≡◌, ◌≢◌, refl, arith, ◌⊎◌, Bool, true, false, not, ◌&&◌, ◌||◌, Bool-cases,
  Option-cases, inl, inr, some, [], ◌∷◌, ◌==◌, ltb, leb, Bytes, fields,
}
use ssh_bot.Oauth.Endpoint.{TokenResponse, HttpAnswer, response, Decoder}
use ssh_bot.Oauth.Refresh.{is_empty, is_fresh, updated}
use ssh_bot.Oauth.Store.{Credential}

-- The access token is good for more than a minute.
abbrev pub IsFresh : ℕ → Credential → Type 0
IsFresh now cred = (at : ℕ) × (cred.access_expires_at ≡ some at) × (now + 60 < at)

abbrev pub IsStale : ℕ → Credential → Type 0
IsStale now cred = (at : ℕ) → cred.access_expires_at ≡ some at → at ≤ now + 60

-- A response under these says that the refresh token is not accepted.
abbrev pub IsRejecting : (status code : ℕ) → Bytes → Type 0
IsRejecting status code error = (400 ≤ status) × (status < 500) ⊎ (code ≢ 0) ⊎ (error ≢ [])

-- The endpoint has rejected the refresh token.
pub data Rejects (decode : Decoder) (answer : HttpAnswer) : Type 0 where
  rejects :
      (status : ℕ) (body : Bytes)
      → answer ≡ response status body
      → IsRejecting status (decode body).1.code (decode body).1.error
      → Rejects decode answer

-- The endpoint has granted a token: an answer below 400 without a code or an error.
pub data Grants (decode : Decoder) (answer : HttpAnswer) (tok : TokenResponse) : Type 0 where
  grants :
      (status : ℕ) (body : Bytes)
      → answer ≡ response status body
      → tok ≡ (decode body).1
      → status < 400
      → tok.code ≡ 0
      → tok.error ≡ []
      → tok.access_token ≢ []
      → Grants decode answer tok

-- The credential after a grant: the new access token, and what else the response brings.
pub record IsRenewal (now : ℕ) (tok : TokenResponse) (cred new : Credential) : Type 0 where
  pub same_user : new.open_id ≡ cred.open_id
  pub token : new.access_token ≡ tok.access_token
  pub expires : new.access_expires_at ≡ some (now + tok.expires_in)
  pub refresh :
      (tok.refresh_token ≡ []) × (new.refresh_token ≡ cred.refresh_token)
      ⊎ (tok.refresh_token ≢ []) × (new.refresh_token ≡ tok.refresh_token)
  pub refresh_expires :
      (tok.refresh_token_expires_in ≡ 0) × (new.refresh_expires_at ≡ cred.refresh_expires_at)
      ⊎ (0 < tok.refresh_token_expires_in)
        × (new.refresh_expires_at ≡ some (now + tok.refresh_token_expires_in))
  pub scope :
      (tok.scope ≡ []) × (new.scopes ≡ cred.scopes)
      ⊎ (tok.scope ≢ []) × (new.scopes ≡ fields tok.scope)
  pub same_grant : new.granted_at ≡ cred.granted_at

pub is_empty-nil : (s : Bytes) → is_empty s ≡ true → s ≡ []
is_empty-nil [] h = refl
is_empty-nil (c ∷ s) h = cc

pub is_empty-cons : (s : Bytes) → is_empty s ≡ false → s ≢ []
is_empty-cons [] h e = cc
is_empty-cons (c ∷ s) h e = cc

pub updated-IsRenewal :
    (now : ℕ) (tok : TokenResponse) (cred : Credential)
    → IsRenewal now tok cred (updated now tok cred)
unfolding updated
updated-IsRenewal now tok cred = record {
  same_user = refl;
  token = refl;
  expires = refl;
  refresh = elim (Bool-cases (is_empty tok.refresh_token)) [
    | inl e ↦ inl (is_empty-nil tok.refresh_token e, rw e)
    | inr e ↦ inr (is_empty-cons tok.refresh_token e, rw e)
  ];
  refresh_expires = elim (Bool-cases (ltb 0 tok.refresh_token_expires_in)) [
    | inl e ↦ inr (ground (arith, e), rw e)
    | inr e ↦ inl (ground (arith, e), rw e)
  ];
  scope = elim (Bool-cases (is_empty tok.scope)) [
    | inl e ↦ inl (is_empty-nil tok.scope e, rw e)
    | inr e ↦ inr (is_empty-cons tok.scope e, rw e)
  ];
  same_grant = refl;
}

-- The tests on a response.
abbrev rejected : (status code : ℕ) → Bytes → Bool
rejected status code error =
    leb 400 status && ltb status 500 || not (code == 0) || not (is_empty error)

abbrev refused : (status code : ℕ) → Bytes → Bool
refused status code error = leb 400 status || not (code == 0) || not (is_empty error)

pub IsRejecting-rejected :
    (status code : ℕ) (error : Bytes)
    → rejected status code error ≡ true
    → IsRejecting status code error
IsRejecting-rejected status code (c ∷ error) h = inr (inr (λ e. cc))
IsRejecting-rejected status code [] h = elim (Bool-cases (code == 0)) [
  | inl a ↦ inl (ground (arith, a, h))
  | inr a ↦ inr (inl (ground (arith, a)))
]

pub not_rejected :
    (status code : ℕ) (error : Bytes)
    → rejected status code error ≡ false
    → IsRejecting status code error
    → ⊥
not_rejected status code (c ∷ error) h r = ground (arith, h)
not_rejected status code [] h (inl r) = ground (arith, h, r)
not_rejected status code [] h (inr (inl r)) = ground (arith, h, r)
not_rejected status code [] h (inr (inr r)) = r refl

pub not_refused :
    (status code : ℕ) (error : Bytes)
    → refused status code error ≡ false
    → (status < 400) × (code ≡ 0) × (error ≡ [])
not_refused status code (c ∷ error) h = ground (arith, h)
not_refused status code [] h = (ground (arith, h), ground (arith, h), refl)

pub refused_lem :
    (status code : ℕ) (error : Bytes)
    → refused status code error ≡ true
    → status < 400
    → code ≡ 0
    → error ≡ []
    → ⊥
refused_lem status code (c ∷ error) h lt z e = cc
refused_lem status code [] h lt z e = ground (arith, h, lt, z)

pub is_fresh-IsFresh :
    (now : ℕ) (cred : Credential) → is_fresh now cred.access_expires_at ≡ true → IsFresh now cred
unfolding is_fresh
is_fresh-IsFresh now cred h = elim (Option-cases cred.access_expires_at) [
  | inl e ↦ absurd (clash (rw e at h))
  | inr (at, e) ↦ (at, e, ground (arith, rw e at h))
]
  where
    clash : false ≡ true → ⊥
    clash x = cc

pub is_fresh-IsStale :
    (now : ℕ) (cred : Credential) → is_fresh now cred.access_expires_at ≡ false → IsStale now cred
unfolding is_fresh
is_fresh-IsStale now cred h at e = ground (arith, rw e at h)
