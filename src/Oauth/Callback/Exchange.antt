-- ===== src/Oauth/Callback/Exchange.antt =====
-- How the exchange of a code in internal/oauth/server.go ends.
use ssh_bot.Base.{
  ℕ, ◌+◌, ◌<◌, ◌≡◌, ◌≢◌, refl, sym, ap, subst, ◌∙◌, arith, ◌⊎◌, Bool, true, false, not, ◌&&◌,
  Bool-cases, inl, inr, none, some, [], ◌∷◌, ◌==◌, leb, Bytes, utf8, fields,
}
use ssh_bot.Oauth.Callback.{
  TokenRequest, Exchanged, granted, upstream_timeout, exchange_failed, new_credential,
  exchanged_tok, exchanged, exchange, token_request,
}
use ssh_bot.Oauth.Start.{Config, is_empty, redirect_uri}
use ssh_bot.Oauth.Endpoint.{TokenResponse, HttpAnswer, timed_out, unreachable, response, Decoder}
use ssh_bot.Oauth.Store.{Credential}

-- What the endpoint is asked.
abbrev pub asked : Config → Bytes → TokenRequest
asked cfg code = record {
  grant_type = utf8 "authorization_code";
  client_id = cfg.app_id;
  client_secret = cfg.app_secret;
  code = code;
  redirect_uri = redirect_uri cfg;
}

-- A grant: the token endpoint, asked with this code in the name of the app, has answered below 400
-- with a body that decodes, reports no error and holds an access token; the credential is what the
-- response gives to this user.
pub record Grant (cfg : Config) (post : TokenRequest → HttpAnswer) (decode : Decoder) (now : ℕ)
    (code open_id : Bytes) (cred : Credential) : Type 0 where
  pub status : ℕ
  pub body : Bytes
  pub answers : post (asked cfg code) ≡ response status body
  pub succeeds : status < 400
  pub parses : (decode body).0 ≡ true
  pub no_error : (decode body).1.error ≡ []
  pub has_token : (decode body).1.access_token ≢ []
  pub cred_is : cred ≡ record {
    open_id = open_id;
    access_token = (decode body).1.access_token;
    refresh_token = (decode body).1.refresh_token;
    access_expires_at = some (now + (decode body).1.expires_in);
    refresh_expires_at = some (now + (decode body).1.refresh_token_expires_in);
    scopes = fields (decode body).1.scope;
    granted_at = some now;
    last_used_at = none;
  }

-- How an exchange ends on an answer: in time out, in a failure that is no grant, or in the credential.
data Read (decode : Decoder) (now : ℕ) (open_id : Bytes) (answer : HttpAnswer)
    : Exchanged → Type 0 where
  late : answer ≡ timed_out → Read decode now open_id answer upstream_timeout
  broke :
      answer ≢ timed_out
      → ((status : ℕ) (body : Bytes)
          → answer ≡ response status body
          → status < 400
          → (decode body).0 ≡ true
          → (decode body).1.error ≡ []
          → (decode body).1.access_token ≢ []
          → ⊥)
      → Read decode now open_id answer exchange_failed
  gave :
      (status : ℕ) (body : Bytes)
      → answer ≡ response status body
      → status < 400
      → (decode body).0 ≡ true
      → (decode body).1.error ≡ []
      → (decode body).1.access_token ≢ []
      → Read decode now open_id answer (granted (new_credential now open_id (decode body).1))

is_empty-nil : (s : Bytes) → is_empty s ≡ true → s ≡ []
is_empty-nil [] h = refl
is_empty-nil (c ∷ s) h = cc

is_empty-cons : (s : Bytes) → is_empty s ≡ false → s ≢ []
is_empty-cons [] h e = cc
is_empty-cons (c ∷ s) h e = cc

not_empty-nil : (s : Bytes) → not (is_empty s) ≡ false → s ≡ []
not_empty-nil [] h = refl
not_empty-nil (c ∷ s) h = cc

not_empty-cons : (s : Bytes) → not (is_empty s) ≡ true → s ≢ []
not_empty-cons [] h e = cc
not_empty-cons (c ∷ s) h e = cc

module _ (decode : Decoder) (now : ℕ) (open_id : Bytes) where
  abbrev answer_body : HttpAnswer → Bytes
  answer_body timed_out = []
  answer_body (unreachable e) = []
  answer_body (response status body) = body

  abbrev answer_status : HttpAnswer → ℕ
  answer_status timed_out = 0
  answer_status (unreachable e) = 0
  answer_status (response status body) = status

  -- A response that fails one of the tests is no grant.
  broke_at :
      (status : ℕ) (body : Bytes)
      → (status < 400
          → (decode body).0 ≡ true
          → (decode body).1.error ≡ []
          → (decode body).1.access_token ≢ []
          → ⊥)
      → Read decode now open_id (response status body) exchange_failed
  broke_at status body deny =
      broke (λ e. cc)
        (λ st b e lt p n t.
          let same_body : body ≡ b = ap answer_body e in
          deny (subst (λ x. x < 400) (sym (ap answer_status e)) lt)
            (subst (λ x. (decode x).0 ≡ true) (sym same_body) p)
            (subst (λ x. (decode x).1.error ≡ []) (sym same_body) n)
            (subst (λ x. (decode x).1.access_token ≢ []) (sym same_body) t))

  exchanged_tok-Read :
      (status : ℕ) (body : Bytes) (p : Bool × TokenResponse)
      → status < 400
      → decode body ≡ p
      → Read decode now open_id (response status body) (exchanged_tok now open_id p)
  unfolding exchange
  exchanged_tok-Read status body (false, tok) lt e =
      broke_at status body (λ _ p n t. absurd (clash (sym (ap (λ x. x.0) e) ∙ p)))
    where
      clash : false ≡ true → ⊥
      clash x = cc
  exchanged_tok-Read status body (true, tok) lt e =
      let tok_is : (decode body).1 ≡ tok = ap (λ x. x.1) e in
      let no_token : is_empty tok.access_token ≡ true → (decode body).1.access_token ≢ [] → ⊥ =
        λ h t.
          t (ap (λ (x : TokenResponse). x.access_token) tok_is ∙ is_empty-nil tok.access_token h) in
      elim (Bool-cases (is_empty tok.access_token)) [
        | inl d ↦ elim (Bool-cases (not (tok.code == 0))) [
          | inl a ↦ rw (d, a) (broke_at status body (λ _ p n t. no_token d t))
          | inr a ↦ elim (Bool-cases (not (is_empty tok.error))) [
            | inl b ↦ rw (d, a, b) (broke_at status body (λ _ p n t. no_token d t))
            | inr b ↦ rw (d, a, b) (broke_at status body (λ _ p n t. no_token d t))
          ]
        ]
        | inr d ↦ by_error d (Bool-cases (not (is_empty tok.error)))
      ]
    where
      shut : (not (tok.code == 0) && false) ≡ false
      shut = elim (Bool-cases (not (tok.code == 0))) [ inl e ↦ rw e | inr e ↦ rw e ]

      by_error :
          is_empty tok.access_token ≡ false
          → (not (is_empty tok.error) ≡ true) ⊎ (not (is_empty tok.error) ≡ false)
          → Read decode now open_id (response status body) (exchanged_tok now open_id (true, tok))
      by_error d (inl b) =
          rw (d, shut, b)
            (broke_at status body (λ _ p n t.
              not_empty-cons tok.error b
                (sym (ap (λ (x : TokenResponse). x.error) (ap (λ x. x.1) e)) ∙ n)))
      by_error d (inr b) =
          let tok_is : (decode body).1 ≡ tok = ap (λ x. x.1) e in
          rw (d, shut, b)
            (subst
              (λ x.
                Read decode now open_id (response status body)
                  (granted (new_credential now open_id x)))
              tok_is
              (gave status body refl lt (ap (λ x. x.0) e)
                (ap (λ (x : TokenResponse). x.error) tok_is ∙ not_empty-nil tok.error b)
                (λ z.
                  is_empty-cons tok.access_token d
                    (sym (ap (λ (x : TokenResponse). x.access_token) tok_is) ∙ z))))

  exchanged-Read :
      (answer : HttpAnswer) → Read decode now open_id answer (exchanged decode now open_id answer)
  unfolding exchange
  exchanged-Read timed_out = late refl
  exchanged-Read (unreachable e) = broke (λ x. cc) (λ st b x lt p n t. cc)
  exchanged-Read (response status body) = elim (Bool-cases (leb 400 status)) [
    | inl a ↦ rw a (broke_at status body (λ lt p n t. ground (arith, a, lt)))
    | inr a ↦ rw a (exchanged_tok-Read status body (decode body) (ground (arith, a)) refl)
  ]

-- How the exchange of a code ends: on a time out, else with the credential of a grant, or without one
-- where there is no grant.
pub data Ended (cfg : Config) (post : TokenRequest → HttpAnswer) (decode : Decoder) (now : ℕ)
    (code open_id : Bytes) : Exchanged → Type 0 where
  ended_late :
      post (asked cfg code) ≡ timed_out → Ended cfg post decode now code open_id upstream_timeout
  ended_broke :
      post (asked cfg code) ≢ timed_out
      → ((cred : Credential) → Grant cfg post decode now code open_id cred → ⊥)
      → Ended cfg post decode now code open_id exchange_failed
  ended_granted :
      (cred : Credential)
      → Grant cfg post decode now code open_id cred
      → Ended cfg post decode now code open_id (granted cred)

Read-Ended :
    (cfg : Config) (post : TokenRequest → HttpAnswer) (decode : Decoder) (now : ℕ)
    (code open_id : Bytes) (e : Exchanged)
    → Read decode now open_id (post (asked cfg code)) e
    → Ended cfg post decode now code open_id e
unfolding exchange
Read-Ended cfg post decode now code open_id e (late x) = ended_late x
Read-Ended cfg post decode now code open_id e (broke other deny) =
    ended_broke other
      (λ cred g. deny g.status g.body g.answers g.succeeds g.parses g.no_error g.has_token)
Read-Ended cfg post decode now code open_id e (gave status body x lt p n t) =
    ended_granted (new_credential now open_id (decode body).1) (record {
      status = status;
      body = body;
      answers = x;
      succeeds = lt;
      parses = p;
      no_error = n;
      has_token = t;
      cred_is = refl;
    })

pub exchange-Ended :
    (cfg : Config) (post : TokenRequest → HttpAnswer) (decode : Decoder) (now : ℕ)
    (code open_id : Bytes)
    → Ended cfg post decode now code open_id (exchange cfg post decode now code open_id)
unfolding exchange token_request
exchange-Ended cfg post decode now code open_id =
    Read-Ended cfg post decode now code open_id _
      (exchanged-Read decode now open_id (post (asked cfg code)))
