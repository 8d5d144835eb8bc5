-- ===== src/Oauth/Endpoint.antt =====
-- What the token endpoint of Feishu answers, as internal/oauth/tokens.go and server.go read it.
use ssh_bot.Base.{ℕ, Bool, Bytes}

-- The struct `tok`. The lifetimes are numbers of seconds; a response with a negative one or code is not
-- covered, nor one of centuries, at which time.Duration overflows.
pub record TokenResponse : Type 0 where
  pub access_token : Bytes
  pub expires_in : ℕ
  pub refresh_token : Bytes
  pub refresh_token_expires_in : ℕ
  pub scope : Bytes
  pub code : ℕ
  pub error : Bytes

-- What client.Do ends with: an error, one of them a passed deadline, or a status and a body.
pub data HttpAnswer : Type 0 where
  timed_out : HttpAnswer
  unreachable : Bytes → HttpAnswer
  response : (status : ℕ) (body : Bytes) → HttpAnswer

-- json.Unmarshal into a zero `tok`: whether it reports no error, and what it has filled in.
abbrev pub Decoder : Type 0
Decoder = Bytes → Bool × TokenResponse
