-- ===== src/Tests/OauthFlowRuns.antt =====
-- The flow of internal/oauth at concrete inputs: a Redis at time 5 as an association list, an AEAD
-- whose nonces are one byte, and a codec for credentials of one shape.
use ssh_bot.Base.{
  ℕ, ◌≤◌, ◌<◌, ◌≡◌, refl, ap, sym, subst, arith, true, false, leb, le→leb, Option, none, some, [],
  ◌∷◌, ◌++◌, if◌then◌else◌, Bytes, utf8, beq, beq_iff, fields, length, Assoc, lookup, insert,
  remove, lookup-insert, lookup-remove,
}
use ssh_bot.Oauth.Callback.Gates
use ssh_bot.Oauth.Callback.Gates.{handle_callback-Outcome}
use ssh_bot.Oauth.Callback.Lost.{IsUnsaid, callback-forgets}
use ssh_bot.Oauth.Callback.{Request, TokenRequest, World, exchange, handle_callback}
use ssh_bot.Oauth.Start.{Config}
use ssh_bot.Oauth.Encryptor.{Aead, IsAead, seal}
use ssh_bot.Oauth.Endpoint.{TokenResponse, HttpAnswer, response, Decoder}
use ssh_bot.Oauth.Limiter.{Limits, allow}
use ssh_bot.Oauth.Refresh.Outcomes
use ssh_bot.Oauth.Refresh.Outcomes.{refresh_if_needed-Outcome}
use ssh_bot.Oauth.Refresh.{Refresher, refresh_if_needed}
use ssh_bot.Oauth.State.{Crypto, IsCrypto, verify, tag}
use ssh_bot.Oauth.Store.Kept.{IsCredRedis, get_credential-save}
use ssh_bot.Oauth.Store.{Credential, CredRedis, CredCodec, save, get, credential, no_credential}
use ssh_bot.Session.Redis.{Reply, missing, value}
use ssh_bot.Tests.{repeat, length-repeat}

abbrev reply : Option Bytes → Reply
reply none = missing
reply (some raw) = value raw

abbrev cred_redis : CredRedis
cred_redis = record {
  State = Assoc Bytes;
  get = λ k s. reply (lookup k s);
  set = λ k raw s. (none, insert k raw s);
  expire_at = λ k at s. (none, if leb at 5 then remove k s else s);
  del = λ k s. remove k s;
}

cred_set_get :
    (k raw : Bytes) (s : Assoc Bytes) → cred_redis.get k (cred_redis.set k raw s).1 ≡ value raw
cred_set_get k raw s = rw (lookup-insert k k raw s, (beq_iff k k).1 refl)

cred_keeps :
    (k : Bytes) (at : ℕ) (s : Assoc Bytes)
    → 5 < at
    → cred_redis.get k (cred_redis.expire_at k at s).1 ≡ cred_redis.get k s
cred_keeps k at s h = rw late
  where
    late : leb at 5 ≡ false
    late = ground (arith, h)

cred_drops :
    (k : Bytes) (at : ℕ) (s : Assoc Bytes)
    → at ≤ 5
    → cred_redis.get k (cred_redis.expire_at k at s).1 ≡ missing
cred_drops k at s h = rw (le→leb at 5 h, lookup-remove k k s, (beq_iff k k).1 refl)

cred_redis-IsCredRedis : IsCredRedis cred_redis 5
cred_redis-IsCredRedis = record {
  set_get = λ k raw s h. cred_set_get k raw s;
  expire_keeps = λ k at s h. cred_keeps k at s h;
  expire_drops = λ k at s h same. cred_drops k at s h;
}

abbrev cred_of : Bytes → Credential
cred_of id = record {
  open_id = id;
  access_token = b'o' ∷ [];
  refresh_token = b'r' ∷ [];
  access_expires_at = some 9;
  refresh_expires_at = some 90;
  scopes = [];
  granted_at = some 5;
  last_used_at = none;
}

abbrev cred_codec : CredCodec
cred_codec = record { marshal = λ c. some c.open_id; unmarshal = λ raw. some (cred_of raw) }

abbrev open_aead : Aead
open_aead = record { nonce_size = 1; seal = λ n p. p; open_sealed = λ n p. some p }

open_aead-IsAead : IsAead open_aead
open_aead-IsAead n p = refl

abbrev user_id : Bytes
user_id = b'o' ∷ b'u' ∷ []

abbrev one_byte : Option Bytes
one_byte = some (7 ∷ [])

one_byte_sized : (drawn : Bytes) → one_byte ≡ some drawn → length drawn ≡ 1
one_byte_sized drawn e = ap sized (sym e)
  where
    sized : Option Bytes → ℕ
    sized none = 1
    sized (some s) = length s

cred_read :
    (pt : Bytes)
    → cred_codec.marshal (cred_of user_id) ≡ some pt
    → cred_codec.unmarshal pt ≡ some (cred_of user_id)
cred_read pt e = let same : user_id ≡ pt = cc in ap (λ s. some (cred_of s)) (sym same)

saved_without_error : (save cred_redis cred_codec open_aead one_byte (cred_of user_id) []).0 ≡ none
unfolding save seal
saved_without_error = refl

get_credential-save_example :
    get cred_redis cred_codec open_aead user_id
      (save cred_redis cred_codec open_aead one_byte (cred_of user_id) []).1
    ≡ credential (cred_of user_id)
get_credential-save_example =
    get_credential-save cred_redis cred_codec open_aead 5 cred_redis-IsCredRedis one_byte
      (cred_of user_id) [] open_aead-IsAead one_byte_sized cred_read (omega arith)
      saved_without_error

abbrev brief : TokenResponse
brief = record {
  access_token = b'n' ∷ [];
  expires_in = 7200;
  refresh_token = b'm' ∷ [];
  refresh_token_expires_in = 0;
  scope = [];
  code = 0;
  error = [];
}

abbrev always_brief : Decoder
always_brief = λ body. (true, brief)

-- An empty body decodes to that response, any other fails to decode under a lifetime of a day.
abbrev brief_or_broken : Decoder
brief_or_broken = λ body.
    if beq body []
    then (true, brief)
    else (false, record brief { refresh_token_expires_in = 86400 })

abbrev plain_refresher : Refresher cred_redis cred_codec open_aead
plain_refresher = record { has_store = true; start_url = none }

refresh_if_needed-Outcome_example :
    Outcomes.Outcome cred_redis cred_codec open_aead plain_refresher always_brief 5 one_byte
      (cred_of user_id)
      (response 200 [])
      []
      (refresh_if_needed cred_redis cred_codec open_aead plain_refresher always_brief 5 one_byte
        (cred_of user_id)
        (response 200 [])
        [])
refresh_if_needed-Outcome_example =
    refresh_if_needed-Outcome cred_redis cred_codec open_aead plain_refresher always_brief 5
      one_byte (cred_of user_id) [] (response 200 [])

abbrev same_sum : Crypto
same_sum = record { mac = λ s. repeat 32; encode = λ s. s; decode = λ s. some s }

same_sum-IsCrypto : IsCrypto same_sum
same_sum-IsCrypto = record { mac_length = λ s. length-repeat 32; decode_encode = λ s. refl }

abbrev state_text : Bytes
state_text = let payload = user_id ++ 0 ∷ repeat 16 in payload ++ tag same_sum payload

abbrev limits : Limits
limits = record { burst = 1; window = 60; scan_interval = 300 }

abbrev site : Config
site = record {
  public_base_url = utf8 "https://bot";
  app_id = utf8 "app";
  app_secret = utf8 "secret";
  scopes = [];
  has_notifier = true;
}

abbrev posted : TokenRequest → HttpAnswer
posted = λ req. response 200 []

abbrev back : Request
back = record {
  forwarded_for = [];
  split_host = some (49 ∷ []);
  remote_addr = [];
  code = b'c' ∷ [];
  state = state_text;
}

abbrev new_world : World cred_redis cred_codec open_aead same_sum limits site
new_world = record { limiter = record { by_ip = []; last_scan = 0 }; stored = []; notified = [] }

handle_callback-Outcome_example :
    Gates.Outcome cred_redis cred_codec open_aead same_sum limits site posted brief_or_broken 5
      one_byte back new_world
      (handle_callback cred_redis cred_codec open_aead same_sum limits site posted brief_or_broken 5
        one_byte back new_world)
handle_callback-Outcome_example =
    handle_callback-Outcome cred_redis cred_codec open_aead same_sum limits site posted
      brief_or_broken 5 one_byte back new_world

verified_back : verify same_sum back.state ≡ some user_id
unfolding verify beq
verified_back = refl

succeeded :
    (handle_callback cred_redis cred_codec open_aead same_sum limits site posted brief_or_broken 5
      one_byte back new_world).0.status
    ≡ 200
unfolding handle_callback verify allow exchange save seal lookup insert beq utf8 fields
succeeded = refl

posted-IsUnsaid : IsUnsaid site posted brief_or_broken (b'c' ∷ [])
unfolding beq
posted-IsUnsaid status body e =
    subst (λ s. (brief_or_broken s).1.refresh_token_expires_in ≡ 0) empty refl
  where
    empty : [] ≡ body
    empty = cc

callback-forgets_example :
    get cred_redis cred_codec open_aead user_id
      (handle_callback cred_redis cred_codec open_aead same_sum limits site posted brief_or_broken 5
        one_byte back new_world).1.stored
    ≡ no_credential
callback-forgets_example =
    callback-forgets cred_redis cred_codec open_aead same_sum limits site posted brief_or_broken 5
      one_byte back new_world user_id cred_redis-IsCredRedis posted-IsUnsaid verified_back succeeded
