-- ===== src/Tests/DocsRuns.antt =====
-- The tools of internal/tool/builtin/feishu_doc.go at concrete inputs: a Redis that holds one
-- credential under every key, and an SDK that answers with the token it was asked under.
use ssh_bot.Base.{true, none, some, [], ◌∷◌, All, Bytes, utf8}
use ssh_bot.Builtin.Docs.Calls.Gate.{IsEntitled, access-IsEntitled}
use ssh_bot.Builtin.Docs.Calls.{Parsers, Config, Moment, read, search}
use ssh_bot.Builtin.Docs.{Lark, data_of}
use ssh_bot.Oauth.Encryptor.{Aead}
use ssh_bot.Oauth.Endpoint.{timed_out, TokenResponse}
use ssh_bot.Oauth.Store.{Credential, CredRedis, CredCodec}
use ssh_bot.Session.Redis.{value}

abbrev caller_id : Bytes
caller_id = b'o' ∷ b'u' ∷ []

abbrev fresh_credential : Credential
fresh_credential = record {
  open_id = caller_id;
  access_token = b't' ∷ [];
  refresh_token = [];
  access_expires_at = some 9000;
  refresh_expires_at = none;
  scopes = [];
  granted_at = none;
  last_used_at = none;
}

abbrev one_value : CredRedis
one_value = record {
  State = Bytes;
  get = λ k s. value s;
  set = λ k raw s. (none, raw);
  expire_at = λ k at s. (none, s);
  del = λ k s. s;
}

abbrev one_codec : CredCodec
one_codec = record { marshal = λ c. some c.open_id; unmarshal = λ raw. some fresh_credential }

abbrev clear_aead : Aead
clear_aead = record { nonce_size = 0; seal = λ n p. p; open_sealed = λ n p. some p }

abbrev echo : Lark
echo = record {
  raw_content = λ access doc. data_of (some access);
  document_title = λ access doc. data_of none;
  markdown_content = λ access doc. data_of (some access);
  search_nodes = λ access query. data_of [];
}

abbrev parsers : Parsers
parsers = record {
  read_args = λ args. some ([], utf8 "doxcn1");
  search_args = λ args. some args;
  url_path = λ raw. none;
}

abbrev config : Config one_value one_codec clear_aead
config = record {
  refresher = some (record { has_store = true; start_url = none });
  start_url = none;
  client = some echo;
}

abbrev no_response : TokenResponse
no_response = record {
  access_token = [];
  expires_in = 0;
  refresh_token = [];
  refresh_token_expires_in = 0;
  scope = [];
  code = 0;
  error = [];
}

abbrev moment : Moment one_value one_codec clear_aead
moment = record {
  now = 5;
  refresh_drawn = some [];
  save_drawn = some [];
  decode = λ body. (true, no_response);
  answer = timed_out;
}

access-IsEntitled_example :
    All
      (IsEntitled one_value one_codec clear_aead config moment caller_id (utf8 "sealed"))
      (read one_value one_codec clear_aead parsers config moment caller_id
        (utf8 "plan")
        (utf8 "sealed")).1
    × All
        (IsEntitled one_value one_codec clear_aead config moment caller_id (utf8 "sealed"))
        (search one_value one_codec clear_aead parsers config moment caller_id
          (utf8 "plan")
          (utf8 "sealed")).1
access-IsEntitled_example =
    access-IsEntitled one_value one_codec clear_aead config moment caller_id (utf8 "sealed") parsers
      (utf8 "plan")
