-- ===== src/Builtin/Docs/Calls/Gate.antt =====
-- Under whose access tokens the tools of internal/tool/builtin/feishu_doc.go ask the SDK.
use ssh_bot.Base.{
  ◌≡◌, ◌≢◌, refl, true, false, Bool-cases, inl, inr, Option, none, some, [], ◌∷◌, Bytes, All,
  trim_space,
}
use ssh_bot.Builtin.Docs.Calls.{
  Parsers, Config, Moment, Access, granted, denied, noted, after_refresh, refreshed, after_get,
  require_credential, used_now, with_token, read_doc, read_parsed, read, search_doc, search_parsed,
  search,
}
use ssh_bot.Builtin.Docs.{
  Lark, Api, call_failed, bad_code, data_of, is_empty, is_docx_token, docx_content,
  fetch_feishu_doc_content, search_feishu_docs,
}
use ssh_bot.Oauth.Encryptor.{Aead}
use ssh_bot.Oauth.Refresh.{Refresher, Refreshed, refresh_if_needed}
use ssh_bot.Oauth.Store.{
  Credential, CredRedis, CredCodec, Found, credential, no_credential, failed, get,
}

module _ (P : Bytes → Type 0) (access : Bytes) (holds : P access) where
  docx-All :
      (lark : Lark) (token : Bytes) (a : Api (Option Bytes))
      → All P (docx_content lark access token a).1
  unfolding fetch_feishu_doc_content
  docx-All lark token (call_failed text timeout) = (holds, tt)
  docx-All lark token (bad_code code) = (holds, tt)
  docx-All lark token (data_of body) = (holds, (holds, tt))

  fetch-All :
      (client : Option Lark) (token raw_url : Bytes)
      → All P (fetch_feishu_doc_content client access token raw_url).1
  unfolding fetch_feishu_doc_content
  fetch-All none token raw_url = tt
  fetch-All (some lark) token raw_url = elim (Bool-cases (is_docx_token token raw_url)) [
    | inl e ↦ rw e (docx-All lark token (lark.raw_content access token))
    | inr e ↦ rw e (holds, tt)
  ]

  search-All :
      (client : Option Lark) (query : Bytes) → All P (search_feishu_docs client access query).1
  unfolding search_feishu_docs
  search-All none query = tt
  search-All (some lark) query = (holds, tt)

module _ (redis : CredRedis) (codec : CredCodec) (aead : Aead) (cfg : Config redis codec aead)
    (m : Moment redis codec aead) (caller : Bytes) (s : redis.State) where
  -- The token is that of the credential that the store has for the caller, or of its refresh.
  pub data IsEntitled (access : Bytes) : Type 0 where
    stored :
        (c : Credential)
        → caller ≢ []
        → get redis codec aead caller s ≡ credential c
        → cfg.refresher ≡ none
        → access ≡ c.access_token
        → IsEntitled access
    renewed :
        (r : Refresher redis codec aead) (c c' : Credential) (s' : redis.State)
        → caller ≢ []
        → get redis codec aead caller s ≡ credential c
        → cfg.refresher ≡ some r
        → refresh_if_needed redis codec aead r m.decode m.now m.refresh_drawn c m.answer s
          ≡ (none, some c', s')
        → access ≡ c'.access_token
        → IsEntitled access

  abbrev Allowed : Access redis codec aead × redis.State → Type 0
  Allowed (denied e, s') = Unit
  Allowed (granted cred, s') = IsEntitled cred.access_token

  noted-Allowed :
      (cred : Credential) (s' : redis.State)
      → IsEntitled cred.access_token
      → Allowed (noted redis codec aead m cred s')
  unfolding require_credential used_now
  noted-Allowed cred s' h = h

  refresh-Allowed :
      (r : Refresher redis codec aead) (c : Credential) (res : Refreshed redis codec aead)
      → caller ≢ []
      → get redis codec aead caller s ≡ credential c
      → cfg.refresher ≡ some r
      → refresh_if_needed redis codec aead r m.decode m.now m.refresh_drawn c m.answer s ≡ res
      → Allowed (after_refresh redis codec aead m res)
  unfolding require_credential
  refresh-Allowed r c (some e, o, s') named g f res = tt
  refresh-Allowed r c (none, none, s') named g f res = tt
  refresh-Allowed r c (none, some c', s') named g f res =
      noted-Allowed c' s' (renewed r c c' s' named g f res refl)

  refreshed-Allowed :
      (o : Option (Refresher redis codec aead)) (c : Credential)
      → caller ≢ []
      → get redis codec aead caller s ≡ credential c
      → cfg.refresher ≡ o
      → Allowed (refreshed redis codec aead o m c s)
  unfolding require_credential
  refreshed-Allowed none c named g f = noted-Allowed c s (stored c named g f refl)
  refreshed-Allowed (some r) c named g f = refresh-Allowed r c _ named g f refl

  get-Allowed :
      (f : Found)
      → caller ≢ []
      → get redis codec aead caller s ≡ f
      → Allowed (after_get redis codec aead cfg m caller f s)
  unfolding require_credential
  get-Allowed (failed e) named g = tt
  get-Allowed no_credential named g = tt
  get-Allowed (credential c) named g = refreshed-Allowed cfg.refresher c named g refl

  not_empty : (text : Bytes) → is_empty text ≡ false → text ≢ []
  not_empty [] e = absurd (clash e)
    where
      clash : true ≡ false → ⊥
      clash x = cc
  not_empty (c ∷ text) e = λ x. cc

  require_credential-Allowed : Allowed (require_credential redis codec aead cfg m caller s)
  unfolding require_credential
  require_credential-Allowed = elim (Bool-cases (is_empty caller)) [
    | inl e ↦ rw e tt
    | inr e ↦ rw e (get-Allowed (get redis codec aead caller s) (not_empty caller e) refl)
  ]

  with_token-All :
      (cred : Credential) (token raw_url : Bytes)
      → IsEntitled cred.access_token
      → All IsEntitled (with_token redis codec aead cfg cred token raw_url).1
  unfolding read
  with_token-All cred token raw_url h = elim (Bool-cases (is_empty token)) [
    | inl e ↦ rw e tt
    | inr e ↦ rw e (fetch-All IsEntitled cred.access_token h cfg.client token raw_url)
  ]

  read_doc-All :
      (parsers : Parsers) (raw_url doc_token : Bytes) (a : Access redis codec aead × redis.State)
      → Allowed a
      → All IsEntitled (read_doc redis codec aead parsers cfg raw_url doc_token a).1
  unfolding read
  read_doc-All parsers raw_url doc_token (denied e, s') h = tt
  read_doc-All parsers raw_url doc_token (granted cred, s') h = with_token-All cred _ raw_url h

  search_doc-All :
      (query : Bytes) (a : Access redis codec aead × redis.State)
      → Allowed a
      → All IsEntitled (search_doc redis codec aead cfg query a).1
  unfolding search
  search_doc-All query (denied e, s') h = tt
  search_doc-All query (granted cred, s') h =
      search-All IsEntitled cred.access_token h cfg.client query

  read_parsed-All :
      (parsers : Parsers) (o : Option (Bytes × Bytes))
      → All IsEntitled (read_parsed redis codec aead parsers cfg m caller o s).1
  unfolding read
  read_parsed-All parsers none = tt
  read_parsed-All parsers (some (raw_url, doc_token)) =
      read_doc-All parsers raw_url doc_token _ require_credential-Allowed

  search_parsed-All :
      (o : Option Bytes) → All IsEntitled (search_parsed redis codec aead cfg m caller o s).1
  unfolding search
  search_parsed-All none = tt
  search_parsed-All (some query) = elim (Bool-cases (is_empty (trim_space query))) [
    | inl e ↦ rw e tt
    | inr e ↦ rw e (search_doc-All query _ require_credential-Allowed)
  ]

  -- Whatever the arguments, the two tools ask the SDK only under the access token of the credential
  -- that the store has for the caller, or of its refresh where there is a refresher; a caller without
  -- an identity or a credential has no call made.
  pub access-IsEntitled :
      (parsers : Parsers) (args : Bytes)
      → All IsEntitled (read redis codec aead parsers cfg m caller args s).1
        × All IsEntitled (search redis codec aead parsers cfg m caller args s).1
  unfolding read search
  access-IsEntitled parsers args = (
    read_parsed-All parsers (parsers.read_args args),
    search_parsed-All (parsers.search_args args),
  )
