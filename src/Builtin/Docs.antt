-- ===== src/Builtin/Docs.antt =====
-- internal/tool/builtin/feishu_doc.go over the credentials of internal/oauth. The Lark SDK, the URL
-- parser and encoding/json are a parameter; the clock, the nonces of the two saves and the answer of
-- the token endpoint are arguments. A call also gives the access tokens under which it asked the SDK.
pub mod Calls
use ssh_bot.Base.{
  ℕ, ◌-◌, ◌+◌, Bool, true, false, not, ◌&&◌, ◌||◌, Option, none, some, List, [], ◌∷◌, ◌++◌, ◌==◌,
  leb, if◌then◌else◌, Bytes, utf8, has_prefix, trim_space, length, take,
}
use mathlib.Core.List.{reverse}
use ssh_bot.Oauth.Encryptor.{Aead}
use ssh_bot.Oauth.Endpoint.{HttpAnswer, Decoder}
use ssh_bot.Oauth.Refresh.{
  StartUrl, url, unsigned, RefreshError, reauthorize_at, start_url_failed, request_failed,
  endpoint_status, empty_access_token, save_failed, Refresher, refresh_if_needed,
}
use ssh_bot.Oauth.Store.{
  Credential, CredRedis, CredCodec, StoreError, Found, credential, no_credential, failed, get, save,
}
use ssh_bot.Session.{itoa}

pub data DocError : Type 0 where
  -- SimpleUserError
  told : Bytes → DocError
  store_failed : StoreError → DocError
  refresh_failed : RefreshError → DocError
  url_failed : Bytes → DocError
  not_configured : DocError
  api_code : ℕ → DocError
  api_error : Bytes → DocError
  -- a nil credential without an error
  no_pointer : DocError

pub data Outcome : Type 0 where
  content : Bytes → Outcome
  refused : DocError → Outcome

-- What the SDK answers: an error with its text and whether it is a timeout, a code that is no success,
-- or data, where a nil pointer is `none`.
pub data Api (A : Type 0) : Type 0 where
  call_failed : (text : Bytes) (timeout : Bool) → Api A
  bad_code : ℕ → Api A
  data_of : A → Api A

pub record Item : Type 0 where
  pub title : Option Bytes
  pub item_url : Option Bytes

-- The calls of the SDK at an access token, and the path of a URL that parses.
pub record Lark : Type 0 where
  pub raw_content : (access doc : Bytes) → Api (Option Bytes)
  -- the title; only an error counts
  pub document_title : (access doc : Bytes) → Api (Option Bytes)
  pub markdown_content : (access doc : Bytes) → Api (Option Bytes)
  pub search_nodes : (access query : Bytes) → Api (List (Option Item))

abbrev pub is_empty : Bytes → Bool
is_empty [] = true
is_empty (c ∷ s) = false

abbrev or_else : Bytes → Option Bytes → Bytes
or_else d none = d
or_else d (some s) = s

-- strings.Contains
contains : Bytes → Bytes → Bool
contains [] sub = is_empty sub
contains (c ∷ s) sub = has_prefix (c ∷ s) sub || contains s sub

no_access : Bytes
no_access = utf8 "无权访问该文档，请确认文档已分享给你或授权 scope 足够。"

not_there : Bytes
not_there = utf8 "文档不存在或已删除。"

-- mapFeishuCode
pub map_feishu_code : ℕ → DocError
unfolding no_access not_there
map_feishu_code code =
    if code == 403 || code == 99991663
    then told no_access
    else if code == 404 || code == 99991661
    then told not_there
    else api_code code

-- mapFeishuErr
pub map_feishu_err : Bytes → Bool → DocError
unfolding contains no_access not_there
map_feishu_err text timeout =
    if contains text (utf8 "403")
    then told no_access
    else if contains text (utf8 "404")
    then told not_there
    else if timeout
    then told (utf8 "飞书文档服务超时，请稍后重试。")
    else api_error text

drop_slashes : Bytes → Bytes
drop_slashes [] = []
drop_slashes (c ∷ s) = let rest = drop_slashes s in if c == b'/' then rest else c ∷ s

-- The part behind the last slash, where `part` has been read of it.
last_part : Bytes → Bytes → Bytes
last_part part [] = part
last_part part (c ∷ s) =
    let next = last_part [] s in
    let longer = last_part (part ++ c ∷ []) s in if c == b'/' then next else longer

-- parseDocToken, at the path of the URL, `none` where it does not parse
pub parse_doc_token : Option Bytes → Bytes
unfolding drop_slashes last_part
parse_doc_token none = []
parse_doc_token (some path) = last_part [] (reverse (drop_slashes (reverse (drop_slashes path))))

-- isDocxToken
pub is_docx_token : (token raw_url : Bytes) → Bool
unfolding contains
is_docx_token token raw_url =
    has_prefix token (utf8 "dox")
    || has_prefix token (utf8 "doccn")
    || contains raw_url (utf8 "/docx/")

-- truncateDoc
pub truncate_doc : Bytes → ℕ → Bytes
truncate_doc text max =
    let s = trim_space text in
    if leb (length s) max
    then s
    else take max s ++ utf8 "\n[truncated " ++ itoa (length s - max) ++ utf8 " chars]"

abbrev Asked : Type 0
Asked = Outcome × List Bytes

titled : Bytes → Bytes → Outcome
unfolding truncate_doc
titled title text = content (utf8 "Title: " ++ title ++ utf8 "\n\n" ++ truncate_doc text 20000)

title_or : Bytes → Option Bytes → Bytes
title_or token none = token
title_or token (some title) = if is_empty title then token else title

docx_title : Bytes → Option Bytes → Api (Option Bytes) → Outcome
unfolding titled title_or
docx_title token body (call_failed text timeout) = refused (map_feishu_err text timeout)
docx_title token body (bad_code code) = titled token (or_else [] body)
docx_title token body (data_of title) = titled (title_or token title) (or_else [] body)

docx_content : Lark → Bytes → Bytes → Api (Option Bytes) → Asked
unfolding docx_title
docx_content lark access token (call_failed text timeout) =
    (refused (map_feishu_err text timeout), access ∷ [])
docx_content lark access token (bad_code code) = (refused (map_feishu_code code), access ∷ [])
docx_content lark access token (data_of body) =
    (docx_title token body (lark.document_title access token), access ∷ access ∷ [])

doc_content : Bytes → Api (Option Bytes) → Outcome
unfolding titled
doc_content token (call_failed text timeout) = refused (map_feishu_err text timeout)
doc_content token (bad_code code) = refused (map_feishu_code code)
doc_content token (data_of body) = titled token (or_else token body)

-- fetchFeishuDocContent, and the text that the read tool makes of it
pub fetch_feishu_doc_content : Option Lark → (access token raw_url : Bytes) → Asked
unfolding docx_content doc_content
fetch_feishu_doc_content none access token raw_url = (refused not_configured, [])
fetch_feishu_doc_content (some lark) access token raw_url =
    if is_docx_token token raw_url
    then docx_content lark access token (lark.raw_content access token)
    else (doc_content token (lark.markdown_content access token), access ∷ [])

-- The loop of searchFeishuDocs: nil items and those without title and URL are left out.
found_items : List (Option Item) → List (Bytes × Bytes)
found_items [] = []
found_items (none ∷ items) = found_items items
found_items (some i ∷ items) =
    let rest = found_items items in
    let title = or_else [] i.title in
    let link = or_else [] i.item_url in
    if is_empty title && is_empty link then rest else (title, link) ∷ rest

item_lines : ℕ → List (Bytes × Bytes) → Bytes
item_lines n [] = []
item_lines n ((title, link) ∷ items) =
    itoa n ++ utf8 ". **" ++ title ++ utf8 "** — " ++ link ++ utf8 "\n" ++ item_lines (n + 1) items

listed : List (Bytes × Bytes) → Outcome
unfolding item_lines
listed [] = content (utf8 "Found 0 documents:")
listed (i ∷ items) = content (
    trim_space (
      utf8 "Found "
      ++ itoa (length (i ∷ items))
      ++ utf8 " documents:\n"
      ++ item_lines 1 (i ∷ items)))

search_outcome : Api (List (Option Item)) → Outcome
unfolding listed found_items
search_outcome (call_failed text timeout) = refused (map_feishu_err text timeout)
search_outcome (bad_code code) = refused (map_feishu_code code)
search_outcome (data_of items) = listed (found_items items)

-- searchFeishuDocs, and the text that the search tool makes of it
pub search_feishu_docs : Option Lark → (access query : Bytes) → Asked
unfolding search_outcome
search_feishu_docs none access query = (refused not_configured, [])
search_feishu_docs (some lark) access query =
    (search_outcome (lark.search_nodes access query), access ∷ [])
