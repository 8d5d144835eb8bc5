-- ===== src/Builtin/Search.antt =====
-- internal/tool/builtin/web_search.go. encoding/json, the environment and the HTTP client are a
-- parameter. A call gives its outcome and whether it has sent its request; the metadata for the
-- display is left out.
use ssh_bot.Agent.Exec.{CallOutcome, returned, user_error, other_error}
use ssh_bot.Base.{
  ℕ, zero, suc, ◌+◌, ◌≤◌, arith, Bool, true, false, Bool-cases, inl, inr, Option, none, some, List,
  [], ◌∷◌, ◌++◌, ◌==◌, ltb, leb, leb→le, if◌then◌else◌, Bytes, utf8, fields, join, trim_space,
  length, take, length-append, length-take,
}
use ssh_bot.Session.{itoa}

pub record Result : Type 0 where
  pub title : Bytes
  pub url : Bytes
  pub content : Bytes

pub data Answer : Type 0 where
  no_response : Bytes → Answer
  response : (status : ℕ) (body : Bytes) → Answer

-- What is posted to the provider.
pub record Payload : Type 0 where
  pub api_key : Bytes
  pub query : Bytes
  pub max_results : ℕ

pub record Provider : Type 0 where
  -- the query and the number of results, 0 for one that is not positive
  pub decode : Bytes → Option (Bytes × ℕ)
  pub decode_results : Bytes → Option (List Result)
  -- os.Getenv at the configured name, and the number of results configured
  pub api_key : Bytes
  pub configured_results : ℕ
  -- the error of http.NewRequest, and the answer to a request that is sent
  pub bad_request : Option Bytes
  pub post : Payload → Answer

abbrev is_empty : Bytes → Bool
is_empty [] = true
is_empty (c ∷ s) = false

-- truncateSpace; the mark is an ellipsis of three bytes.
pub truncate_space : Bytes → ℕ → Bytes
truncate_space text max =
    let s = join (fields text) (utf8 " ") in
    if leb (length s) max then s else take max s ++ utf8 "…"

title_or : Bytes → Bytes → Bytes
title_or url [] = url
title_or url (c ∷ title) = c ∷ title

snippet_line : Bytes → Bytes
snippet_line [] = []
snippet_line (c ∷ s) = utf8 "   " ++ (c ∷ s) ++ utf8 "\n"

result_lines : ℕ → List Result → Bytes
unfolding truncate_space title_or snippet_line
result_lines n [] = []
result_lines n (r ∷ rs) =
    itoa n
    ++ utf8 ". **"
    ++ title_or r.url (trim_space r.title)
    ++ utf8 "** — "
    ++ r.url
    ++ utf8 "\n"
    ++ snippet_line (truncate_space r.content 300)
    ++ result_lines (n + 1) rs

listed : List Result → Bytes
unfolding result_lines
listed [] = utf8 "No results found."
listed (r ∷ rs) = result_lines 1 (r ∷ rs)

-- The number of results asked for, at most 10
asked_results : ℕ → ℕ → ℕ
asked_results configured zero = if ltb 10 configured then 10 else configured
asked_results configured (suc n) = if ltb 10 (suc n) then 10 else suc n

module _ (provider : Provider) where
  parsed : Option (List Result) → CallOutcome
  unfolding listed
  parsed none = other_error (utf8 "invalid response")
  parsed (some results) = returned (trim_space (listed results))

  answered : Answer → CallOutcome
  unfolding parsed
  answered (no_response e) = other_error e
  answered (response status body) =
      if status == 429
      then user_error (utf8 "Search rate-limited, try again in a moment.")
      else if leb 400 status
      then other_error (utf8 "search provider status " ++ itoa status)
      else parsed (provider.decode_results (take 1048576 body))

  posted : Payload → Option Bytes → CallOutcome × Bool
  unfolding answered
  posted payload (some e) = (other_error e, false)
  posted payload none = (answered (provider.post payload), true)

  with_query : Bytes → ℕ → CallOutcome × Bool
  unfolding posted asked_results
  with_query query n =
      if is_empty (trim_space query)
      then (user_error (utf8 "\"query\" is required"), false)
      else if is_empty provider.api_key
      then (user_error (utf8 "Search provider is not configured."), false)
      else posted
          (record {
            api_key = provider.api_key;
            query = query;
            max_results = asked_results provider.configured_results n;
          })
          provider.bad_request

  with_args : Option (Bytes × ℕ) → CallOutcome × Bool
  unfolding with_query
  with_args none = (user_error (utf8 "invalid arguments"), false)
  with_args (some (query, n)) = with_query query n

  -- Call
  pub call : Bytes → CallOutcome × Bool
  unfolding with_args
  call args = with_args (provider.decode args)

-- A snippet has at most three bytes more than its cap.
length-truncate_space : (text : Bytes) (max : ℕ) → length (truncate_space text max) ≤ max + 3
unfolding truncate_space utf8
length-truncate_space text max =
    let s = join (fields text) (utf8 " ") in
    elim (Bool-cases (leb (length s) max)) [
      | inl e ↦ rw e (omega (arith, leb→le (length s) max e))
      | inr e ↦ rw e (omega (arith, length-append (take max s) (utf8 "…"), length-take max s))
    ]
