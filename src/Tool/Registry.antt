-- ===== src/Tool/Registry.antt =====
-- internal/tool/registry.go: the tools by name. A map is an association list; List sorts it, so
-- that the order in which Go walks the map does not show.
pub mod Valid
pub mod Sorted
use ssh_bot.Base.{
  Bool, true, false, not, ◌&&◌, Option, none, some, List, [], ◌∷◌, map, if◌then◌else◌, Bytes, utf8,
  beq, bytes_lt, has_prefix, Assoc, lookup, insert, select,
}
use ssh_bot.Tool.{Tool, Source, builtin, mcp}

pub record Registry : Type 0 where
  pub tools : Assoc Tool

abbrev pub empty_registry : Registry
empty_registry = record { tools = [] }

unfoldable pub mcp_name_prefix : Bytes
unfolding utf8
mcp_name_prefix = utf8 "mcp__"

pub data RegisterError : Type 0 where
  name_is_empty : RegisterError
  must_use_prefix : Bytes → RegisterError
  must_not_use_prefix : Bytes → RegisterError
  already_registered : Bytes → RegisterError

abbrev pub is_mcp : Source → Bool
is_mcp mcp = true
is_mcp builtin = false

abbrev is_some {ℓ} : {A : Type ℓ} → Option A → Bool
is_some none = false
is_some (some a) = true

-- Register
pub register : Registry → Tool → Option RegisterError × Registry
register r t =
    if beq t.name []
    then (some name_is_empty, r)
    else if is_mcp t.source && not (has_prefix t.name mcp_name_prefix)
    then (some (must_use_prefix t.name), r)
    else if not (is_mcp t.source) && has_prefix t.name mcp_name_prefix
    then (some (must_not_use_prefix t.name), r)
    else if is_some (lookup t.name r.tools)
    then (some (already_registered t.name), r)
    else (none, record { tools = insert t.name t r.tools })

-- Get
unfoldable pub get : Registry → Bytes → Option Tool
get r name = lookup name r.tools

-- The order that List sorts by: built-in tools before the others, then by name.
pub less : Tool → Tool → Bool
less a b =
    if is_mcp a.source
    then (if is_mcp b.source then bytes_lt a.name b.name else false)
    else if is_mcp b.source
    then true
    else bytes_lt a.name b.name

insert_sorted : Tool → List Tool → List Tool
insert_sorted t [] = t ∷ []
insert_sorted t (u ∷ us) =
    let rest = insert_sorted t us in if less t u then t ∷ u ∷ us else u ∷ rest

-- sort.Slice with `less`
pub sort : List Tool → List Tool
unfolding insert_sorted
sort [] = []
sort (t ∷ ts) = insert_sorted t (sort ts)

-- List
pub list : Registry → List Tool
list r = sort (map (λ e. e.1) r.tools)

-- Available, where `up` says which tools are reachable now.
pub available : (Tool → Bool) → Registry → List Tool
available up r = select up (list r)

remove_keys : Bytes → Assoc Tool → Assoc Tool
remove_keys prefix [] = []
remove_keys prefix ((n, t) ∷ m) =
    let rest = remove_keys prefix m in if has_prefix n prefix then rest else (n, t) ∷ rest

-- RemoveByPrefix
pub remove_by_prefix : Registry → Bytes → Registry
unfolding remove_keys
remove_by_prefix r prefix = record { tools = remove_keys prefix r.tools }
