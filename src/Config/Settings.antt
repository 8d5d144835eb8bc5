-- ===== src/Config/Settings.antt =====
-- internal/config/config.go: the expansion of settings, the look-ups in them and the checks of a
-- configuration. Reading the YAML file and its defaults is viper's part.
use ssh_bot.Base.{
  ◌≡◌, refl, Bool, true, false, not, ◌||◌, Bool-cases, inl, inr, Option, none, some, List, [], ◌∷◌,
  if◌then◌else◌, Bytes, beq,
}

-- What os.ExpandEnv does to a text, and the numbers of Go with their conversions to int.
pub record Host : Type 1 where
  pub expand_env : Bytes → Bytes
  pub Int : Type 0
  pub Int64 : Type 0
  pub Float64 : Type 0
  pub int_of_int64 : Int64 → Int
  pub int_of_float64 : Float64 → Int
  pub Other : Type 0

module _ (host : Host) where
  mutual
    -- A value of type `any`, as the YAML file has them.
    pub data Value : Type 0 where
      text : Bytes → Value
      mapping : Entries → Value
      sequence : Values → Value
      int : host.Int → Value
      int64 : host.Int64 → Value
      float64 : host.Float64 → Value
      other : host.Other → Value

    -- map[string]any
    pub data Entries : Type 0 where
      no_entries : Entries
      entry : Bytes → Value → Entries → Entries

    -- []any
    pub data Values : Type 0 where
      no_values : Values
      next_value : Value → Values → Values

  mutual
    -- expandValue
    pub expand_value : Value → Value
    expand_value (text s) = text (host.expand_env s)
    expand_value (mapping m) = mapping (expand_map m)
    expand_value (sequence vs) = sequence (expand_values vs)
    expand_value (int n) = int n
    expand_value (int64 n) = int64 n
    expand_value (float64 x) = float64 x
    expand_value (other o) = other o

    -- expandMap
    pub expand_map : Entries → Entries
    expand_map no_entries = no_entries
    expand_map (entry k v m) = entry k (expand_value v) (expand_map m)

    expand_values : Values → Values
    expand_values no_values = no_values
    expand_values (next_value v vs) = next_value (expand_value v) (expand_values vs)

  pub find : Bytes → Entries → Option Value
  find k no_entries = none
  find k (entry j v m) = let rest = find k m in if beq j k then some v else rest

  as_map : Option Value → Option Entries
  as_map none = none
  as_map (some (mapping m)) = some m
  as_map (some (text s)) = none
  as_map (some (sequence vs)) = none
  as_map (some (int n)) = none
  as_map (some (int64 n)) = none
  as_map (some (float64 x)) = none
  as_map (some (other o)) = none

  -- LookupToolMap; `none` is a nil map.
  pub lookup_tool_map : Option Entries → Bytes → Option Entries
  unfolding as_map
  lookup_tool_map none key = none
  lookup_tool_map (some m) key = as_map (find key m)

  as_int : host.Int → Option Value → host.Int
  as_int fallback none = fallback
  as_int fallback (some (int n)) = n
  as_int fallback (some (int64 n)) = host.int_of_int64 n
  as_int fallback (some (float64 x)) = host.int_of_float64 x
  as_int fallback (some (text s)) = fallback
  as_int fallback (some (mapping m)) = fallback
  as_int fallback (some (sequence vs)) = fallback
  as_int fallback (some (other o)) = fallback

  -- IntValue
  pub int_value : Option Entries → Bytes → host.Int → host.Int
  unfolding as_int
  int_value none key fallback = fallback
  int_value (some m) key fallback = as_int fallback (find key m)

  non_empty_or : Bytes → Bytes → Bytes
  non_empty_or fallback [] = fallback
  non_empty_or fallback (c ∷ s) = c ∷ s

  as_text : Bytes → Option Value → Bytes
  unfolding non_empty_or
  as_text fallback none = fallback
  as_text fallback (some (text s)) = non_empty_or fallback s
  as_text fallback (some (int n)) = fallback
  as_text fallback (some (int64 n)) = fallback
  as_text fallback (some (float64 x)) = fallback
  as_text fallback (some (mapping m)) = fallback
  as_text fallback (some (sequence vs)) = fallback
  as_text fallback (some (other o)) = fallback

  -- StringValue
  pub string_value : Option Entries → Bytes → Bytes → Bytes
  unfolding as_text
  string_value none key fallback = fallback
  string_value (some m) key fallback = as_text fallback (find key m)

  abbrev expanded : Option Value → Option Value
  expanded none = none
  expanded (some v) = some (expand_value v)

  find-expand_map : (k : Bytes) (m : Entries) → find k (expand_map m) ≡ expanded (find k m)
  unfolding find expand_map
  find-expand_map k no_entries = refl
  find-expand_map k (entry j v m) = elim (Bool-cases (beq j k)) [
    | inl e ↦ rw e
    | inr e ↦ rw e (find-expand_map k m)
  ]

  abbrev pub expanded_map : Option Entries → Option Entries
  expanded_map none = none
  expanded_map (some m) = some (expand_map m)

  as_map-expanded : (o : Option Value) → as_map (expanded o) ≡ expanded_map (as_map o)
  unfolding as_map expand_value
  as_map-expanded none = refl
  as_map-expanded (some (mapping m)) = refl
  as_map-expanded (some (text s)) = refl
  as_map-expanded (some (sequence vs)) = refl
  as_map-expanded (some (int n)) = refl
  as_map-expanded (some (int64 n)) = refl
  as_map-expanded (some (float64 x)) = refl
  as_map-expanded (some (other o)) = refl

  as_int-expanded :
      (fallback : host.Int) (o : Option Value) → as_int fallback (expanded o) ≡ as_int fallback o
  unfolding as_int expand_value
  as_int-expanded fallback none = refl
  as_int-expanded fallback (some (mapping m)) = refl
  as_int-expanded fallback (some (text s)) = refl
  as_int-expanded fallback (some (sequence vs)) = refl
  as_int-expanded fallback (some (int n)) = refl
  as_int-expanded fallback (some (int64 n)) = refl
  as_int-expanded fallback (some (float64 x)) = refl
  as_int-expanded fallback (some (other o)) = refl

  -- The tool's section of expanded settings is the expanded section, and no number that a section
  -- holds is changed by the expansion.
  pub lookup-expand_map :
      (m : Entries) (tool key : Bytes) (fallback : host.Int)
      → (lookup_tool_map (some (expand_map m)) tool ≡ expanded_map (lookup_tool_map (some m) tool))
        × (int_value (some (expand_map m)) key fallback ≡ int_value (some m) key fallback)
  unfolding lookup_tool_map int_value
  lookup-expand_map m tool key fallback = (
    rw (find-expand_map tool m) (as_map-expanded (find tool m)),
    rw (find-expand_map key m) (as_int-expanded fallback (find key m)),
  )

-- The fields of a Config that validate reads.
pub record Required : Type 0 where
  pub app_id : Bytes
  pub app_secret : Bytes
  pub bot_open_id : Bytes
  pub redis_addr : Bytes
  pub default_provider : Bytes
  pub providers : List Bytes
  pub public_base_url : Bytes

pub data ConfigError : Type 0 where
  app_required : ConfigError
  bot_open_id_required : ConfigError
  redis_addr_required : ConfigError
  default_provider_required : ConfigError
  default_provider_unknown : Bytes → ConfigError
  public_base_url_required : ConfigError

abbrev is_empty : Bytes → Bool
is_empty [] = true
is_empty (c ∷ s) = false

pub is_named : Bytes → List Bytes → Bool
is_named n [] = false
is_named n (m ∷ ms) = beq m n || is_named n ms

-- validate; `none` is no error.
pub validate : Required → Option ConfigError
validate c =
    if is_empty c.app_id || is_empty c.app_secret
    then some app_required
    else if is_empty c.bot_open_id
    then some bot_open_id_required
    else if is_empty c.redis_addr
    then some redis_addr_required
    else if is_empty c.default_provider
    then some default_provider_required
    else if not (is_named c.default_provider c.providers)
    then some (default_provider_unknown c.default_provider)
    else if is_empty c.public_base_url
    then some public_base_url_required
    else none
