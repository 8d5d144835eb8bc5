-- ===== src/Tests/ProviderRuns.antt =====
-- A provider registry of internal/llm/provider.go with one model whose key is set.
use ssh_bot.Base.{◌≡◌, refl, Option, some, false, [], ◌∷◌, Bytes, utf8, lookup, insert, beq}
use ssh_bot.Llm.Providers.{ModelProfile, Providers, resolve, new_registry, Made, new_registry-Made}

abbrev claude : ModelProfile
claude = record {
  alias = 99 ∷ [];
  kind = utf8 "claude";
  model = utf8 "m";
  api_key_env = 75 ∷ [];
  base_url = [];
  enable_thinking = false;
  max_tokens = 100;
}

abbrev only_claude : Providers Bytes
only_claude = record { providers = (99 ∷ [], 1 ∷ []) ∷ []; default_p = 99 ∷ [] }

abbrev key_set : Bytes → Bytes
key_set name = 1 ∷ []

abbrev built : ModelProfile → Option Bytes
built p = some (1 ∷ [])

new_registry-Made_example :
    Made key_set built (99 ∷ []) (claude ∷ []) (new_registry key_set built (99 ∷ []) (claude ∷ []))
new_registry-Made_example = new_registry-Made key_set built (99 ∷ []) (claude ∷ [])

-- An alias that is not registered is resolved to the default provider.
default_resolved :
    (q : Providers Bytes) × (new_registry key_set built (99 ∷ []) (claude ∷ []) ≡ some q)
    × (resolve q (98 ∷ []) ≡ some (1 ∷ []))
unfolding new_registry lookup insert beq resolve
default_resolved = (only_claude, refl, refl)
