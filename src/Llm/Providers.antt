-- ===== src/Llm/Providers.antt =====
-- internal/llm/provider.go: the providers by alias. The environment, the factory and what a provider
-- is are parameters.
use ssh_bot.Base.{
  ℕ, ◌≡◌, refl, ap, ◌∙◌, sym, Bool, true, false, not, ◌&&◌, Option, none, some, List, [], ◌∷◌, map,
  if◌then◌else◌, Bytes, beq, bytes_lt, Bool-cases, inl, inr, Assoc, lookup, insert, lookup-insert,
}

-- ModelProfile, less its temperature, which only the factory reads.
pub record ModelProfile : Type 0 where
  pub alias : Bytes
  pub kind : Bytes
  pub model : Bytes
  pub api_key_env : Bytes
  pub base_url : Bytes
  pub enable_thinking : Bool
  pub max_tokens : ℕ

-- Registry
pub record Providers (P : Type 0) : Type 0 where
  pub providers : Assoc P
  pub default_p : Bytes

abbrev pub is_empty : Bytes → Bool
is_empty [] = true
is_empty (c ∷ s) = false

insert_name : Bytes → List Bytes → List Bytes
insert_name n [] = n ∷ []
insert_name n (m ∷ ms) =
    let rest = insert_name n ms in if bytes_lt n m then n ∷ m ∷ ms else m ∷ rest

-- sort.Strings
sort_names : List Bytes → List Bytes
unfolding insert_name
sort_names [] = []
sort_names (n ∷ ns) = insert_name n (sort_names ns)

module _ {P : Type 0} where
  -- Get
  pub get : Providers P → Bytes → Option P
  get r alias = lookup alias r.providers

  -- Names
  pub names : Providers P → List Bytes
  unfolding sort_names
  names r = sort_names (map (λ e. e.0) r.providers)

  abbrev pub or_else : Option P → Option P → Option P
  or_else (some p) q = some p
  or_else none q = q

  -- Resolve: the alias's provider, else the default one.
  unfoldable pub resolve : Providers P → Bytes → Option P
  unfolding get
  resolve r alias = or_else (if is_empty alias then none else get r alias) (get r r.default_p)

  module _ (getenv : Bytes → Bytes) (factory : ModelProfile → Option P) where
    add_built : Bytes → Option P → Assoc P → Assoc P
    add_built alias none m = m
    add_built alias (some prov) m = insert alias prov m

    -- The body of the loop over the profiles.
    add_profile : ModelProfile → Assoc P → Assoc P
    unfolding add_built
    add_profile p m =
        if not (is_empty p.api_key_env) && is_empty (getenv p.api_key_env)
        then m
        else add_built p.alias (factory p) m

    add_profiles : List ModelProfile → Assoc P → Assoc P
    unfolding add_profile
    add_profiles [] m = m
    add_profiles (p ∷ ps) m = add_profiles ps (add_profile p m)

    checked : Providers P → Option P → Option (Providers P)
    checked r none = none
    checked r (some prov) = some r

    -- NewRegistry; `none` is its error.
    unfoldable pub new_registry : Bytes → List ModelProfile → Option (Providers P)
    unfolding add_profiles checked get
    new_registry default_alias profiles =
        let r : Providers P = record {
          providers = add_profiles profiles [];
          default_p = default_alias;
        } in
        checked r (get r default_alias)

    abbrev unless_empty : Bytes → Option P → Option P
    unless_empty [] o = none
    unless_empty (d ∷ secret) o = o

    -- What is left of a provider under a name of a key's variable: none where the name is given and the
    -- variable is empty.
    abbrev keyed : Bytes → Option P → Option P
    keyed [] o = o
    keyed (c ∷ name) o = unless_empty (getenv (c ∷ name)) o

    -- The provider that a profile gives, if its factory succeeds.
    abbrev offered : ModelProfile → Option P
    offered p = keyed p.api_key_env (factory p)

    -- The provider that the last profile of an alias to give one gives.
    pub last_offered : Bytes → List ModelProfile → Option P
    last_offered alias [] = none
    last_offered alias (p ∷ ps) =
        or_else (last_offered alias ps) (if beq p.alias alias then offered p else none)

    add_built_lem :
        (p alias : Bytes) (o : Option P) (m : Assoc P)
        → lookup alias (add_built p o m)
          ≡ or_else (if beq p alias then o else none) (lookup alias m)
    unfolding new_registry
    add_built_lem p alias none m = elim (Bool-cases (beq p alias)) [ inl e ↦ rw e | inr e ↦ rw e ]
    add_built_lem p alias (some q) m =
        lookup-insert p alias q m ∙ elim (Bool-cases (beq p alias)) [ inl e ↦ rw e | inr e ↦ rw e ]

    add_built-keyed :
        (alias name secret : Bytes) (o : Option P) (m : Assoc P)
        → getenv name ≡ secret
        → (if not (is_empty name) && is_empty secret then m else add_built alias o m)
          ≡ add_built alias (keyed name o) m
    unfolding new_registry
    add_built-keyed alias [] secret o m e = refl
    add_built-keyed alias (c ∷ name) [] o m e =
        ap (λ x. add_built alias (unless_empty x o) m) (sym e)
    add_built-keyed alias (c ∷ name) (d ∷ secret) o m e =
        ap (λ x. add_built alias (unless_empty x o) m) (sym e)

    add_profile-offered :
        (p : ModelProfile) (m : Assoc P) → add_profile p m ≡ add_built p.alias (offered p) m
    unfolding new_registry
    add_profile-offered p m =
        add_built-keyed p.alias p.api_key_env (getenv p.api_key_env) (factory p) m refl

    or_else_assoc : (a b c : Option P) → or_else (or_else a b) c ≡ or_else a (or_else b c)
    or_else_assoc none b c = refl
    or_else_assoc (some p) b c = refl

    lookup-add_profiles :
        (alias : Bytes) (ps : List ModelProfile) (m : Assoc P)
        → lookup alias (add_profiles ps m) ≡ or_else (last_offered alias ps) (lookup alias m)
    unfolding new_registry last_offered
    lookup-add_profiles alias [] m = refl
    lookup-add_profiles alias (p ∷ ps) m =
        lookup-add_profiles alias ps (add_profile p m)
        ∙ ap (λ n. or_else (last_offered alias ps) (lookup alias n)) (add_profile-offered p m)
        ∙ ap (or_else (last_offered alias ps)) (add_built_lem p.alias alias (offered p) m)
        ∙ sym (
            or_else_assoc (last_offered alias ps) (if beq p.alias alias then offered p else none)
              (lookup alias m))

    -- What NewRegistry returns: an error where no profile gives a provider for the default alias, else a
    -- registry that resolves every alias.
    pub data Made (default_alias : Bytes) (profiles : List ModelProfile)
        : Option (Providers P) → Type 0 where
      no_default : last_offered default_alias profiles ≡ none → Made default_alias profiles none
      resolving :
          (r : Providers P) (q : P)
          → last_offered default_alias profiles ≡ some q
          → ((alias : Bytes)
              → resolve r alias
                ≡ or_else (if beq alias [] then none else last_offered alias profiles) (some q))
          → Made default_alias profiles (some r)

    -- NewRegistry fails exactly where no profile gives a provider for the default alias. The registry
    -- that it returns else resolves every alias: to the provider of the last profile of that alias
    -- whose factory succeeds and whose key, if it names one, is set, and where there is none, or the
    -- alias is empty, to that of the default alias.
    pub new_registry-Made :
        (default_alias : Bytes) (profiles : List ModelProfile)
        → Made default_alias profiles (new_registry default_alias profiles)
    unfolding new_registry resolve lookup last_offered beq
    new_registry-Made default_alias profiles = by_default (last_offered default_alias profiles) refl
      where
        r : Providers P
        r = record { providers = add_profiles profiles []; default_p = default_alias }

        found : (alias : Bytes) → get r alias ≡ last_offered alias profiles
        found alias =
            lookup-add_profiles alias profiles [] ∙ or_else_none (last_offered alias profiles)
          where
            or_else_none : (o : Option P) → or_else o none ≡ o
            or_else_none none = refl
            or_else_none (some p) = refl

        resolved :
            (q : P)
            → get r default_alias ≡ some q
            → (alias : Bytes)
            → resolve r alias
              ≡ or_else (if beq alias [] then none else last_offered alias profiles) (some q)
        resolved q d [] = rw d
        resolved q d (c ∷ alias) = rw (found (c ∷ alias), d)

        by_default :
            (o : Option P)
            → last_offered default_alias profiles ≡ o
            → Made default_alias profiles (new_registry default_alias profiles)
        by_default none e = rw (found default_alias, e) (no_default e)
        by_default (some q) e =
            rw (found default_alias, e) (resolving r q e (resolved q (found default_alias ∙ e)))
