-- ===== src/Config/Dotenv/Keeps.antt =====
-- What LoadDotenvIfExists of internal/config/dotenv.go leaves of the environment.
use ssh_bot.Base.{
  ℕ, suc, ◌≡◌, refl, sym, ap, ◌∙◌, ◌||◌, Bool-cases, inl, inr, Option, none, some, List, [], ◌∷◌,
  Bytes, utf8, has_prefix, beq, beq_iff, trim_space, index_byte, take, drop, Assoc, lookup, insert,
  lookup-insert,
}
use ssh_bot.Config.Dotenv.{
  File, absent, stat_failed, directory, open_failed, opened, System, DotenvError, Parsed, parsed,
  malformed, is_empty, parse_dotenv_value, contains_any_blank, set_value, assign, with_key,
  cut_line, without_export, load_line, load_lines, unless_stopped, stored, with_file, Result,
  contains, finished, load_from, load_dotenv_if_exists,
}

module _ (sys : System) (k v : Bytes) where
  -- A new variable does not hide one that is set.
  insert_keeps :
      (key w : Bytes) (env : Assoc Bytes)
      → lookup key env ≡ none
      → lookup k env ≡ some v
      → lookup k (insert key w env) ≡ some v
  insert_keeps key w env free h = elim (Bool-cases (beq key k)) [
    | inl e ↦ absurd (clash (sym free ∙ ap (λ j. lookup j env) ((beq_iff key k).0 e) ∙ h))
    | inr e ↦ rw (lookup-insert key k w env, e) h
  ]
    where
      clash : none ≡ some v → ⊥
      clash x = cc

  stored-keeps :
      (key w : Bytes) (env : Assoc Bytes) (refused : Option Bytes)
      → lookup key env ≡ none
      → lookup k env ≡ some v
      → lookup k (stored sys key w env refused).1 ≡ some v
  unfolding load_line
  stored-keeps key w env none free h = insert_keeps key w env free h
  stored-keeps key w env (some e) free h = h

  set_value-keeps :
      (n : ℕ) (key : Bytes) (p : Parsed) (env : Assoc Bytes)
      → lookup key env ≡ none
      → lookup k env ≡ some v
      → lookup k (set_value sys n key p env).1 ≡ some v
  unfolding load_line
  set_value-keeps n key (malformed e) env free h = h
  set_value-keeps n key (parsed w) env free h = stored-keeps key w env (sys.refuses key w) free h

  assign-keeps :
      (n : ℕ) (key raw : Bytes) (there : Option Bytes) (env : Assoc Bytes)
      → lookup key env ≡ there
      → lookup k env ≡ some v
      → lookup k (assign sys n key raw there env).1 ≡ some v
  unfolding load_line
  assign-keeps n key raw (some w) env e h = h
  assign-keeps n key raw none env e h =
      set_value-keeps n key (parse_dotenv_value sys (trim_space raw)) env e h

  with_key-keeps :
      (n : ℕ) (key raw : Bytes) (env : Assoc Bytes)
      → lookup k env ≡ some v
      → lookup k (with_key sys n key raw env).1 ≡ some v
  unfolding load_line
  with_key-keeps n key raw env h = elim (Bool-cases (is_empty key)) [
    | inl a ↦ rw a h
    | inr a ↦ elim (Bool-cases (contains_any_blank key)) [
      | inl b ↦ rw (a, b) h
      | inr b ↦ rw (a, b) (assign-keeps n key raw (lookup key env) env refl h)
    ]
  ]

  cut_line-keeps :
      (n : ℕ) (line : Bytes) (at : Option ℕ) (env : Assoc Bytes)
      → lookup k env ≡ some v
      → lookup k (cut_line sys n line at env).1 ≡ some v
  unfolding load_line
  cut_line-keeps n line none env h = h
  cut_line-keeps n line (some i) env h =
      with_key-keeps n (trim_space (take i line)) (drop (suc i) line) env h

  load_line-keeps :
      (n : ℕ) (text : Bytes) (env : Assoc Bytes)
      → lookup k env ≡ some v
      → lookup k (load_line sys n text env).1 ≡ some v
  unfolding load_line
  load_line-keeps n text env h =
      let line = trim_space text in
      elim (Bool-cases (is_empty line || has_prefix line (utf8 "#"))) [
        | inl e ↦ rw e h
        | inr e ↦
            rw e
              (cut_line-keeps n (without_export line) (index_byte b'=' (without_export line)) env h)
      ]

  unless_stopped-keeps :
      (r : Option DotenvError × Assoc Bytes) (more : Assoc Bytes → Option DotenvError × Assoc Bytes)
      → lookup k r.1 ≡ some v
      → lookup k (more r.1).1 ≡ some v
      → lookup k (unless_stopped sys r more).1 ≡ some v
  unfolding load_lines
  unless_stopped-keeps (some e, env) more h later = h
  unless_stopped-keeps (none, env) more h later = later

  load_lines-keeps :
      (n : ℕ) (lines : List Bytes) (scan_error : Option Bytes) (env : Assoc Bytes)
      → lookup k env ≡ some v
      → lookup k (load_lines sys n lines scan_error env).1 ≡ some v
  unfolding load_lines
  load_lines-keeps n [] none env h = h
  load_lines-keeps n [] (some e) env h = h
  load_lines-keeps n (text ∷ lines) scan_error env h =
      unless_stopped-keeps (load_line sys n text env)
        (λ env'. load_lines sys (suc n) lines scan_error env') (load_line-keeps n text env h)
        (load_lines-keeps (suc n) lines scan_error (load_line sys n text env).1
          (load_line-keeps n text env h))

  finished-keeps :
      (path : Bytes) (r : Option DotenvError × Assoc Bytes)
      → lookup k r.1 ≡ some v
      → lookup k (finished sys path r).1 ≡ some v
  unfolding load_from
  finished-keeps path (none, env) h = h
  finished-keeps path (some e, env) h = h

  with_file-keeps :
      (path : Bytes) (env : Assoc Bytes) (passed : Result sys × Assoc Bytes) (f : File)
      → lookup k env ≡ some v
      → lookup k passed.1 ≡ some v
      → lookup k (with_file sys path env passed f).1 ≡ some v
  unfolding load_from
  with_file-keeps path env passed absent h p = p
  with_file-keeps path env passed (stat_failed e) h p = h
  with_file-keeps path env passed directory h p = p
  with_file-keeps path env passed (open_failed e) h p = h
  with_file-keeps path env passed (opened lines scan_error) h p =
      finished-keeps path _ (load_lines-keeps 1 lines scan_error env h)

  load_from-keeps :
      (paths seen : List Bytes) (env : Assoc Bytes)
      → lookup k env ≡ some v
      → lookup k (load_from sys seen paths env).1 ≡ some v
  unfolding load_from
  load_from-keeps [] seen env h = h
  load_from-keeps (path ∷ paths) seen env h =
      let skipped = load_from-keeps paths seen env h in
      let passed = load_from-keeps paths (sys.clean path ∷ seen) env h in
      elim (Bool-cases (is_empty path)) [
        | inl a ↦ rw a skipped
        | inr a ↦ elim (Bool-cases (contains sys (sys.clean path) seen)) [
          | inl b ↦ rw (a, b) skipped
          | inr b ↦
              rw (a, b)
                (with_file-keeps (sys.clean path) env _ (sys.file (sys.clean path)) h passed)
        ]
      ]

-- A variable that is set before a .env file is loaded keeps its value, whatever the files hold and
-- also where the loading stops with an error.
pub load_dotenv_if_exists-keeps :
    (sys : System) (paths : List Bytes) (env : Assoc Bytes) (k v : Bytes)
    → lookup k env ≡ some v
    → lookup k (load_dotenv_if_exists sys paths env).1 ≡ some v
unfolding load_dotenv_if_exists
load_dotenv_if_exists-keeps sys paths env k v h = load_from-keeps sys k v paths [] env h
