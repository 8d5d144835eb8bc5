-- ===== src/Render/Card/Trims.antt =====
-- The size limit in `BuildCardJSON` of internal/render/state.go: how the retry with a shorter text
-- ends, and when it does not.
use ssh_bot.Base.{
  ℕ, zero, suc, ◌≤◌, ◌<◌, ◌≡◌, refl, ap, ◌∙◌, ◌⊎◌, inl, inr, false, none, some, [], ◌∷◌, ◌++◌,
  arith, ltb, lt→ltb, ltb→lt, ltb_false→le, le→ltb_false, Bool-cases, Option-cases, Bytes, utf8,
  length, take, length-append, length-take, take-append_self,
}
use ssh_bot.Render.Card.{
  StateSnapshot, Format, max_card_json_bytes, keep, is_empty, trim_text_for_size, truncation_mark,
  card, Built, built, encode_failed, out_of_fuel, build_card_json,
}

-- The snapshot that the retry is made with.
abbrev pub trimmed : StateSnapshot → StateSnapshot
trimmed s = record s { body = take keep s.body ++ truncation_mark }

is_empty-of_long : (b : Bytes) (n : ℕ) → n < length b → is_empty b ≡ false
is_empty-of_long [] n h = absurd (omega arith)
is_empty-of_long (c ∷ b) n h = refl

pub trim_long : (s : StateSnapshot) → keep < length s.body → trim_text_for_size s ≡ some (trimmed s)
unfolding trim_text_for_size
trim_long s h = rw (is_empty-of_long s.body keep h, lt→ltb _ _ h)

trim_short : (s : StateSnapshot) → length s.body ≤ keep → trim_text_for_size s ≡ none
unfolding trim_text_for_size
trim_short s h = elim (Bool-cases (is_empty s.body)) [
  | inl e ↦ rw e
  | inr e ↦ rw (e, le→ltb_false _ _ h)
]

mark-ne-nil : 0 < length truncation_mark
unfolding truncation_mark utf8
mark-ne-nil = omega arith

length-kept : (s : StateSnapshot) → keep < length s.body → length (take keep s.body) ≡ keep
length-kept s h = omega (arith, length-take keep s.body)

-- Trimming a trimmed text again gives the same text: with its mark it is over the limit once more.
trim_trimmed :
    (s : StateSnapshot) → keep < length s.body → trim_text_for_size (trimmed s) ≡ some (trimmed s)
trim_trimmed s h =
    trim_long (trimmed s) (
      omega (arith, length-append (take keep s.body) truncation_mark, length-kept s h, mark-ne-nil))
    ∙ ap (λ (b : Bytes). some (record s { body = b ++ truncation_mark }))
        (take-append_self keep (take keep s.body) truncation_mark (length-kept s h))

module _ (fmt : Format) where
  -- The encoder gives the card of `s` more bytes than the limit.
  abbrev pub IsTooBig : StateSnapshot → Type 0
  IsTooBig s =
      (raw : Bytes) × (fmt.encode (card fmt s) ≡ some raw) × (max_card_json_bytes < length raw)

  build_too_big :
      (fuel : ℕ) (s s' : StateSnapshot)
      → IsTooBig s
      → trim_text_for_size s ≡ some s'
      → build_card_json fmt (suc fuel) s ≡ build_card_json fmt fuel s'
  unfolding build_card_json
  build_too_big fuel s s' (raw, e, big) t = rw (e, lt→ltb _ _ big, t)

  trimmed_forever :
      (s : StateSnapshot)
      → keep < length s.body
      → IsTooBig (trimmed s)
      → (fuel : ℕ) → build_card_json fmt fuel (trimmed s) ≡ out_of_fuel
  unfolding build_card_json
  trimmed_forever s h big zero = refl
  trimmed_forever s h big (suc fuel) =
      build_too_big fuel (trimmed s) (trimmed s) big (trim_trimmed s h)
      ∙ trimmed_forever s h big fuel

-- A text of more than `keep` bytes whose card is over the limit, also with the text cut to `keep`
-- bytes, makes BuildCardJSON call itself without end: no depth of calls is enough.
pub build_card_json-diverges :
    (fmt : Format) (s : StateSnapshot)
    → keep < length s.body
    → IsTooBig fmt s
    → IsTooBig fmt (trimmed s)
    → (fuel : ℕ) → build_card_json fmt fuel s ≡ out_of_fuel
unfolding build_card_json
build_card_json-diverges fmt s h big again zero = refl
build_card_json-diverges fmt s h big again (suc fuel) =
    build_too_big fmt fuel s (trimmed s) big (trim_long s h) ∙ trimmed_forever fmt s h again fuel

-- What a build ends with at a snapshot: the encoder's error, or the bytes of its card, which are
-- over the limit only where the text is too short to be trimmed.
pub data Sends (fmt : Format) (s : StateSnapshot) (b : Built) : Type 0 where
  refuses : fmt.encode (card fmt s) ≡ none → b ≡ encode_failed → Sends fmt s b
  sends :
      (raw : Bytes)
      → fmt.encode (card fmt s) ≡ some raw
      → (length raw ≤ max_card_json_bytes) ⊎ (length s.body ≤ keep)
      → b ≡ built raw
      → Sends fmt s b

-- One level of the recursion: it sends the card of its own snapshot, or goes on with the trimmed one.
build_step :
    (fmt : Format) (fuel : ℕ) (s : StateSnapshot)
    → Sends fmt s (build_card_json fmt (suc fuel) s)
      ⊎ (keep < length s.body)
        × IsTooBig fmt s
        × (build_card_json fmt (suc fuel) s ≡ build_card_json fmt fuel (trimmed s))
unfolding build_card_json
build_step fmt fuel s = elim (Option-cases (fmt.encode (card fmt s))) [
  | inl e ↦ inl (refuses e (rw e))
  | inr (raw, e) ↦ elim (Bool-cases (ltb max_card_json_bytes (length raw))) [
    | inr small ↦ inl (sends raw e (inl (ltb_false→le _ _ small)) (rw (e, small)))
    | inl big ↦ elim (Bool-cases (ltb keep (length s.body))) [
      | inr short ↦ inl (
          sends raw e (inr (ltb_false→le _ _ short))
            (rw (e, big, trim_short s (ltb_false→le _ _ short))))
      | inl long ↦
          inr
            (ltb→lt _ _ long, (raw, e, ltb→lt _ _ big), rw (e, big, trim_long s (ltb→lt _ _ long)))
    ]
  ]
]

-- In every other case two levels of calls are enough: the bytes sent are those of the snapshot's
-- card or of the trimmed one's, within the limit unless the text was too short to be trimmed, or
-- the encoder has failed.
pub build_card_json-Sends :
    (fmt : Format) (s : StateSnapshot)
    → (keep < length s.body → ¬ IsTooBig fmt (trimmed s))
    → (fuel : ℕ)
    → Sends fmt s (build_card_json fmt (suc (suc fuel)) s)
      ⊎ Sends fmt (trimmed s) (build_card_json fmt (suc (suc fuel)) s)
build_card_json-Sends fmt s fits fuel = elim (build_step fmt (suc fuel) s) [
  | inl done ↦ inl done
  | inr (long, big, next) ↦ elim (build_step fmt fuel (trimmed s)) [
    | inl done ↦ inr (rw next done)
    | inr (long', big', _) ↦ absurd (fits long big')
  ]
]
