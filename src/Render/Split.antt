-- ===== src/Render/Split.antt =====
-- `SplitLongBody` of internal/render/renderer.go. The loop over the rest takes at least one byte in
-- every round, so its length is fuel enough.
use ssh_bot.Base.{
  ℕ, zero, suc, ◌≤◌, ◌<◌, ◌≡◌, refl, ap, ◌∙◌, inl, inr, Option, none, some, List, [], ◌∷◌, ◌++◌,
  arith, ◌==◌, ltb, leb, ltb→lt, ltb_false→le, if◌then◌else◌, Bool-cases, Bytes, length, take, drop,
  length-take, length-drop, take-append-drop, append-nil, leb→le, All,
}

abbrev pub soft : ℕ
soft = 20000

abbrev pub chunk_size : ℕ
chunk_size = 18000

later_index : ℕ → ℕ → Option ℕ → Option ℕ
later_index b c (some i) = some (suc i)
later_index b c none = if c == b then some 0 else none

-- indexByteFromEnd: the last place of the byte; `none` is -1
pub index_byte_from_end : Bytes → ℕ → Option ℕ
unfolding later_index
index_byte_from_end [] b = none
index_byte_from_end (c ∷ s) b = later_index b c (index_byte_from_end s b)

-- cut := chunk; if nl > 0 { cut = nl }
cut_at : ℕ → Option ℕ → ℕ
cut_at chunk none = chunk
cut_at chunk (some nl) = if ltb 0 nl then nl else chunk

chunks : (chunk : ℕ) → ℕ → Bytes → List Bytes
unfolding cut_at
chunks chunk zero rest = []
chunks chunk (suc fuel) rest =
    let cut = cut_at chunk (index_byte_from_end (take chunk rest) b'\n') in
    let more = chunks chunk fuel (drop cut rest) in
    if ltb chunk (length rest)
    then take cut rest ∷ more
    else (elim rest [ [] ↦ [] | c ∷ s ↦ (c ∷ s) ∷ [] ])

-- SplitLongBody, at the accumulated text
pub split_long_body : Bytes → Bytes × List Bytes
unfolding chunks
split_long_body full =
    if leb (length full) soft
    then (full, [])
    else (take soft full, chunks chunk_size (length full) (drop soft full))

abbrev pub concat : List Bytes → Bytes
concat [] = []
concat (s ∷ ss) = s ++ concat ss

-- A threaded reply is not empty and within the chunk size.
abbrev pub IsChunk : ℕ → Bytes → Type 0
IsChunk chunk s = (0 < length s) × (length s ≤ chunk)

later_index-lt :
    (b c n : ℕ) (o : Option ℕ) (i : ℕ)
    → ((j : ℕ) → o ≡ some j → j < n)
    → later_index b c o ≡ some i
    → i < suc n
unfolding index_byte_from_end
later_index-lt b c n none i below h = ground arith
later_index-lt b c n (some j) i below h = ground (arith, below j refl)

index-lt : (s : Bytes) (b i : ℕ) → index_byte_from_end s b ≡ some i → i < length s
unfolding index_byte_from_end
index-lt [] b i h = absurd (ground arith)
index-lt (c ∷ s) b i h =
    later_index-lt b c (length s) (index_byte_from_end s b) i (λ j e. index-lt s b j e) h

cut_at_bounds :
    (chunk : ℕ) (o : Option ℕ)
    → 0 < chunk
    → ((j : ℕ) → o ≡ some j → j < chunk)
    → (0 < cut_at chunk o) × (cut_at chunk o ≤ chunk)
unfolding chunks
cut_at_bounds chunk none p below = (p, omega arith)
cut_at_bounds chunk (some nl) p below = ground (arith, below nl refl)

-- Where the text is cut: behind its first byte and not past the chunk.
cut_bounds :
    (chunk : ℕ) (rest : Bytes)
    → 0 < chunk
    → (0 < cut_at chunk (index_byte_from_end (take chunk rest) b'\n'))
      × (cut_at chunk (index_byte_from_end (take chunk rest) b'\n') ≤ chunk)
cut_bounds chunk rest p =
    cut_at_bounds chunk _ p
      (λ j e. omega (arith, index-lt (take chunk rest) b'\n' j e, length-take chunk rest))

last-IsChunk :
    (chunk : ℕ) (rest : Bytes)
    → length rest ≤ chunk
    → (concat (elim rest [ [] ↦ [] | c ∷ s ↦ (c ∷ s) ∷ [] ]) ≡ rest)
      × All (IsChunk chunk) (elim rest [ [] ↦ [] | c ∷ s ↦ (c ∷ s) ∷ [] ])
last-IsChunk chunk [] h = (refl, tt)
last-IsChunk chunk (c ∷ s) h = (append-nil (c ∷ s), ((omega arith, h), tt))

chunks_lem :
    (chunk : ℕ) (fuel : ℕ) (rest : Bytes)
    → 0 < chunk
    → length rest ≤ fuel
    → (concat (chunks chunk fuel rest) ≡ rest) × All (IsChunk chunk) (chunks chunk fuel rest)
unfolding chunks
chunks_lem chunk zero [] p h = (refl, tt)
chunks_lem chunk zero (c ∷ s) p h = absurd (omega arith)
chunks_lem chunk (suc fuel) rest p h = elim (Bool-cases (ltb chunk (length rest))) [
  | inr short ↦ rw short (last-IsChunk chunk rest (ltb_false→le _ _ short))
  | inl long ↦
      let cut = cut_at chunk (index_byte_from_end (take chunk rest) b'\n') in
      let (pos, within) = cut_bounds chunk rest p in
      let (joined, each) =
        chunks_lem chunk fuel (drop cut rest) p (omega (arith, length-drop cut rest)) in
      rw long (
        ap (λ (l : Bytes). take cut rest ++ l) joined ∙ take-append-drop cut rest,
        (
          (
            omega (arith, length-take cut rest, ltb→lt _ _ long),
            omega (arith, length-take cut rest),
          ),
          each,
        ),
      )
]

-- Nothing is lost or moved when a long answer is split: the part in the card and the replies join
-- to the text. The part in the card is at most `soft` bytes, and every reply is at least one byte
-- and at most `chunk_size`.
pub split_long_body_lem :
    (full : Bytes)
    → ((split_long_body full).0 ++ concat (split_long_body full).1 ≡ full)
      × (length (split_long_body full).0 ≤ soft)
      × All (IsChunk chunk_size) (split_long_body full).1
unfolding split_long_body
split_long_body_lem full = elim (Bool-cases (leb (length full) soft)) [
  | inl e ↦ rw e (append-nil full, leb→le _ _ e, tt)
  | inr e ↦
      let (joined, each) =
        chunks_lem chunk_size (length full) (drop soft full) (omega arith)
          (omega (arith, length-drop soft full)) in
      rw e (
        ap (λ (l : Bytes). take soft full ++ l) joined ∙ take-append-drop soft full,
        omega (arith, length-take soft full),
        each,
      )
]
