-- ===== src/Base/Text.antt =====
-- Go strings as lists of bytes, and the parts of package strings that the program calls.
use Prim.Native.Nat.{ℕ, zero, suc, ◌+◌, ◌/◌, ◌%◌, compare, Ordering}
use Prim.Native.Char.{code}
use Prim.Native.String.{String}
use mathlib.Core.Path.{◌≡◌, refl}
use mathlib.Core.Logic.{◌↔◌}
use mathlib.Core.Bool.{Bool, true, false, ◌&&◌, ◌||◌}
use mathlib.Core.Option.{Option, none, some}
use mathlib.Core.List.{List, [], ◌∷◌, ◌++◌, reverse}
use native.Mathlib.Omega.{arith}
use ssh_bot.Base.Tests.{ltb, leb, ◌==◌, if◌then◌else◌}
use ssh_bot.Base.Lists.{length, drop}

abbrev pub Bytes : Type 0
Bytes = List ℕ

-- The UTF-8 bytes of one code point.
utf8_char : ℕ → Bytes
utf8_char c =
    if ltb c 128
    then c ∷ []
    else if ltb c 2048
    then (192 + c / 64) ∷ (128 + c % 64) ∷ []
    else if ltb c 65536
    then (224 + c / 4096) ∷ (128 + c / 64 % 64) ∷ (128 + c % 64) ∷ []
    else (240 + c / 262144) ∷ (128 + c / 4096 % 64) ∷ (128 + c / 64 % 64) ∷ (128 + c % 64) ∷ []

-- The bytes of a literal of the source, which is UTF-8.
unfoldable pub utf8 : String → Bytes
unfolding utf8_char
utf8 String.[] = []
utf8 (String.◌∷◌ c s) = utf8_char (code c) ++ utf8 s

-- s == t
unfoldable pub beq : Bytes → Bytes → Bool
beq [] [] = true
beq [] (y ∷ ys) = false
beq (x ∷ xs) [] = false
beq (x ∷ xs) (y ∷ ys) = x == y && beq xs ys

pub beq_iff : (s t : Bytes) → (beq s t ≡ true) ↔ (s ≡ t)
unfolding beq
beq_iff [] [] = ground arith
beq_iff [] (y ∷ ys) = ground arith
beq_iff (x ∷ xs) [] = ground arith
beq_iff (x ∷ xs) (y ∷ ys) = ground (arith, beq_iff xs ys)

pub beq_refl : (s : Bytes) → beq s s ≡ true
beq_refl s = (beq_iff s s).1 refl

-- strings.HasPrefix(s, p)
unfoldable pub has_prefix : Bytes → Bytes → Bool
has_prefix s [] = true
has_prefix [] (y ∷ p) = false
has_prefix (x ∷ s) (y ∷ p) = x == y && has_prefix s p

-- strings.TrimPrefix(s, p)
unfoldable pub trim_prefix : Bytes → Bytes → Bytes
unfolding has_prefix
trim_prefix s p = if has_prefix s p then drop (length p) s else s

pub has_prefix-append : (p s : Bytes) → has_prefix (p ++ s) p ≡ true
unfolding has_prefix
has_prefix-append [] s = refl
has_prefix-append (x ∷ p) s = ground (arith, has_prefix-append p s)

abbrev is_ascii_space : ℕ → Bool
is_ascii_space c = leb 9 c && leb c 13 || c == 32

-- The size of the white space at the head of a text, 0 where there is none: the code points for
-- which unicode.IsSpace holds, in UTF-8.
space_at : ℕ → Bytes → ℕ
space_at a (b ∷ c ∷ s) =
    if is_ascii_space a
    then 1
    else if a == 0xc2 && (b == 0x85 || b == 0xa0)
    then 2
    else if a == 0xe1 && b == 0x9a && c == 0x80
    then 3
    else if a == 0xe2
        && b == 0x80
        && (leb 0x80 c && leb c 0x8a || c == 0xa8 || c == 0xa9 || c == 0xaf)
    then 3
    else if a == 0xe2 && b == 0x81 && c == 0x9f
    then 3
    else if a == 0xe3 && b == 0x80 && c == 0x80
    then 3
    else 0
space_at a (b ∷ []) =
    if is_ascii_space a then 1 else if a == 0xc2 && (b == 0x85 || b == 0xa0) then 2 else 0
space_at a [] = if is_ascii_space a then 1 else 0

-- Drops `skip` bytes that belong to a space already seen, then further spaces.
strip_left : ℕ → Bytes → Bytes
strip_left skip [] = []
strip_left (suc skip) (a ∷ s) = strip_left skip s
strip_left zero (a ∷ s) = elim (space_at a s) [ zero ↦ a ∷ s | suc n ↦ strip_left n s ]

-- The same for the white space at the end, on the reversed text.
space_before : ℕ → Bytes → ℕ
space_before z (y ∷ x ∷ s) =
    if is_ascii_space z
    then 1
    else if y == 0xc2 && (z == 0x85 || z == 0xa0)
    then 2
    else if x == 0xe1 && y == 0x9a && z == 0x80
    then 3
    else if x == 0xe2
        && y == 0x80
        && (leb 0x80 z && leb z 0x8a || z == 0xa8 || z == 0xa9 || z == 0xaf)
    then 3
    else if x == 0xe2 && y == 0x81 && z == 0x9f
    then 3
    else if x == 0xe3 && y == 0x80 && z == 0x80
    then 3
    else 0
space_before z (y ∷ []) =
    if is_ascii_space z then 1 else if y == 0xc2 && (z == 0x85 || z == 0xa0) then 2 else 0
space_before z [] = if is_ascii_space z then 1 else 0

strip_right : ℕ → Bytes → Bytes
strip_right skip [] = []
strip_right (suc skip) (z ∷ s) = strip_right skip s
strip_right zero (z ∷ s) = elim (space_before z s) [ zero ↦ z ∷ s | suc n ↦ strip_right n s ]

-- strings.TrimSpace
unfoldable pub trim_space : Bytes → Bytes
unfolding strip_left strip_right space_at space_before
trim_space s = reverse (strip_right 0 (reverse (strip_left 0 s)))

abbrev emit_word : Bytes → List Bytes → List Bytes
emit_word [] words = words
emit_word (c ∷ w) words = (c ∷ w) ∷ words

-- The words behind the part `w` of one.
fields_from : ℕ → Bytes → Bytes → List Bytes
fields_from skip w [] = emit_word w []
fields_from (suc skip) w (a ∷ s) = fields_from skip w s
fields_from zero w (a ∷ s) = elim (space_at a s) [
  | zero ↦ fields_from zero (w ++ a ∷ []) s
  | suc n ↦ emit_word w (fields_from n [] s)
]

-- strings.Fields
unfoldable pub fields : Bytes → List Bytes
unfolding fields_from space_at
fields s = fields_from 0 [] s

-- The place of the first byte `b` in a text, `none` for -1.
unfoldable pub index_byte : ℕ → Bytes → Option ℕ
index_byte b [] = none
index_byte b (c ∷ s) = elim (index_byte b s) [
  | none ↦ if c == b then some 0 else none
  | some i ↦ if c == b then some 0 else some (suc i)
]

-- a < b, the order of Go strings
unfoldable pub bytes_lt : Bytes → Bytes → Bool
bytes_lt s [] = false
bytes_lt [] (y ∷ t) = true
bytes_lt (x ∷ s) (y ∷ t) = elim (compare x y) [
  | Ordering.lt ↦ true
  | Ordering.eq ↦ bytes_lt s t
  | Ordering.gt ↦ false
]

-- strings.Join
abbrev pub join : List Bytes → Bytes → Bytes
join [] sep = []
join (p ∷ []) sep = p
join (p ∷ q ∷ ps) sep = p ++ sep ++ join (q ∷ ps) sep

cons_line : ℕ → List Bytes → List Bytes
cons_line c [] = (c ∷ []) ∷ []
cons_line c (l ∷ ls) = (c ∷ l) ∷ ls

-- strings.Split at line feeds
pub split_lines : Bytes → List Bytes
unfolding cons_line
split_lines [] = [] ∷ []
split_lines (c ∷ s) = let rest = split_lines s in if c == b'\n' then [] ∷ rest else cons_line c rest
