-- ===== src/Builtin/Datetime/Sums.antt =====
-- What parseISODuration of internal/tool/builtin/datetime.go makes of a well-formed duration.
use ssh_bot.Base.{
  ℕ, ◌+◌, ◌-◌, ◌*◌, ◌%◌, ◌<◌, ◌≡◌, refl, ap, subst, ◌∙◌, arith, Bool, true, false, none, some, List,
  [], ◌∷◌, ◌++◌, ◌==◌, Bytes, All, length,
}
use ssh_bot.Builtin.Datetime.{word, nanoseconds, is_digit, components, parse_iso_duration}

abbrev pub Digits : Bytes → Type 0
Digits s = All (λ c. is_digit c ≡ true) s

-- What a text of digits stands for, after the digits that gave `acc`.
unfoldable pub decimal : ℕ → Bytes → ℕ
decimal acc [] = acc
decimal acc (c ∷ s) = decimal (acc * 10 + (c - b'0')) s

-- The number that the inner loop has read behind `n`, in 64 bits.
wrapped : ℕ → Bytes → ℕ
wrapped n [] = n
wrapped n (c ∷ s) = wrapped ((n * 10 + (c - b'0')) % word) s

wrapped-decimal :
    (s : Bytes) (a b : ℕ) → a % word ≡ b % word → wrapped a s % word ≡ decimal b s % word
unfolding wrapped decimal
wrapped-decimal [] a b h = h
wrapped-decimal (c ∷ s) a b h =
    wrapped-decimal s ((a * 10 + (c - b'0')) % word) (b * 10 + (c - b'0')) (omega (arith, h))

-- The units of a duration.
pub data TimeUnit : Type 0 where
  day hour minute second : TimeUnit

abbrev pub letter : TimeUnit → ℕ
letter day = b'D'
letter hour = b'H'
letter minute = b'M'
letter second = b'S'

-- in nanoseconds
abbrev pub scale : TimeUnit → ℕ
scale day = 86400000000000
scale hour = 3600000000000
scale minute = 60000000000
scale second = 1000000000

abbrev pub is_clock : TimeUnit → Bool
is_clock day = false
is_clock hour = true
is_clock minute = true
is_clock second = true

-- A number, given by its first digit and the others, with its unit.
pub record Component : Type 0 where
  pub first : ℕ
  pub others : Bytes
  pub unit : TimeUnit

-- The digits are digits, and the unit stands on its side of the T.
abbrev pub IsComponent : Bool → Component → Type 0
IsComponent in_time c = Digits (c.first ∷ c.others) × (is_clock c.unit ≡ in_time)

pub text : List Component → Bytes → Bytes
text [] rest = rest
text (c ∷ cs) rest = c.first ∷ (c.others ++ letter c.unit ∷ text cs rest)

unfoldable pub sum : List Component → ℕ
sum [] = 0
sum (c ∷ cs) = decimal 0 (c.first ∷ c.others) * scale c.unit + sum cs

unit_read :
    (u : TimeUnit) (n total : ℕ) (s : Bytes)
    → components (is_clock u) (some n) total (letter u ∷ s)
      ≡ components (is_clock u) none ((total + n * scale u % word) % word) s
unfolding components
unit_read day n total s = refl
unit_read hour n total s = refl
unit_read minute n total s = refl
unit_read second n total s = refl

rest_read :
    (ds : Bytes) (in_time : Bool) (n total : ℕ) (s : Bytes)
    → Digits ds
    → components in_time (some n) total (ds ++ s) ≡ components in_time (some (wrapped n ds)) total s
unfolding components wrapped
rest_read [] in_time n total s h = refl
rest_read (c ∷ ds) in_time n total s h =
    rw h.0 (rest_read ds in_time ((n * 10 + (c - b'0')) % word) total s h.1)

digit_not_t : (c : ℕ) → is_digit c ≡ true → (c == b'T') ≡ false
unfolding is_digit
digit_not_t c h = ground (arith, h)

first_read :
    (c : ℕ) (in_time : Bool) (total : ℕ) (s : Bytes)
    → is_digit c ≡ true
    → components in_time none total (c ∷ s) ≡ components in_time (some (c - b'0')) total s
unfolding components
first_read c in_time total s h = rw (not_t, h)
  where
    not_t : (c == b'T') ≡ false
    not_t = digit_not_t c h

scaled :
    (u : TimeUnit) (x y total : ℕ)
    → x % word ≡ y % word
    → (total + x * scale u % word) % word ≡ (total + y * scale u) % word
scaled day x y total h = omega (arith, h)
scaled hour x y total h = omega (arith, h)
scaled minute x y total h = omega (arith, h)
scaled second x y total h = omega (arith, h)

text_read :
    (cs : List Component) (in_time : Bool) (total : ℕ) (rest : Bytes)
    → All (IsComponent in_time) cs
    → total < word
    → components in_time none total (text cs rest)
      ≡ components in_time none ((total + sum cs) % word) rest
unfolding text sum
text_read [] in_time total rest h small =
    ap (λ t. components in_time none t rest) (omega (arith, small))
text_read (c ∷ cs) in_time total rest ((ds, side), h) small =
    let s = text cs rest in
    let n = wrapped (c.first - b'0') c.others in
    let total' = (total + n * scale c.unit % word) % word in
    let same : n % word ≡ decimal 0 (c.first ∷ c.others) % word =
      unfold decimal in
      wrapped-decimal c.others (c.first - b'0') (0 * 10 + (c.first - b'0')) (omega arith) in
    let sums = scaled c.unit n (decimal 0 (c.first ∷ c.others)) total same in
    first_read c.first in_time total (c.others ++ letter c.unit ∷ s) ds.0
    ∙ rest_read c.others in_time (c.first - b'0') total (letter c.unit ∷ s) ds.1
    ∙ subst (λ b. components b (some n) total (letter c.unit ∷ s) ≡ components b none total' s) side
        (unit_read c.unit n total s)
    ∙ text_read cs in_time total' rest h (omega arith)
    ∙ ap (λ t. components in_time none t rest) (omega (arith, sums))

-- The part from the T on, where there is one.
pub time_part : List Component → Bytes
unfolding text
time_part [] = []
time_part (c ∷ cs) = b'T' ∷ text (c ∷ cs) []

time_part_read :
    (times : List Component) (total : ℕ)
    → All (IsComponent true) times
    → total < word
    → components false none total (time_part times) ≡ nanoseconds ((total + sum times) % word)
unfolding components sum time_part
time_part_read [] total h small = ap nanoseconds (omega (arith, small))
time_part_read (c ∷ cs) total h small = text_read (c ∷ cs) true total [] h small

started_read :
    (days times : List Component)
    → 0 < length days + length times
    → parse_iso_duration (b'P' ∷ text days (time_part times))
      ≡ components false none 0 (text days (time_part times))
unfolding parse_iso_duration text time_part
started_read [] [] h = absurd (omega (arith, h))
started_read [] (c ∷ cs) h = refl
started_read (c ∷ cs) times h = refl

-- A duration of days and, behind a T, of hours, minutes and seconds in any order, with one of them at
-- least, is parsed to the sum of its parts in nanoseconds, modulo 2^64.
pub parse_iso_duration-text :
    (days times : List Component)
    → All (IsComponent false) days
    → All (IsComponent true) times
    → 0 < length days + length times
    → parse_iso_duration (b'P' ∷ text days (time_part times))
      ≡ nanoseconds ((sum days + sum times) % word)
parse_iso_duration-text days times d t h =
    started_read days times h
    ∙ text_read days false 0 (time_part times) d (omega arith)
    ∙ time_part_read times ((0 + sum days) % word) t (omega arith)
    ∙ ap nanoseconds (omega arith)
