-- ===== src/Session/Itoa.antt =====
-- `itoa` of internal/session/store.go: digits by division, least significant first, then reversed
-- in place.
use mathlib.Core.List.{reverse, reverse-append}
use native.Mathlib.Nat.{pow-suc}
use ssh_bot.Base.{
  ℕ, zero, suc, ◌+◌, ◌-◌, ◌*◌, ◌/◌, ◌%◌, ◌^◌, ◌≤◌, ◌<◌, ◌≡◌, refl, ap, ◌∙◌, inl, inr, true, [], ◌∷◌,
  ◌++◌, ◌||◌, arith, ◌==◌, ltb, if◌then◌else◌, Bool-cases, every_under, every_under_at, Bytes,
  length, length-append, length-reverse,
}

-- for n > 0 { buf = append(buf, byte('0'+n%10)); n /= 10 }, with fuel
digits_loop : ℕ → ℕ → Bytes → Bytes
digits_loop zero n buf = buf
digits_loop (suc fuel) n buf =
    let rest = digits_loop fuel (n / 10) (buf ++ (b'0' + n % 10) ∷ []) in
    if n == 0 then buf else rest

-- The exchange of buf[i] and buf[j] from both ends reverses the buffer. A number has at most as
-- many digits as its value, so fuel `n` is enough.
unfoldable pub itoa : ℕ → Bytes
unfolding digits_loop
itoa n = if n == 0 then b'0' ∷ [] else reverse (digits_loop n n [])

-- What a decimal text stands for, after the digits that gave `acc`.
pub value_of : ℕ → Bytes → ℕ
value_of acc [] = acc
value_of acc (c ∷ s) = value_of (acc * 10 + (c - b'0')) s

value_of-digits_loop :
    (fuel n : ℕ) (buf : Bytes)
    → n ≤ fuel
    → value_of 0 (reverse (digits_loop fuel n buf)) ≡ value_of n (reverse buf)
unfolding digits_loop value_of
value_of-digits_loop zero n buf h = ap (λ k. value_of k (reverse buf)) (omega arith)
value_of-digits_loop (suc fuel) n buf h = elim (Bool-cases (n == 0)) [
  | inl e ↦ rw e (ap (λ k. value_of k (reverse buf)) (ground arith))
  | inr e ↦ rw e (
      value_of-digits_loop fuel (n / 10) (buf ++ (b'0' + n % 10) ∷ []) (ground arith)
      ∙ ap (value_of (n / 10)) (reverse-append buf ((b'0' + n % 10) ∷ []))
      ∙ ap (λ k. value_of k (reverse buf)) (omega arith))
]

-- The text of a number stands for that number, so no digit is lost or swapped.
value_of-itoa : (n : ℕ) → value_of 0 (itoa n) ≡ n
unfolding itoa value_of
value_of-itoa n = elim (Bool-cases (n == 0)) [
  | inl e ↦ rw e (ground arith)
  | inr e ↦ rw e (value_of-digits_loop n n [] (omega arith))
]

length-digits_loop :
    (fuel n e : ℕ) (buf : Bytes) → n < 10 ^ e → length (digits_loop fuel n buf) ≤ length buf + e
unfolding digits_loop
length-digits_loop zero n e buf h = omega arith
length-digits_loop (suc fuel) n zero buf h = ground arith
length-digits_loop (suc fuel) n (suc e) buf h = elim (Bool-cases (n == 0)) [
  | inl z ↦ rw z (omega arith)
  | inr z ↦
      let b : n < 10 ^ e * 10 = rw pow-suc at h in
      rw z (
        omega (
          arith,
          length-digits_loop fuel (n / 10) e (buf ++ (b'0' + n % 10) ∷ []) (omega arith),
          length-append buf ((b'0' + n % 10) ∷ []),
        ))
]

-- A number below ten to the `e`, `e` positive, has at most `e` digits.
pub length-itoa-le : (n e : ℕ) → n < 10 ^ e → 0 < e → length (itoa n) ≤ e
unfolding itoa
length-itoa-le n e h p = elim (Bool-cases (n == 0)) [
  | inl z ↦ rw z (omega arith)
  | inr z ↦ rw (z, length-reverse) (omega (arith, length-digits_loop n n e [] h))
]

two_digits : every_under (λ n. ltb n 10 || length (itoa n) == 2) 100 ≡ true
unfolding every_under itoa
two_digits = refl

pub length-itoa_two : (n : ℕ) → 10 ≤ n → n < 100 → length (itoa n) ≡ 2
length-itoa_two n lo hi =
    ground (arith, every_under_at (λ n. ltb n 10 || length (itoa n) == 2) 100 two_digits n hi)
