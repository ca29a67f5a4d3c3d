-- ===== src/Go/Int.antt =====
-- `int64` values, and `strconv.ParseInt(s, 10, 64)`.
use go_iroh_experiments.Base.{
  ◌↔◌, ◌≤◌, ◌≡◌, ◌≢◌, ◌<◌, ◌-◌, ◌%◌, arith, ℕ, zero, suc, ◌+◌, ◌^◌, Bool, true, false, [], ◌∷◌,
  Option, none, some, ltb, leb, ◌==◌, if◌then◌else◌, Bytes,
}
use go_iroh_experiments.Go.Decimal.{
  is_digit, parse_uint, format_uint, IsNumeral, format_uint-IsNumeral, parse-format_uint,
}

-- `negsuc n` is -(n + 1).
pub data ℤ : Type 0 where
  pos : ℕ → ℤ
  negsuc : ℕ → ℤ

abbrev pub pos_part : ℤ → ℕ
pos_part (pos n) = n
pos_part (negsuc n) = 0

abbrev pub neg_part : ℤ → ℕ
neg_part (pos n) = 0
neg_part (negsuc n) = suc n

abbrev pub ltb_ℤ : ℤ → ℤ → Bool
ltb_ℤ a b = ltb (pos_part a + neg_part b) (pos_part b + neg_part a)

abbrev pub is_neg : ℤ → Bool
is_neg (pos n) = false
is_neg (negsuc n) = true

-- - n
unfoldable pub negate : ℕ → ℤ
negate zero = pos 0
negate (suc n) = negsuc n

nonneg_part : Option ℕ → Option ℤ
nonneg_part none = none
nonneg_part (some n) = if ltb n (2 ^ 63) then some (pos n) else none

neg_value : Option ℕ → Option ℤ
neg_value none = none
neg_value (some n) = if leb n (2 ^ 63) then some (negate n) else none

unfoldable pub parse_int : Bytes → Option ℤ
unfolding nonneg_part neg_value negate
parse_int [] = none
parse_int (c ∷ cs) =
    if c == b'-'
    then neg_value (parse_uint cs)
    else if c == b'+'
    then nonneg_part (parse_uint cs)
    else nonneg_part (parse_uint (c ∷ cs))

parse_int-head :
    (s : Bytes) (c : ℕ) (cs : Bytes) (n : ℕ)
    → s ≡ c ∷ cs
    → is_digit c ≡ true
    → parse_uint s ≡ some n
    → n < 2 ^ 63
    → parse_int s ≡ some (pos n)
unfolding parse_int
parse_int-head [] c cs n e d p h = absurd (ground arith)
parse_int-head (x ∷ s) c cs n e d p h = ground arith

pub parse_int-format_uint : (n : ℕ) → n < 2 ^ 63 → parse_int (format_uint n) ≡ some (pos n)
parse_int-format_uint n h =
    let r : IsNumeral n (format_uint n) = format_uint-IsNumeral n (omega arith) in
    parse_int-head (format_uint n) r.head r.rest n r.splits (r.head_digit)
      (parse-format_uint n (omega arith)) h

pub is_numeral_head : (n : ℕ) → n < 2 ^ 64 → format_uint n ≢ []
is_numeral_head n h e = ground (arith, (format_uint-IsNumeral n h).splits)

-- The int64 that has the bits of `n`.
unfoldable pub wrap_int64 : ℕ → ℤ
wrap_int64 n = let m = n % 2 ^ 64 in if ltb m (2 ^ 63) then pos m else negsuc (2 ^ 64 - m - 1)

-- `%d`
unfoldable pub format_int : ℤ → Bytes
format_int (pos n) = format_uint n
format_int (negsuc n) = b'-' ∷ format_uint (suc n)

-- `==` on int64
abbrev pub eq_ℤ : ℤ → ℤ → Bool
eq_ℤ a b = (pos_part a + neg_part b) == (pos_part b + neg_part a)

pub eq_ℤ_iff : (a b : ℤ) → (eq_ℤ a b ≡ true) ↔ (a ≡ b)
eq_ℤ_iff a b = ground arith

infix 50 ◌≤ℤ◌
abbrev pub ◌≤ℤ◌ : ℤ → ℤ → Type 0
a ≤ℤ b = pos_part a + neg_part b ≤ pos_part b + neg_part a
