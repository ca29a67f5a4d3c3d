-- ===== src/Go/Decimal.antt =====
-- `strconv.FormatInt` and `%d` of a number that is not negative, and `strconv.ParseUint(s, 10, 64)`.
use mathlib.Core.List.{append_assoc, append-nil}
use go_iroh_experiments.Base.{
  ℕ, zero, suc, ◌+◌, ◌-◌, ◌*◌, ◌/◌, ◌%◌, ◌^◌, ◌<◌, ◌≡◌, refl, sym, ap, ◌∙◌, Bool, true, false, ◌&&◌,
  [], ◌∷◌, ◌++◌, Option, none, some, arith, ltb, leb, if◌then◌else◌, Bytes, AreAscii, All,
  All-append, Bool-cases, inl, inr,
}

-- At most `k + 1` digits.
unfoldable pub digits : ℕ → ℕ → Bytes
digits zero n = (b'0' + n) ∷ []
digits (suc k) n =
    let rest = digits k (n / 10) ++ (b'0' + n % 10) ∷ [] in
    if ltb n 10 then (b'0' + n) ∷ [] else rest

-- Twenty digits are enough for 64 bits.
unfoldable pub format_uint : ℕ → Bytes
format_uint = digits 19

abbrev pub is_digit : ℕ → Bool
is_digit c = leb b'0' c && leb c b'9'

-- A value of 2 ^ 64 or more is a range error.
unfoldable pub parse_digits : ℕ → Bytes → Option ℕ
parse_digits acc [] = some acc
parse_digits acc (c ∷ cs) =
    let next = acc * 10 + (c - b'0') in
    let rest = parse_digits next cs in
    if is_digit c then (if ltb next (2 ^ 64) then rest else none) else none

unfoldable pub parse_uint : Bytes → Option ℕ
parse_uint [] = none
parse_uint (c ∷ cs) = parse_digits 0 (c ∷ cs)

-- Whether the first thing that stops the scan is a value of 2 ^ 64 or more.
unfoldable pub is_out_of_range : ℕ → Bytes → Bool
is_out_of_range acc [] = false
is_out_of_range acc (c ∷ cs) =
    let next = acc * 10 + (c - b'0') in
    let rest = is_out_of_range next cs in
    if is_digit c then (if ltb next (2 ^ 64) then rest else true) else false

-- The value that `strconv.ParseUint` returns, and whether its error is nil: on a range error the
-- value is the greatest of 64 bits, on any other it is 0.
unfoldable pub parse_uint_value : Bytes → ℕ × Bool
parse_uint_value s = elim (parse_uint s) [
  | some n ↦ (n, true)
  | none ↦ (if is_out_of_range 0 s then 2 ^ 64 - 1 else 0, false)
]

abbrev pub digits_limit : ℕ → ℕ
digits_limit zero = 10
digits_limit (suc k) = 10 * digits_limit k

parse_digits-digits :
    (k n : ℕ) (rest : Bytes)
    → n < digits_limit k
    → n < 2 ^ 64
    → parse_digits 0 (digits k n ++ rest) ≡ parse_digits n rest
unfolding parse_digits digits
parse_digits-digits zero n rest h b = ground arith
parse_digits-digits (suc k) n rest h b = ground (
  arith,
  append_assoc (digits k (n / 10)) ((b'0' + n % 10) ∷ []) rest,
  parse_digits-digits k (n / 10) ((b'0' + n % 10) ∷ rest),
)

-- The text of `n`: digits, with no leading zero unless it is "0".
pub record IsNumeral (n : ℕ) (s : Bytes) : Type 0 where
  pub head : ℕ
  pub rest : Bytes
  pub splits : s ≡ head ∷ rest
  pub head_digit : is_digit head ≡ true
  pub all_digits : All (λ d. is_digit d ≡ true) s
  pub no_leading_zero : head ≡ b'0' → (n ≡ 0) × (rest ≡ [])

one_digit : (n : ℕ) → n < 10 → IsNumeral n ((b'0' + n) ∷ [])
one_digit n h = record {
  head = b'0' + n;
  rest = [];
  splits = refl;
  head_digit = ground arith;
  all_digits = (ground arith, tt);
  no_leading_zero = λ e. (omega arith, refl);
}

digits-IsNumeral : (k n : ℕ) → n < digits_limit k → IsNumeral n (digits k n)
unfolding digits
digits-IsNumeral zero n h = one_digit n h
digits-IsNumeral (suc k) n h = elim (Bool-cases (ltb n 10)) [
  | inl small ↦ rw small (one_digit n (ground arith))
  | inr big ↦ rw big (
      let r : IsNumeral (n / 10) (digits k (n / 10)) = digits-IsNumeral k (n / 10) (omega arith) in
      record {
        head = r.head;
        rest = r.rest ++ (b'0' + n % 10) ∷ [];
        splits = ap (λ (l : Bytes). l ++ (b'0' + n % 10) ∷ []) r.splits;
        head_digit = r.head_digit;
        all_digits = All-append _ (digits k (n / 10)) _ r.all_digits (ground arith, tt);
        no_leading_zero = λ e. absurd (ground (arith, r.no_leading_zero e));
      })
]

digits-AreAscii : (s : Bytes) → All (λ d. is_digit d ≡ true) s → AreAscii s
digits-AreAscii [] h = tt
digits-AreAscii (d ∷ s) h = (ground (arith, h.0), digits-AreAscii s h.1)

pub format_uint-IsNumeral : (n : ℕ) → n < 2 ^ 64 → IsNumeral n (format_uint n)
unfolding format_uint
format_uint-IsNumeral n h = digits-IsNumeral 19 n (omega arith)

pub format_uint-AreAscii : (n : ℕ) → n < 2 ^ 64 → AreAscii (format_uint n)
format_uint-AreAscii n h = digits-AreAscii (format_uint n) (format_uint-IsNumeral n h).all_digits

parse_digits-AreAscii : (acc : ℕ) (s : Bytes) (n : ℕ) → parse_digits acc s ≡ some n → AreAscii s
unfolding parse_digits
parse_digits-AreAscii acc [] n h = tt
parse_digits-AreAscii acc (c ∷ s) n h =
    let next = acc * 10 + (c - b'0') in
    elim (Bool-cases (is_digit c)) [
      | inr other ↦ absurd (ground (arith, h))
      | inl digit ↦ elim (Bool-cases (ltb next (2 ^ 64))) [
        | inr large ↦ absurd (ground (arith, h))
        | inl small ↦ (
          ground (arith, digit),
          parse_digits-AreAscii next s n (rw (digit, parse_digits, small) at h),
        )
      ]
    ]

pub parse_uint-AreAscii : (s : Bytes) (n : ℕ) → parse_uint s ≡ some n → AreAscii s
unfolding parse_uint
parse_uint-AreAscii [] n h = tt
parse_uint-AreAscii (c ∷ s) n h = parse_digits-AreAscii 0 (c ∷ s) n h

parse_uint-cons : (s : Bytes) (c : ℕ) (cs : Bytes) → s ≡ c ∷ cs → parse_uint s ≡ parse_digits 0 s
unfolding parse_uint
parse_uint-cons [] c cs e = ground arith
parse_uint-cons (x ∷ s) c cs e = refl

pub parse-format_uint : (n : ℕ) → n < 2 ^ 64 → parse_uint (format_uint n) ≡ some n
parse-format_uint n h =
    let r : IsNumeral n (format_uint n) = format_uint-IsNumeral n h in
    parse_uint-cons (format_uint n) r.head r.rest r.splits
    ∙ unfold format_uint parse_digits in
      (ap (parse_digits 0) (sym (append-nil (digits 19 n)))
        ∙ parse_digits-digits 19 n [] (omega arith) h)
