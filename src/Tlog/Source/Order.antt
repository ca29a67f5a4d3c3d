-- ===== src/Tlog/Source/Order.antt =====
-- Keys are ordered as strings the way their numbers are.
use go_iroh_experiments.Base.{
  ℕ, zero, suc, ◌+◌, ◌*◌, ◌/◌, ◌%◌, ◌^◌, ◌<◌, ◌≡◌, ◌↔◌, refl, sym, ap, ◌∙◌, ◌&&◌, ◌||◌, [], ◌∷◌,
  ◌++◌, arith, ltb, ◌==◌, length, length-append, Bytes, equal,
}
use go_iroh_experiments.Tlog.Source.{padded, checkpoint_key_prefix, checkpoint_key, str_ltb}

str_ltb-concat :
    (xs ys : Bytes) (a b : ℕ)
    → length xs ≡ length ys
    → str_ltb (xs ++ a ∷ []) (ys ++ b ∷ []) ≡ (str_ltb xs ys || (equal xs ys && ltb a b))
unfolding str_ltb equal
str_ltb-concat [] [] a b n = ground arith
str_ltb-concat [] (y ∷ ys) a b n = absurd (omega arith)
str_ltb-concat (x ∷ xs) [] a b n = absurd (omega arith)
str_ltb-concat (x ∷ xs) (y ∷ ys) a b n = ground (arith, str_ltb-concat xs ys a b)

equal-concat :
    (xs ys : Bytes) (a b : ℕ)
    → length xs ≡ length ys
    → equal (xs ++ a ∷ []) (ys ++ b ∷ []) ≡ (equal xs ys && a == b)
unfolding equal
equal-concat [] [] a b n = ground arith
equal-concat [] (y ∷ ys) a b n = absurd (omega arith)
equal-concat (x ∷ xs) [] a b n = absurd (omega arith)
equal-concat (x ∷ xs) (y ∷ ys) a b n = ground (arith, equal-concat xs ys a b)

str_ltb-prefix : (p xs ys : Bytes) → str_ltb (p ++ xs) (p ++ ys) ≡ str_ltb xs ys
unfolding str_ltb
str_ltb-prefix [] xs ys = refl
str_ltb-prefix (c ∷ p) xs ys = ground (arith, str_ltb-prefix p xs ys)

pub length-padded : (w n : ℕ) → length (padded w n) ≡ w
unfolding padded
length-padded zero n = refl
length-padded (suc w) n =
    omega
      (arith, length-append (padded w (n / 10)) ((b'0' + n % 10) ∷ []), length-padded w (n / 10))

abbrev pub decimal_limit : ℕ → ℕ
decimal_limit zero = 1
decimal_limit (suc w) = 10 * decimal_limit w

-- Both orders at once.
pub padded_order :
    (w a b : ℕ)
    → a < decimal_limit w
    → b < decimal_limit w
    → (str_ltb (padded w a) (padded w b) ≡ ltb a b) × (equal (padded w a) (padded w b) ≡ (a == b))
unfolding padded str_ltb equal
padded_order zero a b ha hb = (ground arith, ground arith)
padded_order (suc w) a b ha hb =
    let (lt, eq) = padded_order w (a / 10) (b / 10) (omega arith) (omega arith) in
    let len : length (padded w (a / 10)) ≡ length (padded w (b / 10)) =
      length-padded w (a / 10) ∙ sym (length-padded w (b / 10)) in
    let lt_step =
      str_ltb-concat (padded w (a / 10)) (padded w (b / 10)) (b'0' + a % 10) (b'0' + b % 10) len in
    let eq_step =
      equal-concat (padded w (a / 10)) (padded w (b / 10)) (b'0' + a % 10) (b'0' + b % 10) len in
    (ground arith, ground arith)

key_order :
    (a b : ℕ) → a < 10 ^ 20 → b < 10 ^ 20 → str_ltb (checkpoint_key a) (checkpoint_key b) ≡ ltb a b
unfolding checkpoint_key
key_order a b ha hb =
    str_ltb-prefix checkpoint_key_prefix (padded 20 a) (padded 20 b)
    ∙ (padded_order 20 a b (omega arith) (omega arith)).0

-- Checkpoint keys compare, as strings, the way their sizes do, for sizes below 10 ^ 20, so for all of
-- int64; and they are equal exactly if the sizes are.
pub checkpoint_key_order :
    (a b : ℕ)
    → a < 10 ^ 20
    → b < 10 ^ 20
    → (str_ltb (checkpoint_key a) (checkpoint_key b) ≡ ltb a b)
      × ((checkpoint_key a ≡ checkpoint_key b) ↔ (a ≡ b))
checkpoint_key_order a b ha hb = (
  key_order a b ha hb,
  (
    λ e. ground (arith, key_order a b ha hb, key_order b a hb ha, key_order a a ha ha),
    λ e. ap checkpoint_key e,
  ),
)
