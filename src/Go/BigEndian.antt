-- ===== src/Go/BigEndian.antt =====
-- `binary.BigEndian`: fixed numbers of bytes, the highest first.
use mathlib.Core.List.{append_assoc}
use go_iroh_experiments.Base.{
  ℕ, zero, suc, ◌+◌, ◌*◌, ◌/◌, ◌%◌, ◌<◌, ◌≡◌, refl, ap, ap₂, ◌∙◌, [], ◌∷◌, ◌++◌, Option, none, some,
  arith, length, length-append, Bytes,
}

-- The lowest `w` bytes of `x`.
unfoldable pub big_endian : ℕ → ℕ → Bytes
big_endian zero x = []
big_endian (suc w) x = big_endian w (x / 256) ++ x % 256 ∷ []

abbrev pub word_limit : ℕ → ℕ
word_limit zero = 1
word_limit (suc w) = 256 * word_limit w

-- `binary.Read` of a word of `w` bytes, with the value of the bytes before them.
unfoldable pub read_word : ℕ → ℕ → Bytes → Option (ℕ × Bytes)
read_word zero acc bs = some (acc, bs)
read_word (suc w) acc [] = none
read_word (suc w) acc (b ∷ bs) = read_word w (acc * 256 + b) bs

pub length-big_endian : (w x : ℕ) → length (big_endian w x) ≡ w
unfolding big_endian
length-big_endian zero x = refl
length-big_endian (suc w) x =
    omega
      (arith, length-append (big_endian w (x / 256)) (x % 256 ∷ []), length-big_endian w (x / 256))

read_word-append :
    (w x k acc : ℕ) (rest : Bytes)
    → x < word_limit w
    → read_word (w + k) acc (big_endian w x ++ rest) ≡ read_word k (acc * word_limit w + x) rest
unfolding read_word big_endian
read_word-append zero x k acc rest h =
    ap₂ (λ (j a : ℕ). read_word j a rest) (omega arith) (omega arith)
read_word-append (suc w) x k acc rest h =
    let shift : suc w + k ≡ w + suc k = omega arith in
    rw
      (shift, append_assoc, read_word-append w (x / 256) (suc k) acc (x % 256 ∷ rest) (omega arith))
      (ap (λ (a : ℕ). read_word k a rest) (grind arith))

pub read-big_endian :
    (w x : ℕ) (rest : Bytes)
    → x < word_limit w
    → read_word w 0 (big_endian w x ++ rest) ≡ some (x, rest)
unfolding read_word
read-big_endian w x rest h =
    let none_left : w ≡ w + 0 = omega arith in
    ap (λ (j : ℕ). read_word j 0 (big_endian w x ++ rest)) none_left
    ∙ read_word-append w x 0 0 rest h
    ∙ ap (λ (a : ℕ). some (a, rest)) (omega arith)
