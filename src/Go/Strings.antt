-- ===== src/Go/Strings.antt =====
-- The functions of `strings` and `bytes` that the program calls.
use go_iroh_experiments.Base.{
  All, Bool-cases, inl, inr, ℕ, ◌≡◌, refl, Bool, true, false, ◌&&◌, List, [], ◌∷◌, ◌++◌, Option,
  none, some, arith, ◌==◌, if◌then◌else◌, ltb, Bytes,
}

-- `strings.TrimPrefix(s, "0x")`
unfoldable pub trim_0x : Bytes → Bytes
trim_0x [] = []
trim_0x (a ∷ []) = a ∷ []
trim_0x (a ∷ b ∷ s) = if a == b'0' && b == b'x' then s else a ∷ b ∷ s

-- `strings.Contains(s, "\n")`
unfoldable pub has_newline : Bytes → Bool
has_newline [] = false
has_newline (c ∷ cs) = if c == b'\n' then true else has_newline cs

unfoldable pub add_to_first : ℕ → List Bytes → List Bytes
add_to_first c [] = (c ∷ []) ∷ []
add_to_first c (l ∷ ls) = (c ∷ l) ∷ ls

-- `strings.Split(s, "\n")`
unfoldable pub split_lines : Bytes → List Bytes
unfolding add_to_first
split_lines [] = [] ∷ []
split_lines (c ∷ cs) = let ls = split_lines cs in if c == b'\n' then [] ∷ ls else add_to_first c ls

pub split_lines-line :
    (l rest : Bytes)
    → has_newline l ≡ false
    → split_lines (l ++ (b'\n' ∷ rest)) ≡ l ∷ split_lines rest
unfolding split_lines has_newline
split_lines-line [] rest h = refl
split_lines-line (c ∷ l) rest h = ground (arith, split_lines-line l rest)

pub split_lines_last : (l : Bytes) → has_newline l ≡ false → split_lines l ≡ l ∷ []
unfolding split_lines has_newline
split_lines_last [] h = refl
split_lines_last (c ∷ l) h = ground (arith, split_lines_last l)

-- `strings.TrimSuffix(s, "\n")` where `strings.HasSuffix(s, "\n")`; `none` where it has not.
unfoldable pub trim_newline : Bytes → Option Bytes
trim_newline [] = none
trim_newline (c ∷ []) = if c == b'\n' then some [] else none
trim_newline (c ∷ d ∷ cs) = elim (trim_newline (d ∷ cs)) [ none ↦ none | some r ↦ some (c ∷ r) ]

pub trim_newline-line : (s : Bytes) → trim_newline (s ++ b'\n' ∷ []) ≡ some s
unfolding trim_newline
trim_newline-line [] = refl
trim_newline-line (c ∷ []) = refl
trim_newline-line (c ∷ d ∷ s) = ground (arith, trim_newline-line (d ∷ s))

add_to_first-lines :
    (c : ℕ) (ls : List Bytes)
    → (c == b'\n') ≡ false
    → All (λ l. has_newline l ≡ false) ls
    → All (λ l. has_newline l ≡ false) (add_to_first c ls)
unfolding add_to_first has_newline
add_to_first-lines c [] h a = ground arith
add_to_first-lines c (l ∷ ls) h a = ground arith

pub split_lines-has_newline : (s : Bytes) → All (λ l. has_newline l ≡ false) (split_lines s)
unfolding split_lines
split_lines-has_newline [] = unfold has_newline in (refl, tt)
split_lines-has_newline (c ∷ cs) = elim (Bool-cases (c == b'\n')) [
  | inl e ↦ rw e (unfold has_newline in refl, split_lines-has_newline cs)
  | inr e ↦ rw e (add_to_first-lines c (split_lines cs) e (split_lines-has_newline cs))
]

-- `a < b` on strings
unfoldable pub str_ltb : Bytes → Bytes → Bool
str_ltb [] [] = false
str_ltb [] (b ∷ bs) = true
str_ltb (a ∷ s) [] = false
str_ltb (a ∷ s) (b ∷ t) = if ltb a b then true else if a == b then str_ltb s t else false

pub str_ltb_irrefl : (s : Bytes) → str_ltb s s ≡ false
unfolding str_ltb
str_ltb_irrefl [] = refl
str_ltb_irrefl (c ∷ s) = ground (arith, str_ltb_irrefl s)

pub str_ltb_asym : (s t : Bytes) → str_ltb s t ≡ true → str_ltb t s ≡ false
unfolding str_ltb
str_ltb_asym [] [] h = refl
str_ltb_asym [] (b ∷ t) h = refl
str_ltb_asym (a ∷ s) [] h = cc
str_ltb_asym (a ∷ s) (b ∷ t) h = ground (arith, str_ltb_asym s t)

pub str_ltb_trans : (s t u : Bytes) → str_ltb s t ≡ true → str_ltb t u ≡ true → str_ltb s u ≡ true
unfolding str_ltb
str_ltb_trans [] [] u h k = cc
str_ltb_trans [] (b ∷ t) [] h k = cc
str_ltb_trans [] (b ∷ t) (c ∷ u) h k = refl
str_ltb_trans (a ∷ s) [] u h k = cc
str_ltb_trans (a ∷ s) (b ∷ t) [] h k = cc
str_ltb_trans (a ∷ s) (b ∷ t) (c ∷ u) h k = ground (arith, str_ltb_trans s t u)

-- Different texts are ordered one way or the other.
pub str_ltb_total : (s t : Bytes) → str_ltb s t ≡ false → str_ltb t s ≡ false → s ≡ t
unfolding str_ltb
str_ltb_total [] [] h k = refl
str_ltb_total [] (b ∷ t) h k = cc
str_ltb_total (a ∷ s) [] h k = cc
str_ltb_total (a ∷ s) (b ∷ t) h k = ground (arith, str_ltb_total s t)
