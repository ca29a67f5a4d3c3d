-- ===== src/Tlog/Checkpoint/RoundTrip.antt =====
-- A checkpoint is read back from its text.
use mathlib.Core.List.{append_assoc}
use go_iroh_experiments.Base.{
  ℕ, ◌^◌, ◌<◌, ◌≡◌, refl, ap, ◌∙◌, true, false, [], ◌∷◌, none, some, ◌>>=◌, arith, inl, inr, Bytes,
  equal_iff, Bool-cases, All, if◌then◌else◌,
}
use go_iroh_experiments.Go.Decimal.{
  is_digit, format_uint, IsNumeral, format_uint-IsNumeral, parse-format_uint,
}
use go_iroh_experiments.Go.Int.{ℤ, pos, parse_int, format_int, parse_int-format_uint}
use go_iroh_experiments.Go.Strings.{
  has_newline, split_lines, split_lines-line, split_lines_last, trim_newline, trim_newline-line,
}
use go_iroh_experiments.Tlog.Api.{Api, Checkpoint, HasHashText}
use go_iroh_experiments.Tlog.Checkpoint.{
  line, is_bad_origin, is_empty, marshal_text, starts_with_zero, parse_size, parse_lines,
  parse_checkpoint,
}

digits-has_newline : (s : Bytes) → All (λ d. is_digit d ≡ true) s → has_newline s ≡ false
unfolding has_newline
digits-has_newline [] h = refl
digits-has_newline (c ∷ cs) h = ground (arith, digits-has_newline cs h.1)

parse_size-numeral :
    (s : Bytes) (n : ℕ) → IsNumeral n s → parse_int s ≡ some (pos n) → parse_size s ≡ some (pos n)
unfolding parse_size starts_with_zero
parse_size-numeral s n r p = ground (arith, r.splits, r.no_leading_zero, equal_iff s (b'0' ∷ []))

-- The three lines behind one another, with the newline of the last taken off.
three_lines :
    (a b c : Bytes)
    → has_newline a ≡ false
    → has_newline b ≡ false
    → has_newline c ≡ false
    → (trim_newline (line a (line b (line c []))) ≡ some (line a (line b c)))
      × (split_lines (line a (line b c)) ≡ a ∷ b ∷ c ∷ [])
three_lines a b c ha hb hc = (
  ap trim_newline (simp append_assoc) ∙ trim_newline-line (line a (line b c)),
  split_lines-line a (line b c) ha
      ∙ ap (◌∷◌ a) (split_lines-line b c hb ∙ ap (◌∷◌ b) (split_lines_last c hc)),
)

good_origin : (o : Bytes) → is_bad_origin o ≡ false → (has_newline o ≡ false) × (is_empty o ≡ false)
unfolding is_bad_origin is_empty
good_origin [] h = absurd (ground arith)
good_origin (c ∷ cs) h = (h, refl)

module _ (api : Api) (law : HasHashText api) (o size h : Bytes) (n : ℤ) where
  parse_lines-size :
      is_empty o ≡ false
      → parse_size size ≡ some n
      → parse_lines api (o ∷ size ∷ api.hash_string h ∷ [])
        ≡ some (record { origin = o; tree_n = n; tree_hash = h })
  unfolding parse_lines
  parse_lines-size ne e = ground (arith, law.parse-string h)

  -- A text of three lines, with an origin that is not empty and a size that parses.
  pub parse-three_lines :
      is_bad_origin o ≡ false
      → has_newline size ≡ false
      → parse_size size ≡ some n
      → parse_checkpoint api (line o (line size (line (api.hash_string h) [])))
        ≡ some (record { origin = o; tree_n = n; tree_hash = h })
  unfolding parse_checkpoint
  parse-three_lines good one e =
      let (no_newline, ne) = good_origin o good in
      let (trimmed, split) =
        three_lines o size (api.hash_string h) no_newline one (law.one_line h) in
      rw trimmed (ap (parse_lines api) split ∙ parse_lines-size ne e)

-- `ParseCheckpoint` reads back what `MarshalText` writes, for every checkpoint whose size fits in 63
-- bits and whose origin is not empty and holds no newline; for any other origin `MarshalText` fails.
pub parse-marshal_text :
    (api : Api) (o h : Bytes) (n : ℕ)
    → HasHashText api
    → n < 2 ^ 63
    → let c : Checkpoint = record { origin = o; tree_n = pos n; tree_hash = h } in
      (marshal_text api c >>= parse_checkpoint api) ≡ (if is_bad_origin o then none else some c)
unfolding marshal_text format_int
parse-marshal_text api o h n law small = elim (Bool-cases (is_bad_origin o)) [
  | inl bad ↦ rw bad refl
  | inr good ↦ rw good (
      let size_text : IsNumeral n (format_uint n) = format_uint-IsNumeral n (omega arith) in
      parse-three_lines api law o (format_uint n) h (pos n) good
        (digits-has_newline (format_uint n) size_text.all_digits)
        (parse_size-numeral (format_uint n) n size_text (parse_int-format_uint n small)))
]

parse_size-plus : (n : ℕ) → n < 2 ^ 63 → parse_size (b'+' ∷ format_uint n) ≡ some (pos n)
unfolding parse_size parse_int starts_with_zero
parse_size-plus n h =
    ground (arith, parse-format_uint n, equal_iff (b'+' ∷ format_uint n) (b'0' ∷ []))

plus-has_newline : (s : Bytes) → has_newline s ≡ false → has_newline (b'+' ∷ s) ≡ false
unfolding has_newline
plus-has_newline s h = h

-- The size line may also have a plus sign: for every good origin and every size in 63 bits, the text
-- with "+" before the size is read as the checkpoint whose `MarshalText` is the text without it.
pub parse_checkpoint-plus :
    (api : Api) (o h : Bytes) (n : ℕ)
    → HasHashText api
    → n < 2 ^ 63
    → is_bad_origin o ≡ false
    → let c : Checkpoint = record { origin = o; tree_n = pos n; tree_hash = h } in
      (parse_checkpoint api (line o (line (b'+' ∷ format_uint n) (line (api.hash_string h) [])))
        ≡ some c)
      × (marshal_text api c ≡ some (line o (line (format_uint n) (line (api.hash_string h) []))))
unfolding marshal_text format_int
parse_checkpoint-plus api o h n law small good =
    let size_text : IsNumeral n (format_uint n) = format_uint-IsNumeral n (omega arith) in
    (
      parse-three_lines api law o (b'+' ∷ format_uint n) h (pos n) good
          (plus-has_newline (format_uint n)
            (digits-has_newline (format_uint n) size_text.all_digits))
          (parse_size-plus n small),
      rw good,
    )
