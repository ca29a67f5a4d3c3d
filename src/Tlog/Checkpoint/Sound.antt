-- ===== src/Tlog/Checkpoint/Sound.antt =====
-- What a parsed checkpoint is, and a text that is not canonical and is read all the same.
use go_iroh_experiments.Base.{◌≡◌, false, List, [], ◌∷◌, some, arith, Bytes, >>=-eq-some, All}
use go_iroh_experiments.Go.Int.{ℤ, is_neg, format_int}
use go_iroh_experiments.Go.Strings.{has_newline, split_lines, split_lines-has_newline, trim_newline}
use go_iroh_experiments.Tlog.Api.{Api, Checkpoint}
use go_iroh_experiments.Tlog.Checkpoint.{
  line, is_empty, is_bad_origin, marshal_text, parse_size, parse_lines, parse_checkpoint,
}

-- An origin of one line that is not empty, and a size of at least zero.
pub record IsWellFormed (c : Checkpoint) : Type 0 where
  pub origin_ne_nil : is_empty c.origin ≡ false
  pub origin_line : has_newline c.origin ≡ false
  pub size_nonneg : is_neg c.tree_n ≡ false

parse_size-nonneg : (s : Bytes) (n : ℤ) → parse_size s ≡ some n → is_neg n ≡ false
unfolding parse_size
parse_size-nonneg s n h = ground arith

parse_lines-IsWellFormed :
    (api : Api) (ls : List Bytes) (c : Checkpoint)
    → All (λ l. has_newline l ≡ false) ls
    → parse_lines api ls ≡ some c
    → IsWellFormed c
unfolding parse_lines
parse_lines-IsWellFormed api (o ∷ s ∷ h ∷ []) c a e = record {
  origin_ne_nil = ground arith;
  origin_line = ground arith;
  size_nonneg = ground (arith, parse_size-nonneg s c.tree_n);
}
parse_lines-IsWellFormed api _ c a e = absurd (ground arith)

is_bad_origin-good :
    (o : Bytes) → is_empty o ≡ false → has_newline o ≡ false → is_bad_origin o ≡ false
unfolding is_bad_origin is_empty
is_bad_origin-good [] e h = absurd (ground arith)
is_bad_origin-good (c ∷ cs) e h = h

marshal_text-some :
    (api : Api) (c : Checkpoint) → IsWellFormed c → (t : Bytes) × (marshal_text api c ≡ some t)
unfolding marshal_text
marshal_text-some api c w = (
  line c.origin (line (format_int c.tree_n) (line (api.hash_string c.tree_hash) [])),
  ground (arith, is_bad_origin-good c.origin w.origin_ne_nil w.origin_line, w.size_nonneg),
)

-- Every checkpoint that `ParseCheckpoint` returns has an origin that is one line and not empty, and a
-- size that is not negative; and `MarshalText` gives a text for it.
pub parse_checkpoint-IsWellFormed :
    (api : Api) (text : Bytes) (c : Checkpoint)
    → parse_checkpoint api text ≡ some c
    → IsWellFormed c × ((t : Bytes) × (marshal_text api c ≡ some t))
unfolding parse_checkpoint
parse_checkpoint-IsWellFormed api text c e =
    let (body, _, parsed) = >>=-eq-some (trim_newline text) _ e in
    let w =
      parse_lines-IsWellFormed api (split_lines body) c (split_lines-has_newline body) parsed in
    (w, marshal_text-some api c w)
