-- ===== src/Tlog/Checkpoint.antt =====
-- tlogiroh/checkpoint.go: the text of a checkpoint.
pub mod RoundTrip
pub mod Sound
use go_iroh_experiments.Base.{
  ℕ, zero, suc, Bool, true, false, not, ◌&&◌, ◌||◌, List, [], ◌∷◌, ◌++◌, Option, none, some, ◌>>=◌,
  ◌==◌, if◌then◌else◌, Bytes, equal,
}
use go_iroh_experiments.Go.Int.{ℤ, pos, negsuc, is_neg, parse_int, format_int}
use go_iroh_experiments.Go.Strings.{has_newline, split_lines, trim_newline}
use go_iroh_experiments.Tlog.Api.{Api, Checkpoint}

abbrev pub line : Bytes → Bytes → Bytes
line l rest = l ++ (b'\n' ∷ rest)

-- `c == "" || strings.Contains(c, "\n")`
unfoldable pub is_bad_origin : Bytes → Bool
is_bad_origin [] = true
is_bad_origin (c ∷ cs) = has_newline (c ∷ cs)

unfoldable pub marshal_text : Api → Checkpoint → Option Bytes
marshal_text api c =
    if is_bad_origin c.origin
    then none
    else if is_neg c.tree_n
    then none
    else some (line c.origin (line (format_int c.tree_n) (line (api.hash_string c.tree_hash) [])))

unfoldable pub starts_with_zero : Bytes → Bool
starts_with_zero [] = false
starts_with_zero (c ∷ cs) = c == b'0'

-- The size: not negative, and no leading zero unless it is "0".
unfoldable pub parse_size : Bytes → Option ℤ
parse_size s = elim (parse_int s) [
  | none ↦ none
  | some n ↦ if is_neg n || (not (equal s (b'0' ∷ [])) && starts_with_zero s) then none else some n
]

unfoldable pub is_empty : Bytes → Bool
is_empty [] = true
is_empty (c ∷ cs) = false

unfoldable pub parse_lines : Api → List Bytes → Option Checkpoint
parse_lines api (origin ∷ size ∷ hash ∷ []) = if is_empty origin then none else do
  n ← parse_size size
  h ← api.parse_hash hash
  some (record { origin = origin; tree_n = n; tree_hash = h })
parse_lines api _ = none

-- `ParseCheckpoint`; `none` is any of its errors.
unfoldable pub parse_checkpoint : Api → Bytes → Option Checkpoint
parse_checkpoint api text = do body ← trim_newline text; parse_lines api (split_lines body)
