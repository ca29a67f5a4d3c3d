-- ===== src/Stores/Texts.antt =====
-- xetstore/store.go: the texts of paths and headers.
use go_iroh_experiments.Base.{
  ℕ, Bool, true, false, not, List, [], ◌∷◌, ◌++◌, Option, none, some, ◌==◌, if◌then◌else◌, Bytes,
  codes, equal,
}
use go_iroh_experiments.Go.Decimal.{parse_uint_value}
use go_iroh_experiments.Go.Int.{ℤ, pos, negsuc}
use go_iroh_experiments.Stores.Http.{Response}

-- `strings.TrimLeft(s, "/")`, `strings.TrimRight(s, "/")` and `strings.Trim(s, "/")`
unfoldable pub trim_left : Bytes → Bytes
trim_left [] = []
trim_left (c ∷ s) = if c == b'/' then trim_left s else c ∷ s

unfoldable pub trim_right : Bytes → Bytes
trim_right [] = []
trim_right (c ∷ s) = elim (trim_right s) [
  | [] ↦ if c == b'/' then [] else c ∷ []
  | d ∷ t ↦ c ∷ d ∷ t
]

-- `strings.Split(part, "/")`
unfoldable pub split_slash : Bytes → List Bytes
split_slash [] = [] ∷ []
split_slash (c ∷ s) = elim (split_slash s) [
  | [] ↦ (c ∷ []) ∷ []
  | p ∷ ps ↦ if c == b'/' then [] ∷ p ∷ ps else (c ∷ p) ∷ ps
]

-- The segments that are not empty.
unfoldable pub nonempty : List Bytes → List Bytes
nonempty [] = []
nonempty ([] ∷ ps) = nonempty ps
nonempty ((c ∷ p) ∷ ps) = (c ∷ p) ∷ nonempty ps

-- `strings.Join(segments, "/")`
unfoldable pub join_slash : List Bytes → Bytes
join_slash [] = []
join_slash (p ∷ []) = p
join_slash (p ∷ q ∷ ps) = p ++ (b'/' ∷ join_slash (q ∷ ps))

-- `authorize`
unfoldable pub authorization : Bytes → Bytes
authorization token = if equal token [] then [] else codes "Bearer " ++ token

-- `strings.Cut(v, "/")`: what follows the first slash.
unfoldable pub after_slash : Bytes → Option Bytes
after_slash [] = none
after_slash (c ∷ s) = if c == b'/' then some s else after_slash s

-- `parseContentRangeSize`: a size, and whether it is known.
unfoldable pub parse_content_range_size : Bytes → ℕ × Bool
parse_content_range_size v = elim (after_slash v) [
  | none ↦ (0, false)
  | some rest ↦ if equal rest (codes "*") then (0, false) else parse_uint_value rest
]

unfoldable pub content_size : ℤ → ℕ × Bool
content_size (pos n) = (n, true)
content_size (negsuc n) = (0, false)

-- `responseSize`: a size, and whether it is known. One that is out of range is not known and is
-- still the greatest of 64 bits.
unfoldable pub response_size : Response → ℕ × Bool
unfolding content_size
response_size r =
    if not (equal r.linked_size [])
    then parse_uint_value r.linked_size
    else content_size r.content_length
