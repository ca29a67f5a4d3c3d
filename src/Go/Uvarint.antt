-- ===== src/Go/Uvarint.antt =====
-- `binary.AppendUvarint`, `binary.Uvarint`, and the fields that are written behind their length.
use mathlib.Core.List.{append_assoc}
use go_iroh_experiments.Base.{
  ℕ, zero, suc, ◌+◌, ◌-◌, ◌*◌, ◌/◌, ◌%◌, ◌^◌, ◌<◌, ◌≡◌, [], ◌∷◌, ◌++◌, Option, none, some, arith,
  ltb, leb, if◌then◌else◌, length, take, drop, length-append, take_append, drop_append, Bytes,
}

-- Up to `k` bytes with the continuation bit, then one without.
unfoldable pub put_uvarint : ℕ → ℕ → Bytes
put_uvarint zero x = x ∷ []
put_uvarint (suc k) x =
    let rest = put_uvarint k (x / 128) in if ltb x 128 then x ∷ [] else (x % 128 + 128) ∷ rest

-- Nine continuation bytes are enough for 64 bits.
unfoldable pub uvarint : ℕ → Bytes
uvarint = put_uvarint 9

-- `k` is the number of continuation bytes that may still be read; the tenth byte is 0 or 1.
unfoldable pub read_uvarint : ℕ → Bytes → Option (ℕ × Bytes)
read_uvarint k [] = none
read_uvarint zero (b ∷ bs) = if ltb b 2 then some (b, bs) else none
read_uvarint (suc k) (b ∷ bs) =
    if ltb b 128
    then some (b, bs)
    else elim (read_uvarint k bs) [ none ↦ none | some (v, r) ↦ some (b - 128 + 128 * v, r) ]

-- `binary.Uvarint`; `none` stands for a size that is not positive.
unfoldable pub get_uvarint : Bytes → Option (ℕ × Bytes)
get_uvarint = read_uvarint 9

abbrev pub uvarint_limit : ℕ → ℕ
uvarint_limit zero = 2
uvarint_limit (suc k) = 128 * uvarint_limit k

pub read-put_uvarint :
    (k x : ℕ) (rest : Bytes)
    → x < uvarint_limit k
    → read_uvarint k (put_uvarint k x ++ rest) ≡ some (x, rest)
unfolding read_uvarint put_uvarint
read-put_uvarint zero x rest h = ground arith
read-put_uvarint (suc k) x rest h = ground (arith, read-put_uvarint k (x / 128) rest)

pub get-uvarint :
    (x : ℕ) (rest : Bytes) → x < 2 ^ 64 → get_uvarint (uvarint x ++ rest) ≡ some (x, rest)
unfolding get_uvarint uvarint
get-uvarint x rest h = read-put_uvarint 9 x rest (omega arith)

-- A field behind its length.
unfoldable pub put_field : Bytes → Bytes
put_field f = uvarint (length f) ++ f

-- The length prefix is checked against the bytes that are left.
unfoldable pub get_field : Bytes → Option (Bytes × Bytes)
get_field s = elim (get_uvarint s) [
  | none ↦ none
  | some (n, rest) ↦ if leb n (length rest) then some (take n rest, drop n rest) else none
]

pub get-put_field :
    (f rest : Bytes) → length f < 2 ^ 64 → get_field (put_field f ++ rest) ≡ some (f, rest)
unfolding get_field put_field
get-put_field f rest h =
    rw (append_assoc, get-uvarint (length f) (f ++ rest) h, get_field)
      (ground (arith, take_append f rest, drop_append f rest, length-append f rest))
