-- ===== src/Tlog/Source.antt =====
-- tlogiroh/source.go: the keys of the doc timeline, and reading a log through it.
pub mod Order
pub mod Latest
unfoldable pub use go_iroh_experiments.Go.Strings.{str_ltb}
use go_iroh_experiments.Base.{
  ℕ, zero, suc, ◌+◌, ◌*◌, ◌/◌, ◌%◌, ◌^◌, Bool, true, false, not, ◌&&◌, ◌||◌, List, [], ◌∷◌, ◌++◌,
  Option, none, some, ltb, ◌==◌, if◌then◌else◌, length, Bytes, codes, equal,
}

-- "%020d" of a number that is not negative: `w` decimal digits.
unfoldable pub padded : ℕ → ℕ → Bytes
padded zero n = []
padded (suc w) n = padded w (n / 10) ++ (b'0' + n % 10) ∷ []

abbrev pub entry_key_prefix : Bytes
entry_key_prefix = codes "entry/"

abbrev pub checkpoint_key_prefix : Bytes
checkpoint_key_prefix = codes "checkpoint/"

unfoldable pub entry_key : ℕ → Bytes
entry_key index = entry_key_prefix ++ padded 20 index

unfoldable pub checkpoint_key : ℕ → Bytes
checkpoint_key size = checkpoint_key_prefix ++ padded 20 size

-- One record of the doc: who wrote it where, and the blob that it names.
pub record Entry : Type 0 where
  pub namespace : Bytes
  pub author : Bytes
  pub key : Bytes
  pub hash : Bytes
  pub len : ℕ

-- The source: a replica of the timeline, and what `Get` returns for a hash.
pub record Source : Type 0 where
  pub doc : List Entry
  pub namespace : Bytes
  pub author : Bytes
  pub get : Bytes → Option Bytes

abbrev pub is_own : Source → Entry → Bool
is_own s e = equal e.namespace s.namespace && equal e.author s.author

-- The record that the doc holds under a key, with one whose content is empty.
unfoldable pub find_entry : Source → List Entry → Bytes → Option Entry
find_entry s [] key = none
find_entry s (e ∷ es) key = if is_own s e && equal e.key key then some e else find_entry s es key

-- `Doc.GetExact`, as docs documents it: the author's record of the key, and a record whose content is
-- empty only if it is asked for.
unfoldable pub get_exact : Source → List Entry → Bytes → Bool → Option Entry
get_exact s es key include_empty = elim (find_entry s es key) [
  | none ↦ none
  | some e ↦ if include_empty || not (e.len == 0) then some e else none
]

-- `Source.blob`; `none` is any of its errors.
unfoldable pub blob : Source → Bytes → Option Bytes
blob s key = elim (get_exact s s.doc key false) [
  | none ↦ none
  | some e ↦ elim (s.get e.hash) [
    | none ↦ none
    | some content ↦ if length content == e.len then some content else none
  ]
]

-- `strings.HasPrefix`
unfoldable pub has_prefix : Bytes → Bytes → Bool
has_prefix s [] = true
has_prefix [] (p ∷ ps) = false
has_prefix (c ∷ s) (p ∷ ps) = c == p && has_prefix s ps

abbrev pub is_checkpoint : Source → Entry → Bool
is_checkpoint s e = is_own s e && has_prefix e.key checkpoint_key_prefix

-- The loop of `latestCheckpoint`, with the greatest key so far.
unfoldable pub latest_key : Source → Bytes → List Entry → Bytes
latest_key s latest [] = latest
latest_key s latest (e ∷ es) =
    latest_key s (if is_checkpoint s e && str_ltb latest e.key then e.key else latest) es

-- `latestCheckpoint`; `none` stands for ErrNoCheckpoint and for the errors of `blob`.
unfoldable pub latest_checkpoint : Source → Option Bytes
latest_checkpoint s = elim (latest_key s [] s.doc) [ [] ↦ none | c ∷ cs ↦ blob s (c ∷ cs) ]
