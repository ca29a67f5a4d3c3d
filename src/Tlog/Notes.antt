-- ===== src/Tlog/Notes.antt =====
-- tlogiroh/checkpoint.go: the two parts of a signed note, and merging the signatures of two notes.
pub mod Merges
use mathlib.Core.List.{append_assoc}
use go_iroh_experiments.Base.{
  ℕ, ◌≡◌, ◌≢◌, refl, ap, ◌∙◌, ◌⊎◌, inl, inr, Bool, true, false, not, ◌&&◌, ◌||◌, List, [], ◌∷◌,
  ◌++◌, Option, none, some, ◌>>=◌, arith, ◌==◌, if◌then◌else◌, Bytes, equal, equal_iff, equal_self,
  Bool-cases, Option-cases, All,
}
use go_iroh_experiments.Go.Strings.{
  has_newline, add_to_first, split_lines, split_lines-has_newline, split_lines-line,
}
use go_iroh_experiments.Tlog.Checkpoint.{is_empty}

-- At the first "\n\n": the text with its newline, and what is behind the empty line.
unfoldable pub split_note : Bytes → Option (Bytes × Bytes)
split_note [] = none
split_note (a ∷ []) = none
split_note (a ∷ b ∷ s) = elim (a == b'\n' && b == b'\n') [
  | true ↦ some (a ∷ [], s)
  | false ↦ elim (split_note (b ∷ s)) [ none ↦ none | some (t, sigs) ↦ some (a ∷ t, sigs) ]
]

unfoldable pub contains : List Bytes → Bytes → Bool
contains [] l = false
contains (x ∷ xs) l = equal x l || contains xs l

-- The lines that are not empty and not seen before, in order. `strings.Lines` and the trimming of
-- each line give the pieces between newlines, up to an empty one at the end.
unfoldable pub fresh_lines : List Bytes → List Bytes → List Bytes
fresh_lines seen [] = []
fresh_lines seen (l ∷ ls) =
    let keep = l ∷ fresh_lines (l ∷ seen) ls in
    let skip = fresh_lines seen ls in if is_empty l || contains seen l then skip else keep

unfoldable pub join_lines : List Bytes → Bytes
join_lines [] = []
join_lines (l ∷ ls) = l ++ (b'\n' ∷ join_lines ls)

unfoldable pub merge_signed_notes : Bytes → Bytes → Option Bytes
merge_signed_notes a b = do
  (text_a, sigs_a) ← split_note a
  (text_b, sigs_b) ← split_note b
  let lines = fresh_lines [] (split_lines (sigs_a ++ sigs_b))
  if equal text_a text_b then some (text_a ++ (b'\n' ∷ join_lines lines)) else none

-- The three ways in which a message splits.
split_step :
    (a b : ℕ) (s t sigs : Bytes)
    → split_note (a ∷ b ∷ s) ≡ some (t, sigs)
    → ((a ≡ b'\n') × (b ≡ b'\n') × (t ≡ a ∷ []) × (sigs ≡ s))
      ⊎ ((u : Bytes) × ((a == b'\n' && b == b'\n') ≡ false)
          × (t ≡ a ∷ u)
          × (split_note (b ∷ s) ≡ some (u, sigs)))
unfolding split_note
split_step a b s t sigs e = elim (Bool-cases (a == b'\n' && b == b'\n')) [
  | inl h ↦ inl (ground arith, ground arith, ground arith, ground arith)
  | inr h ↦ elim (Option-cases (split_note (b ∷ s))) [
    | inl n ↦ absurd (ground arith)
    | inr ((u, sigs'), n) ↦ inr (u, h, ground arith, ground arith)
  ]
]

-- A message is its text, a newline and its signature lines.
pub split_note-append : (s t sigs : Bytes) → split_note s ≡ some (t, sigs) → s ≡ t ++ (b'\n' ∷ sigs)
split_note-append [] t sigs e = absurd (unfold split_note in ground arith)
split_note-append (a ∷ []) t sigs e = absurd (unfold split_note in ground arith)
split_note-append (a ∷ b ∷ s) t sigs e = elim (split_step a b s t sigs e) [
  | inl (ea, eb, et, es) ↦ ground arith
  | inr (u, h, et, rest) ↦ ground (arith, split_note-append (b ∷ s) u sigs rest)
]

split_note_head :
    (b : ℕ) (s t sigs : Bytes) → split_note (b ∷ s) ≡ some (t, sigs) → (u : Bytes) × (t ≡ b ∷ u)
split_note_head b [] t sigs e = absurd (unfold split_note in ground arith)
split_note_head b (c ∷ s) t sigs e = elim (split_step b c s t sigs e) [
  | inl (eb, ec, et, es) ↦ ([], et)
  | inr (u, h, et, rest) ↦ (u, et)
]

split_note_pass :
    (a b : ℕ) (s u sigs : Bytes)
    → (a == b'\n' && b == b'\n') ≡ false
    → split_note (b ∷ s) ≡ some (u, sigs)
    → split_note (a ∷ b ∷ s) ≡ some (a ∷ u, sigs)
unfolding split_note
split_note_pass a b s u sigs h e = ground arith

-- The text of a note splits off whatever stands behind it.
pub split_note-text :
    (s t sigs other : Bytes)
    → split_note s ≡ some (t, sigs)
    → split_note (t ++ (b'\n' ∷ other)) ≡ some (t, other)
split_note-text [] t sigs other e = absurd (unfold split_note in ground arith)
split_note-text (a ∷ []) t sigs other e = absurd (unfold split_note in ground arith)
split_note-text (a ∷ b ∷ s) t sigs other e = elim (split_step a b s t sigs e) [
  | inl (ea, eb, et, es) ↦ rw (et, ea) (unfold split_note in refl)
  | inr (u, h, et, rest) ↦
      let (v, ev) = split_note_head b s u sigs rest in
      let ih = split_note-text (b ∷ s) u sigs other rest in
      let tail : split_note (b ∷ (v ++ (b'\n' ∷ other))) ≡ some (b ∷ v, other) = rw ev at ih in
      rw (et, ev) (split_note_pass a b (v ++ (b'\n' ∷ other)) (b ∷ v) other h tail)
]

-- A line stands in a list of lines.
abbrev pub Has : Bytes → List Bytes → Type 0
Has l ls = contains ls l ≡ true

contains-fresh_lines :
    (ls seen : List Bytes) (l : Bytes)
    → contains (fresh_lines seen ls) l
      ≡ (not (is_empty l) && not (contains seen l) && contains ls l)
unfolding contains fresh_lines
contains-fresh_lines [] seen l = ground arith
contains-fresh_lines (x ∷ ls) seen l =
    ground
      (arith, equal_iff x l, contains-fresh_lines ls (x ∷ seen) l, contains-fresh_lines ls seen l)

contains-append :
    (xs ys : List Bytes) (l : Bytes) → contains (xs ++ ys) l ≡ (contains xs l || contains ys l)
unfolding contains
contains-append [] ys l = refl
contains-append (x ∷ xs) ys l = ground (arith, contains-append xs ys l)

-- No line stands twice.
abbrev pub IsDistinct : List Bytes → Type 0
IsDistinct [] = Unit
IsDistinct (l ∷ ls) = (contains ls l ≡ false) × IsDistinct ls

fresh_lines-IsDistinct : (ls seen : List Bytes) → IsDistinct (fresh_lines seen ls)
unfolding fresh_lines
fresh_lines-IsDistinct [] seen = tt
fresh_lines-IsDistinct (x ∷ ls) seen = elim (Bool-cases (is_empty x || contains seen x)) [
  | inl h ↦ rw h (fresh_lines-IsDistinct ls seen)
  | inr h ↦ rw h (
    (unfold contains in ground (arith, contains-fresh_lines ls (x ∷ seen) x, equal_self x)),
    fresh_lines-IsDistinct ls (x ∷ seen),
  )
]
