-- ===== src/Tlog/Notes/Merges.antt =====
-- What the merging of two signed notes gives.
use mathlib.Core.List.{append_assoc}
use go_iroh_experiments.Base.{
  ℕ, ◌≡◌, ◌≢◌, refl, ap, ◌∙◌, false, not, ◌&&◌, ◌||◌, List, [], ◌∷◌, ◌++◌, none, some, arith, Bytes,
  equal, equal_iff, equal_self, All,
}
use go_iroh_experiments.Go.Strings.{
  has_newline, add_to_first, split_lines, split_lines-has_newline, split_lines-line,
}
use go_iroh_experiments.Tlog.Checkpoint.{is_empty}
use go_iroh_experiments.Tlog.Notes.{
  IsDistinct, contains, contains-append, contains-fresh_lines, fresh_lines, fresh_lines-IsDistinct,
  join_lines, merge_signed_notes, split_note, split_note-text,
}

abbrev HasNoNewlines : List Bytes → Type 0
HasNoNewlines = All (λ l. has_newline l ≡ false)

fresh_lines-HasNoNewlines :
    (ls seen : List Bytes) → HasNoNewlines ls → HasNoNewlines (fresh_lines seen ls)
unfolding fresh_lines
fresh_lines-HasNoNewlines [] seen h = tt
fresh_lines-HasNoNewlines (x ∷ ls) seen h =
    ground
      (arith, fresh_lines-HasNoNewlines ls seen h.1, fresh_lines-HasNoNewlines ls (x ∷ seen) h.1)

split_lines-join_lines :
    (ls : List Bytes) → HasNoNewlines ls → split_lines (join_lines ls) ≡ ls ++ [] ∷ []
unfolding join_lines
split_lines-join_lines [] h = unfold split_lines in refl
split_lines-join_lines (l ∷ ls) h =
    split_lines-line l (join_lines ls) h.0 ∙ ap (◌∷◌ l) (split_lines-join_lines ls h.1)

add_to_first-append :
    (c : ℕ) (xs ys : List Bytes) → xs ≢ [] → add_to_first c (xs ++ ys) ≡ add_to_first c xs ++ ys
unfolding add_to_first
add_to_first-append c [] ys h = absurd (h refl)
add_to_first-append c (x ∷ xs) ys h = refl

add_to_first-ne_nil : (c : ℕ) (ls : List Bytes) → add_to_first c ls ≢ []
unfolding add_to_first
add_to_first-ne_nil c [] h = ground arith
add_to_first-ne_nil c (l ∷ ls) h = ground arith

split_lines-ne_nil : (s : Bytes) → split_lines s ≢ []
unfolding split_lines
split_lines-ne_nil [] h = ground arith
split_lines-ne_nil (c ∷ s) h = ground (arith, add_to_first-ne_nil c (split_lines s))

split_lines-append : (s r : Bytes) → split_lines (s ++ (b'\n' ∷ r)) ≡ split_lines s ++ split_lines r
unfolding split_lines
split_lines-append [] r = refl
split_lines-append (c ∷ s) r = ground (
  arith,
  split_lines-append s r,
  add_to_first-append c (split_lines s) (split_lines r) (split_lines-ne_nil s),
)

-- `m` is a note with the text `t` and, of lines that are not empty, those of `sa` and of `sb`, none
-- of them twice.
pub record Merges (t sa sb m : Bytes) : Type 0 where
  pub sigs : Bytes
  pub lines : List Bytes
  pub splits : split_note m ≡ some (t, sigs)
  pub lines_are : split_lines sigs ≡ lines ++ [] ∷ []
  pub distinct : IsDistinct lines
  pub union :
      (l : Bytes)
      → contains lines l
        ≡ (not (is_empty l) && (contains (split_lines sa) l || contains (split_lines sb) l))

no_empty_line : (l : Bytes) → is_empty l ≡ false → contains (split_lines []) l ≡ false
unfolding contains split_lines equal is_empty
no_empty_line [] h = absurd (ground arith)
no_empty_line (c ∷ l) h = refl

contains-nil : (l : Bytes) → contains [] l ≡ false
unfolding contains
contains-nil l = refl

module _ (a b t sa sb : Bytes) (ends : Bytes) (sa_ends : sa ≡ ends ++ b'\n' ∷ [])
    (ea : split_note a ≡ some (t, sa)) where
  merged_lines : List Bytes
  merged_lines = fresh_lines [] (split_lines (sa ++ sb))

  merged : Bytes
  unfolding merged_lines
  merged = t ++ (b'\n' ∷ join_lines merged_lines)

  lines_of_append : split_lines (sa ++ sb) ≡ split_lines ends ++ split_lines sb
  lines_of_append =
      rw sa_ends (ap split_lines (append_assoc ends (b'\n' ∷ []) sb) ∙ split_lines-append ends sb)

  lines_of_sa :
      (l : Bytes) → is_empty l ≡ false → contains (split_lines sa) l ≡ contains (split_lines ends) l
  lines_of_sa l h =
      rw
        (sa_ends, split_lines-append ends [], contains-append (split_lines ends) (split_lines []) l)
        (ground (arith, no_empty_line l h))

  contains-merged_lines :
      (l : Bytes)
      → contains merged_lines l
        ≡ (not (is_empty l) && (contains (split_lines sa) l || contains (split_lines sb) l))
  unfolding merged_lines
  contains-merged_lines l = ground (
    arith,
    contains-fresh_lines (split_lines (sa ++ sb)) [] l,
    contains-nil l,
    ap (λ ls. contains ls l) lines_of_append,
    contains-append (split_lines ends) (split_lines sb) l,
    lines_of_sa l,
  )

  merged-Merges : Merges t sa sb merged
  unfolding merged merged_lines
  merged-Merges = record {
    sigs = join_lines merged_lines;
    lines = merged_lines;
    splits = split_note-text a t sa (join_lines merged_lines) ea;
    lines_are =
        split_lines-join_lines merged_lines
          (fresh_lines-HasNoNewlines _ [] (split_lines-has_newline (sa ++ sb)));
    distinct = fresh_lines-IsDistinct (split_lines (sa ++ sb)) [];
    union = contains-merged_lines;
  }

  -- Two signed notes of one text merge into a note of that text whose signature lines are those of
  -- either note, each once and no empty one, if the first note ends in a newline.
  pub merge_signed_notes-Merges :
      split_note b ≡ some (t, sb)
      → (m : Bytes) × (merge_signed_notes a b ≡ some m) × Merges t sa sb m
  unfolding merge_signed_notes
  merge_signed_notes-Merges eb =
      (merged, unfold merged merged_lines in ground (arith, ea, equal_self t), merged-Merges)

-- Notes of different texts do not merge.
pub merge_signed_notes-none :
    (a b t u sa sb : Bytes)
    → split_note a ≡ some (t, sa)
    → split_note b ≡ some (u, sb)
    → t ≢ u
    → merge_signed_notes a b ≡ none
unfolding merge_signed_notes
merge_signed_notes-none a b t u sa sb ea eb h = ground (arith, equal_iff t u)
