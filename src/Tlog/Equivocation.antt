-- ===== src/Tlog/Equivocation.antt =====
-- tlogiroh/equivocation.go: proofs that an operator signed two heads of one size; and
-- tlogiroh/gossip.go: the envelopes that carry them.
use mathlib.Core.List.{append-nil}
use go_iroh_experiments.Base.{
  ℕ, ◌^◌, ◌<◌, ◌≡◌, ◌≢◌, refl, sym, ap, ap₂, ◌∙◌, ◌↔◌, not, ◌||◌, [], ◌∷◌, ◌++◌, Option, none, some,
  ◌>>=◌, arith, ◌==◌, if◌then◌else◌, Bytes, equal, equal_iff, length, Option-cases, inl, inr,
}
use go_iroh_experiments.Go.Int.{ℤ, eq_ℤ, eq_ℤ_iff}
use go_iroh_experiments.Go.Uvarint.{put_field, get_field, get-put_field}
use go_iroh_experiments.Tlog.Api.{Api, Checkpoint, Note, Verifier}
use go_iroh_experiments.Tlog.Checkpoint.{is_empty, parse_checkpoint}

pub record Equivocation : Type 0 where
  pub first : Bytes
  pub second : Bytes

unfoldable pub marshal_binary : Equivocation → Option Bytes
marshal_binary e =
    if is_empty e.first || is_empty e.second
    then none
    else some (put_field e.first ++ put_field e.second)

unfoldable pub unmarshal_binary : Bytes → Option Equivocation
unmarshal_binary s = do
  (first, rest) ← get_field s
  (second, rest') ← get_field rest
  if is_empty rest' then some (record { first = first; second = second }) else none

-- A proof of two messages shorter than 2 ^ 64 bytes is read back from its binary form; a proof with
-- an empty message has none.
pub unmarshal-marshal_binary :
    (e : Equivocation)
    → length e.first < 2 ^ 64
    → length e.second < 2 ^ 64
    → (marshal_binary e >>= unmarshal_binary)
      ≡ (if is_empty e.first || is_empty e.second then none else some e)
unfolding marshal_binary unmarshal_binary is_empty
unmarshal-marshal_binary e hf hs = ground (
  arith,
  get-put_field e.first (put_field e.second) hf,
  get-put_field e.second [] hs,
  append-nil (put_field e.second),
)

-- Verification errors, in the code's order.
pub data CheckpointError : Type 0 where
  not_opened bad_text origin_mismatch : CheckpointError

pub data Opened : Type 0 where
  opened : Checkpoint → Opened
  refused : CheckpointError → Opened

-- `openOperatorCheckpoint`
unfoldable pub open_operator_checkpoint : Api → Bytes → Bytes → Verifier → Opened
open_operator_checkpoint api msg origin operator = elim (api.open_note (operator ∷ []) msg) [
  | none ↦ refused not_opened
  | some n ↦ elim (parse_checkpoint api n.text) [
    | none ↦ refused bad_text
    | some c ↦ if equal c.origin origin then opened c else refused origin_mismatch
  ]
]

unfoldable pub compare_heads : Opened → Opened → Option ℤ
compare_heads (opened a) (opened b) =
    if not (eq_ℤ a.tree_n b.tree_n)
    then none
    else if equal a.tree_hash b.tree_hash
    then none
    else some a.tree_n
compare_heads _ _ = none

-- `VerifyEquivocation`: the equivocated size; `none` is any of its errors.
unfoldable pub verify_equivocation : Api → Equivocation → Bytes → Verifier → Option ℤ
verify_equivocation api e origin operator =
    compare_heads (open_operator_checkpoint api e.first origin operator)
      (open_operator_checkpoint api e.second origin operator)

-- The message opens under the operator's key as a note whose text is this checkpoint of the origin.
pub record IsOperatorHead (api : Api) (msg origin : Bytes) (operator : Verifier) (head : Checkpoint)
    : Type 0 where
  pub note : Note
  pub opens : api.open_note (operator ∷ []) msg ≡ some note
  pub parses : parse_checkpoint api note.text ≡ some head
  pub origin_is : head.origin ≡ origin

pub opened-IsOperatorHead :
    (api : Api) (msg origin : Bytes) (operator : Verifier) (head : Checkpoint)
    → open_operator_checkpoint api msg origin operator ≡ opened head
    → IsOperatorHead api msg origin operator head
unfolding open_operator_checkpoint
opened-IsOperatorHead api msg origin operator head h =
    elim (Option-cases (api.open_note (operator ∷ []) msg)) [
      | inl o ↦ absurd (ground (arith, o))
      | inr (n, o) ↦ elim (Option-cases (parse_checkpoint api n.text)) [
        | inl p ↦ absurd (ground (arith, o, p))
        | inr (c, p) ↦
            let same : (c ≡ head) × (c.origin ≡ origin) =
              ground (arith, o, p, equal_iff c.origin origin) in
            record {
              note = n;
              opens = o;
              parses = p ∙ ap some same.0;
              origin_is = ap (λ (x : Checkpoint). x.origin) (sym same.0) ∙ same.1;
            }
      ]
    ]

pub IsOperatorHead-opened :
    (api : Api) (msg origin : Bytes) (operator : Verifier) (head : Checkpoint)
    → IsOperatorHead api msg origin operator head
    → open_operator_checkpoint api msg origin operator ≡ opened head
unfolding open_operator_checkpoint
IsOperatorHead-opened api msg origin operator head i =
    ground (arith, i.opens, i.parses, i.origin_is, equal_iff head.origin origin)

-- What a verified proof shows.
pub record Equivocates (api : Api) (e : Equivocation) (origin : Bytes) (operator : Verifier) (n : ℤ)
    : Type 0 where
  pub head_a : Checkpoint
  pub head_b : Checkpoint
  pub first_signed : IsOperatorHead api e.first origin operator head_a
  pub second_signed : IsOperatorHead api e.second origin operator head_b
  pub size_a : head_a.tree_n ≡ n
  pub size_b : head_b.tree_n ≡ n
  pub hash_ne : head_a.tree_hash ≢ head_b.tree_hash

compare_heads_sound :
    (a b : Opened) (n : ℤ)
    → compare_heads a b ≡ some n
    → (h k : Checkpoint) × (a ≡ opened h)
      × (b ≡ opened k)
      × (h.tree_n ≡ n)
      × (k.tree_n ≡ n)
      × (h.tree_hash ≢ k.tree_hash)
unfolding compare_heads
compare_heads_sound (opened a) (opened b) n e = (
  a,
  b,
  refl,
  refl,
  ground arith,
  ground (arith, eq_ℤ_iff a.tree_n b.tree_n),
  λ h. ground (arith, equal_iff a.tree_hash b.tree_hash),
)
compare_heads_sound (opened a) (refused y) n e = absurd (ground arith)
compare_heads_sound (refused x) b n e = absurd (ground arith)

compare_heads_complete :
    (a b : Checkpoint) (n : ℤ)
    → a.tree_n ≡ n
    → b.tree_n ≡ n
    → a.tree_hash ≢ b.tree_hash
    → compare_heads (opened a) (opened b) ≡ some n
unfolding compare_heads
compare_heads_complete a b n ea eb h =
    ground (arith, eq_ℤ_iff a.tree_n b.tree_n, equal_iff a.tree_hash b.tree_hash)

-- `VerifyEquivocation` returns a size exactly when each message opens under the operator's key as a
-- note whose text parses as a checkpoint of the origin, both of that size, with different hashes.
pub verify_equivocation_iff :
    (api : Api) (e : Equivocation) (origin : Bytes) (operator : Verifier) (n : ℤ)
    → (verify_equivocation api e origin operator ≡ some n) ↔ Equivocates api e origin operator n
unfolding verify_equivocation
verify_equivocation_iff api e origin operator n = (sound, complete)
  where
    sound :
        compare_heads
            (open_operator_checkpoint api e.first origin operator)
            (open_operator_checkpoint api e.second origin operator)
          ≡ some n
        → Equivocates api e origin operator n
    sound h =
        let (a, b, ea, eb, na, nb, ne) = compare_heads_sound _ _ n h in
        record {
          head_a = a;
          head_b = b;
          first_signed = opened-IsOperatorHead api e.first origin operator a ea;
          second_signed = opened-IsOperatorHead api e.second origin operator b eb;
          size_a = na;
          size_b = nb;
          hash_ne = ne;
        }

    complete :
        Equivocates api e origin operator n
        → compare_heads
            (open_operator_checkpoint api e.first origin operator)
            (open_operator_checkpoint api e.second origin operator)
          ≡ some n
    complete v =
        ap₂ compare_heads
          (IsOperatorHead-opened api e.first origin operator v.head_a v.first_signed)
          (IsOperatorHead-opened api e.second origin operator v.head_b v.second_signed)
        ∙ compare_heads_complete v.head_a v.head_b n v.size_a v.size_b v.hash_ne

-- gossip.go: the type byte of an envelope, and its payload
pub data Kind : Type 0 where
  env_checkpoint env_equivocation : Kind

unfoldable pub kind_byte : Kind → ℕ
kind_byte env_checkpoint = 1
kind_byte env_equivocation = 2

unfoldable pub envelope : Kind → Bytes → Bytes
envelope k payload = kind_byte k ∷ payload

unfoldable pub open_envelope : Bytes → Option (Kind × Bytes)
open_envelope [] = none
open_envelope (k ∷ []) = none
open_envelope (k ∷ p ∷ ps) =
    if k == 1
    then some (env_checkpoint, p ∷ ps)
    else if k == 2
    then some (env_equivocation, p ∷ ps)
    else none

-- An envelope opens as the kind and the payload that it was made of, unless the payload is empty;
-- and whatever opens is the envelope of what it opens as.
pub open-envelope :
    ((k : Kind) (payload : Bytes)
      → open_envelope (envelope k payload) ≡ (if is_empty payload then none else some (k, payload)))
    × ((msg : Bytes) (k : Kind) (payload : Bytes)
        → open_envelope msg ≡ some (k, payload)
        → msg ≡ envelope k payload)
open-envelope = (opens, closes)
  where
    opens :
        (k : Kind) (payload : Bytes)
        → open_envelope (envelope k payload)
          ≡ (if is_empty payload then none else some (k, payload))
    opens k [] = unfold open_envelope envelope is_empty in refl
    opens env_checkpoint (p ∷ ps) = unfold open_envelope envelope kind_byte is_empty in refl
    opens env_equivocation (p ∷ ps) = unfold open_envelope envelope kind_byte is_empty in refl

    closes :
        (msg : Bytes) (k : Kind) (payload : Bytes)
        → open_envelope msg ≡ some (k, payload)
        → msg ≡ envelope k payload
    closes [] k payload e = absurd (unfold open_envelope in ground arith)
    closes (x ∷ []) k payload e = absurd (unfold open_envelope in ground arith)
    closes (x ∷ p ∷ ps) k payload e = unfold open_envelope envelope kind_byte in ground arith
