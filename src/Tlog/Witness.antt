-- ===== src/Tlog/Witness.antt =====
-- tlogiroh/witness.go: verifying and countersigning checkpoints, and the loop over announcements.
-- What a call reads through the source at that moment is an argument: `prove` is tlog.ProveTree over
-- the source's tiles, `none` when it lacks the tree. Contexts are not cancelled.
pub mod Step
pub mod Heads
pub mod Proofs
pub mod Loop
use go_iroh_experiments.Base.{
  ℕ, Bool, true, false, not, List, [], ◌∷◌, ◌++◌, Option, none, some, if◌then◌else◌, Bytes, equal,
}
use go_iroh_experiments.Base.Dict.{Map, lookup, insert, remove}
use go_iroh_experiments.Go.Int.{ℤ, pos, ltb_ℤ, eq_ℤ}
use go_iroh_experiments.Tlog.Api.{Api, Checkpoint, Verifier, Note}
use go_iroh_experiments.Tlog.Checkpoint.{parse_checkpoint}
use go_iroh_experiments.Tlog.Equivocation.{
  Equivocation, CheckpointError, not_opened, bad_text, origin_mismatch, marshal_binary,
  unmarshal_binary, verify_equivocation, Kind, env_checkpoint, env_equivocation, envelope,
  open_envelope,
}
use go_iroh_experiments.Tlog.Notes.{split_note}

-- The head: the checkpoint and the message that carries it.
pub record Head : Type 0 where
  pub msg : Bytes
  pub checkpoint : Checkpoint

pub record Witness : Type 0 where
  pub origin : Bytes
  pub operator : Verifier
  pub head : Option Head

-- The source's tiles, at one moment: a proof that a tree extends one of the given size.
abbrev pub Prove : Type 0
Prove = Checkpoint → ℤ → Option (List Bytes)

pub data Refusal : Type 0 where
  invalid : CheckpointError → Refusal
  rollback inconsistent source_stale not_signed : Refusal
  equivocation : Equivocation → Refusal

pub data Result {ℓ} (A : Type ℓ) : Type ℓ where
  ok : A → Result A
  err : Refusal → Result A

-- The switch on the sizes, against the head.
unfoldable pub check_consistency : Api → Prove → Head → Checkpoint → Result (Unit {0})
check_consistency api prove h cp = elim (prove cp h.checkpoint.tree_n) [
  | none ↦ err source_stale
  | some proof ↦
      if api.check_tree proof cp.tree_n cp.tree_hash h.checkpoint.tree_n h.checkpoint.tree_hash
      then ok tt
      else err inconsistent
]

unfoldable pub check_head : Api → Prove → Option Head → Checkpoint → Bytes → Result (Unit {0})
check_head api prove none cp msg = ok tt
check_head api prove (some h) cp msg =
    if ltb_ℤ cp.tree_n h.checkpoint.tree_n
    then err rollback
    else if eq_ℤ cp.tree_n h.checkpoint.tree_n
    then (if equal cp.tree_hash h.checkpoint.tree_hash
        then ok tt
        else err (equivocation (record { first = h.msg; second = msg })))
    else if ltb_ℤ (pos 0) h.checkpoint.tree_n
    then check_consistency api prove h cp
    else ok tt

-- `n.Sigs = append(n.Sigs, n.UnverifiedSigs...)`
abbrev pub keep_unverified : Note → Note
keep_unverified n = record n { sigs = n.sigs ++ n.unverified_sigs; unverified_sigs = [] }

unfoldable pub sign_and_store : Api → Bytes → Witness → Note → Checkpoint → Witness × Result Bytes
sign_and_store api signer w n cp = elim (api.sign_note (keep_unverified n) signer) [
  | none ↦ (w, err not_signed)
  | some cosigned ↦
      (record w { head = some (record { msg = cosigned; checkpoint = cp }) }, ok cosigned)
]

unfoldable pub cosign_note : Api → Bytes → Prove → Witness → Bytes → Note → Witness × Result Bytes
cosign_note api signer prove w msg n = elim (parse_checkpoint api n.text) [
  | none ↦ (w, err (invalid bad_text))
  | some cp ↦
      if not (equal cp.origin w.origin)
      then (w, err (invalid origin_mismatch))
      else elim (check_head api prove w.head cp msg) [
        | err e ↦ (w, err e)
        | ok _ ↦ sign_and_store api signer w n cp
      ]
]

-- `Witness.cosign`
unfoldable pub cosign : Api → Bytes → Prove → Witness → Bytes → Witness × Result Bytes
cosign api signer prove w msg = elim (api.open_note (w.operator ∷ []) msg) [
  | none ↦ (w, err (invalid not_opened))
  | some n ↦ cosign_note api signer prove w msg n
]
