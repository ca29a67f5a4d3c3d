-- ===== src/Tlog/Client.antt =====
-- tlogiroh/client.go: a reader that verifies checkpoints against a policy, and keeps the latest. What
-- a call reads through the source at its moment is an argument, as for the witness.
pub mod Accepted
pub mod Entries
pub mod Watch
use go_iroh_experiments.Base.{
  ℕ, Bool, true, false, not, ◌&&◌, ◌||◌, List, [], ◌∷◌, Option, none, some, if◌then◌else◌, Bytes,
  equal,
}
use go_iroh_experiments.Go.Int.{ℤ, pos, is_neg, ltb_ℤ, eq_ℤ}
use go_iroh_experiments.Tlog.Api.{Api, Checkpoint}
use go_iroh_experiments.Tlog.Equivocation.{Equivocation}
use go_iroh_experiments.Tlog.Notes.{merge_signed_notes}
use go_iroh_experiments.Tlog.Policy.{Policy, PolicyError, Verdict, accepts, rejects, open_policy}
use go_iroh_experiments.Tlog.Witness.{Head, Prove}

pub record Client : Type 0 where
  pub policy : Policy
  pub head : Option Head

pub data ClientError : Type 0 where
  policy_error : PolicyError → ClientError
  rollback inconsistent source_stale no_checkpoint : ClientError
  equivocation : Equivocation → ClientError
  outside_tree no_blob no_proof bad_proof : ClientError

pub data Result {ℓ} (A : Type ℓ) : Type ℓ where
  ok : A → Result A
  err : ClientError → Result A

abbrev pub with_head : Client → Bytes → Checkpoint → Client
with_head c msg cp = record c { head = some (record { msg = msg; checkpoint = cp }) }

abbrev pub forks : Head → Bytes → ClientError
forks h msg = equivocation (record { first = h.msg; second = msg })

-- `SetHead` behind `policy.Open`
unfoldable pub restore : Client → Option Head → Bytes → Checkpoint → Client × Result (Unit {0})
restore c none msg cp = (with_head c msg cp, ok tt)
restore c (some h) msg cp =
    if ltb_ℤ cp.tree_n h.checkpoint.tree_n
    then (c, err rollback)
    else if eq_ℤ cp.tree_n h.checkpoint.tree_n && not (equal cp.tree_hash h.checkpoint.tree_hash)
    then (c, err (forks h msg))
    else (with_head c msg cp, ok tt)

unfoldable pub set_head_with : Client → Bytes → Verdict → Client × Result (Unit {0})
set_head_with c msg (rejects e) = (c, err (policy_error e))
set_head_with c msg (accepts cp) = restore c c.head msg cp

unfoldable pub set_head : Api → Client → Bytes → Client × Result (Unit {0})
set_head api c msg = set_head_with c msg (open_policy api c.policy msg)

-- The head's message with the cosignatures of another one, if they merge.
unfoldable pub merged_or : Bytes → Option Bytes → Bytes
merged_or old none = old
merged_or old (some merged) = merged

unfoldable pub extend_head :
    Api → Prove → Client → Head → Bytes → Checkpoint → Client × Result Checkpoint
extend_head api prove c h msg cp = elim (prove cp h.checkpoint.tree_n) [
  | none ↦ (c, err source_stale)
  | some proof ↦
      if api.check_tree proof cp.tree_n cp.tree_hash h.checkpoint.tree_n h.checkpoint.tree_hash
      then (with_head c msg cp, ok cp)
      else (c, err inconsistent)
]

-- `Client.update`
unfoldable pub update_head :
    Api → Prove → Client → Option Head → Bytes → Checkpoint → Client × Result Checkpoint
update_head api prove c none msg cp = (with_head c msg cp, ok cp)
update_head api prove c (some h) msg cp =
    if ltb_ℤ cp.tree_n h.checkpoint.tree_n
    then (c, err rollback)
    else if eq_ℤ cp.tree_n h.checkpoint.tree_n
    then (if not (equal cp.tree_hash h.checkpoint.tree_hash) then (c, err (forks h msg)) else (
      with_head c (merged_or h.msg (merge_signed_notes h.msg msg)) h.checkpoint,
      ok h.checkpoint,
    ))
    else if ltb_ℤ (pos 0) h.checkpoint.tree_n
    then extend_head api prove c h msg cp
    else (with_head c msg cp, ok cp)

unfoldable pub update_with : Api → Prove → Client → Bytes → Verdict → Client × Result Checkpoint
update_with api prove c msg (rejects e) = (c, err (policy_error e))
update_with api prove c msg (accepts cp) = update_head api prove c c.head msg cp

-- `Client.Update`
unfoldable pub update : Api → Prove → Client → Bytes → Client × Result Checkpoint
update api prove c msg = update_with api prove c msg (open_policy api c.policy msg)

-- `Client.Sync`, on what `latestCheckpoint` returned
unfoldable pub sync : Api → Prove → Client → Option Bytes → Client × Result Checkpoint
sync api prove c none = (c, err no_checkpoint)
sync api prove c (some msg) = update api prove c msg

-- What a read of one entry takes from the source, and tlog's record proofs.
pub record Records : Type 0 where
  -- the blob of `entryKey(index)`
  pub entry_blob : ℤ → Option Bytes
  -- tlog.ProveRecord over the tiles of the tree, tlog.CheckRecord and tlog.RecordHash
  pub prove_record : Checkpoint → ℤ → Option (List Bytes)
  pub check_record : List Bytes → ℤ → Bytes → ℤ → Bytes → Bool
  pub record_hash : Bytes → Bytes

unfoldable pub prove_entry : Records → Checkpoint → ℤ → Bytes → Result Bytes
prove_entry r head index content = elim (r.prove_record head index) [
  | none ↦ err no_proof
  | some proof ↦
      if r.check_record proof head.tree_n head.tree_hash index (r.record_hash content)
      then ok content
      else err bad_proof
]

-- `Client.entry`
unfoldable pub read_entry : Records → Checkpoint → ℤ → Result Bytes
read_entry r head index =
    if is_neg index || not (ltb_ℤ index head.tree_n)
    then err outside_tree
    else elim (r.entry_blob index) [
      | none ↦ err no_blob
      | some content ↦ prove_entry r head index content
    ]

-- `Client.Entry`
unfoldable pub entry : Records → Client → ℤ → Result Bytes
entry r c index = elim c.head [
  | none ↦ err no_checkpoint
  | some h ↦ read_entry r h.checkpoint index
]
