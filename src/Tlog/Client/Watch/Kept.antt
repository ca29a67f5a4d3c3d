-- ===== src/Tlog/Client/Watch/Kept.antt =====
-- What a step of `Watch` keeps where it yields nothing or a proof.
use go_iroh_experiments.Base.{
  ◌≡◌, refl, inl, inr, Bool, List, [], ◌∷◌, Option, none, some, Bytes, Bool-cases,
}
use go_iroh_experiments.Tlog.Api.{Checkpoint}
use go_iroh_experiments.Tlog.Equivocation.{Equivocation, marshal_binary}
use go_iroh_experiments.Tlog.Notes.{contains}
use go_iroh_experiments.Tlog.Policy
use go_iroh_experiments.Tlog.Client.{
  ClientError, err, policy_error, source_stale, equivocation, rollback, inconsistent, no_checkpoint,
  outside_tree, no_blob, no_proof, bad_proof,
}
use go_iroh_experiments.Tlog.Client.Watch.{
  Yield, yields_checkpoint, yields_equivocation, Watch, yield, flood, flood_marshaled, park, unpark,
  processed,
}

-- The checkpoints among the yields.
unfoldable pub checkpoints_of : List Yield → List Checkpoint
checkpoints_of [] = []
checkpoints_of (yields_checkpoint cp ∷ ys) = cp ∷ checkpoints_of ys
checkpoints_of (yields_equivocation e ∷ ys) = checkpoints_of ys

-- What is kept where nothing is yielded but a proof.
pub record Keeps (w v : Watch) : Type 0 where
  pub client_kept : v.client ≡ w.client
  pub checkpoints_kept : checkpoints_of v.yielded ≡ checkpoints_of w.yielded

pub flood-Keeps : (proof : Bytes) (w : Watch) → Keeps w (flood proof w)
unfolding flood
flood-Keeps proof w = elim (Bool-cases (contains w.flooded proof)) [
  | inl old ↦ rw old (record { client_kept = refl; checkpoints_kept = refl })
  | inr new ↦ rw new (record { client_kept = refl; checkpoints_kept = refl })
]

pub proof-Keeps :
    (e : Equivocation) (more : Bool) (w v : Watch)
    → Keeps w v
    → Keeps w (yield (yields_equivocation e) more v)
unfolding yield checkpoints_of
proof-Keeps e more w v k = record {
  client_kept = k.client_kept;
  checkpoints_kept = k.checkpoints_kept;
}

marshaled-Keeps :
    (p : Option Bytes) (text : Bytes) (w : Watch) → Keeps w (flood_marshaled p (unpark text w))
unfolding flood_marshaled unpark
marshaled-Keeps none text w = record { client_kept = refl; checkpoints_kept = refl }
marshaled-Keeps (some proof) text w =
    let k = flood-Keeps proof (unpark text w) in
    record { client_kept = k.client_kept; checkpoints_kept = k.checkpoints_kept }

park-Keeps : (text msg : Bytes) (w : Watch) → Keeps w (park text msg w)
unfolding park
park-Keeps text msg w = record { client_kept = refl; checkpoints_kept = refl }

pub unpark-Keeps : (text : Bytes) (w : Watch) → Keeps w (unpark text w)
unfolding unpark
unpark-Keeps text w = record { client_kept = refl; checkpoints_kept = refl }

pub failed-Keeps :
    (text msg : Bytes) (more : Bool) (e : ClientError) (w : Watch)
    → Keeps w (processed text msg more (err e) w)
unfolding processed
failed-Keeps text msg more (policy_error Policy.witness_threshold) w = park-Keeps text msg w
failed-Keeps text msg more source_stale w = park-Keeps text msg w
failed-Keeps text msg more (equivocation e) w =
    proof-Keeps e more w _ (marshaled-Keeps (marshal_binary e) text w)
failed-Keeps text msg more (policy_error Policy.zero_policy) w = unpark-Keeps text w
failed-Keeps text msg more (policy_error Policy.not_opened) w = unpark-Keeps text w
failed-Keeps text msg more (policy_error Policy.bad_text) w = unpark-Keeps text w
failed-Keeps text msg more (policy_error Policy.origin_mismatch) w = unpark-Keeps text w
failed-Keeps text msg more (policy_error Policy.missing_operator) w = unpark-Keeps text w
failed-Keeps text msg more (rollback) w = unpark-Keeps text w
failed-Keeps text msg more (inconsistent) w = unpark-Keeps text w
failed-Keeps text msg more (no_checkpoint) w = unpark-Keeps text w
failed-Keeps text msg more (outside_tree) w = unpark-Keeps text w
failed-Keeps text msg more (no_blob) w = unpark-Keeps text w
failed-Keeps text msg more (no_proof) w = unpark-Keeps text w
failed-Keeps text msg more (bad_proof) w = unpark-Keeps text w
