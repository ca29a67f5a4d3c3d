-- ===== src/Tlog/Witness/Loop.antt =====
-- The loop of `Witness.Run`: announcements, the checkpoints that wait for the source, and the proofs
-- that have been broadcast. Each event comes with what the source holds at its time; on a tick the
-- waiting checkpoints are tried again, in any order, each by an event of its own.
pub mod Once
use go_iroh_experiments.Base.{
  ℕ, ◌≡◌, ◌≢◌, refl, sym, ap, ◌∙◌, ◌⊎◌, inl, inr, Bool, true, false, not, ◌||◌, List, [], ◌∷◌, ◌++◌,
  Option, none, some, arith, if◌then◌else◌, Bool-cases, Option-cases, Bytes, equal, equal_iff,
  equal_self,
}
use go_iroh_experiments.Base.Dict.{Map, lookup, insert, remove, lookup-insert, lookup-remove}
use go_iroh_experiments.Tlog.Api.{Api}
use go_iroh_experiments.Tlog.Equivocation.{
  Equivocation, marshal_binary, unmarshal_binary, verify_equivocation, Kind, env_checkpoint,
  env_equivocation, envelope, open_envelope,
}
use go_iroh_experiments.Tlog.Notes.{split_note, contains, IsDistinct}
use go_iroh_experiments.Tlog.Witness.{
  Head, Witness, Prove, Refusal, source_stale, equivocation, Result, ok, err, cosign,
}

pub record Run : Type 0 where
  pub witness : Witness
  -- checkpoint text to the message that waits
  pub pending : Map Bytes
  -- proofs broadcast so far
  pub flooded : List Bytes
  -- what `topic.Broadcast` was called with, the last first
  pub sent : List Bytes

unfoldable pub broadcast : Kind → Bytes → Run → Run
broadcast k payload r = record r { sent = envelope k payload ∷ r.sent }

-- A proof is broadcast the first time only.
unfoldable pub flood : Bytes → Run → Run
flood proof r =
    if contains r.flooded proof
    then r
    else record r { flooded = proof ∷ r.flooded; sent = envelope env_equivocation proof ∷ r.sent }

unfoldable pub unpark : Bytes → Run → Run
unpark text r = record r { pending = remove text r.pending }

unfoldable pub flood_marshaled : Option Bytes → Run → Run
flood_marshaled none r = r
flood_marshaled (some proof) r = flood proof r

-- The switch on the outcome of `Cosign`, in `process`.
unfoldable pub processed : Bytes → Bytes → Result Bytes → Run → Run
processed text payload (ok m) r = broadcast env_checkpoint m (unpark text r)
processed text payload (err source_stale) r = record r { pending = insert text payload r.pending }
processed text payload (err (equivocation e)) r = flood_marshaled (marshal_binary e) (unpark text r)
processed text payload (err _) r = unpark text r

unfoldable pub process : Api → Bytes → Prove → Bytes → Bytes → Run → Run
process api signer prove text payload r =
    let (w, outcome) = cosign api signer prove r.witness payload in
    processed text payload outcome (record r { witness = w })

unfoldable pub receive_proof : Api → Bytes → Run → Run
receive_proof api payload r = elim (unmarshal_binary payload) [
  | none ↦ r
  | some e ↦ elim (verify_equivocation api e r.witness.origin r.witness.operator) [
    | none ↦ r
    | some _ ↦ flood payload r
  ]
]

unfoldable pub receive_checkpoint : Api → Bytes → Prove → Bytes → Run → Run
receive_checkpoint api signer prove payload r = elim (split_note payload) [
  | none ↦ r
  | some (text, _) ↦ process api signer prove text payload r
]

unfoldable pub received : Api → Bytes → Prove → Option (Kind × Bytes) → Run → Run
received api signer prove none r = r
received api signer prove (some (env_equivocation, payload)) r = receive_proof api payload r
received api signer prove (some (env_checkpoint, payload)) r =
    receive_checkpoint api signer prove payload r

unfoldable pub retried : Api → Bytes → Prove → Bytes → Option Bytes → Run → Run
retried api signer prove text none r = r
retried api signer prove text (some payload) r = process api signer prove text payload r

pub data Event : Type 0 where
  -- a message of the topic
  arrives : Prove → Bytes → Event
  -- the tick reaches the pending checkpoint of this text
  retries : Prove → Bytes → Event

unfoldable pub step : Api → Bytes → Run → Event → Run
step api signer r (arrives prove content) = received api signer prove (open_envelope content) r
step api signer r (retries prove text) = retried api signer prove text (lookup text r.pending) r

unfoldable pub run_events : Api → Bytes → Run → List Event → Run
run_events api signer r [] = r
run_events api signer r (e ∷ es) = run_events api signer (step api signer r e) es
