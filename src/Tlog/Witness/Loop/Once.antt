-- ===== src/Tlog/Witness/Loop/Once.antt =====
-- Each proof is broadcast once.
use go_iroh_experiments.Base.{
  ◌≡◌, ap, List, [], ◌∷◌, Option, none, some, ◌==◌, inl, inr, if◌then◌else◌, Bool-cases,
  Option-cases, Bytes,
}
use go_iroh_experiments.Base.Dict.{lookup}
use go_iroh_experiments.Tlog.Api.{Api}
use go_iroh_experiments.Tlog.Equivocation.{
  marshal_binary, unmarshal_binary, verify_equivocation, Kind, env_checkpoint, env_equivocation,
  envelope, kind_byte, open_envelope,
}
use go_iroh_experiments.Tlog.Notes.{split_note, contains, IsDistinct}
use go_iroh_experiments.Tlog.Witness.{Prove, source_stale, equivocation, Result, ok, err, cosign}
use go_iroh_experiments.Tlog.Witness.Loop.{
  Run, broadcast, flood, flood_marshaled, unpark, processed, process, receive_proof,
  receive_checkpoint, received, retried, Event, arrives, retries, step, run_events,
}

-- The payloads of the equivocation envelopes among the messages sent.
unfoldable pub proofs_of : List Bytes → List Bytes
proofs_of [] = []
proofs_of ([] ∷ sent) = proofs_of sent
proofs_of ((k ∷ payload) ∷ sent) =
    let rest = proofs_of sent in if k == 2 then payload ∷ rest else rest

-- The proofs sent are those marked as flooded, and none of them was sent twice.
pub record SendsOnce (r : Run) : Type 0 where
  pub distinct : IsDistinct r.flooded
  pub sent_are : proofs_of r.sent ≡ r.flooded

flood-SendsOnce : (proof : Bytes) (r : Run) → SendsOnce r → SendsOnce (flood proof r)
unfolding flood
flood-SendsOnce proof r v = elim (Bool-cases (contains r.flooded proof)) [
  | inl old ↦ rw old v
  | inr new ↦ rw new (record {
    distinct = (new, v.distinct);
    sent_are = unfold proofs_of envelope kind_byte in ap (◌∷◌ proof) v.sent_are;
  })
]

unpark-SendsOnce : (text : Bytes) (r : Run) → SendsOnce r → SendsOnce (unpark text r)
unfolding unpark
unpark-SendsOnce text r v = record { distinct = v.distinct; sent_are = v.sent_are }

flood_marshaled-SendsOnce :
    (p : Option Bytes) (r : Run) → SendsOnce r → SendsOnce (flood_marshaled p r)
unfolding flood_marshaled
flood_marshaled-SendsOnce none r v = v
flood_marshaled-SendsOnce (some proof) r v = flood-SendsOnce proof r v

broadcast-SendsOnce : (m : Bytes) (r : Run) → SendsOnce r → SendsOnce (broadcast env_checkpoint m r)
unfolding broadcast
broadcast-SendsOnce m r v = record {
  distinct = v.distinct;
  sent_are = unfold proofs_of envelope kind_byte in v.sent_are;
}

processed-SendsOnce :
    (text payload : Bytes) (o : Result Bytes) (r : Run)
    → SendsOnce r
    → SendsOnce (processed text payload o r)
unfolding processed
processed-SendsOnce text payload (ok m) r v =
    broadcast-SendsOnce m (unpark text r) (unpark-SendsOnce text r v)
processed-SendsOnce text payload (err source_stale) r v = record {
  distinct = v.distinct;
  sent_are = v.sent_are;
}
processed-SendsOnce text payload (err (equivocation e)) r v =
    flood_marshaled-SendsOnce (marshal_binary e) (unpark text r) (unpark-SendsOnce text r v)
processed-SendsOnce text payload (err _) r v = unpark-SendsOnce text r v

process-SendsOnce :
    (api : Api) (signer : Bytes) (prove : Prove) (text payload : Bytes) (r : Run)
    → SendsOnce r
    → SendsOnce (process api signer prove text payload r)
unfolding process
process-SendsOnce api signer prove text payload r v =
    processed-SendsOnce text payload (cosign api signer prove r.witness payload).1 _
      (record { distinct = v.distinct; sent_are = v.sent_are })

receive_proof-SendsOnce :
    (api : Api) (payload : Bytes) (r : Run) → SendsOnce r → SendsOnce (receive_proof api payload r)
unfolding receive_proof
receive_proof-SendsOnce api payload r v = elim (Option-cases (unmarshal_binary payload)) [
  | inl e ↦ rw (e, receive_proof) v
  | inr (p, e) ↦
      elim (Option-cases (verify_equivocation api p r.witness.origin r.witness.operator)) [
        | inl f ↦ rw (e, receive_proof, f) v
        | inr (n, f) ↦ rw (e, receive_proof, f) (flood-SendsOnce payload r v)
      ]
]

received-SendsOnce :
    (api : Api) (signer : Bytes) (prove : Prove) (m : Option (Kind × Bytes)) (r : Run)
    → SendsOnce r
    → SendsOnce (received api signer prove m r)
unfolding received receive_checkpoint
received-SendsOnce api signer prove none r v = v
received-SendsOnce api signer prove (some (env_equivocation, payload)) r v =
    receive_proof-SendsOnce api payload r v
received-SendsOnce api signer prove (some (env_checkpoint, payload)) r v =
    elim (Option-cases (split_note payload)) [
      | inl e ↦ rw (e, receive_checkpoint) v
      | inr ((text, sigs), e) ↦
          rw (e, receive_checkpoint) (process-SendsOnce api signer prove text payload r v)
    ]

retried-SendsOnce :
    (api : Api) (signer : Bytes) (prove : Prove) (text : Bytes) (o : Option Bytes) (r : Run)
    → SendsOnce r
    → SendsOnce (retried api signer prove text o r)
unfolding retried
retried-SendsOnce api signer prove text none r v = v
retried-SendsOnce api signer prove text (some payload) r v =
    process-SendsOnce api signer prove text payload r v

step-SendsOnce :
    (api : Api) (signer : Bytes) (e : Event) (r : Run)
    → SendsOnce r
    → SendsOnce (step api signer r e)
unfolding step
step-SendsOnce api signer (arrives prove content) r v =
    received-SendsOnce api signer prove (open_envelope content) r v
step-SendsOnce api signer (retries prove text) r v =
    retried-SendsOnce api signer prove text (lookup text r.pending) r v

-- Over any sequence of announcements and retries the proofs that a witness broadcasts are exactly those
-- that it has marked as flooded, and it broadcasts none of them twice, if that holds at the start (as
-- it does when nothing has been sent).
pub run_events-SendsOnce :
    (api : Api) (signer : Bytes) (es : List Event) (r : Run)
    → SendsOnce r
    → SendsOnce (run_events api signer r es)
unfolding run_events
run_events-SendsOnce api signer [] r v = v
run_events-SendsOnce api signer (e ∷ es) r v =
    run_events-SendsOnce api signer es (step api signer r e) (step-SendsOnce api signer e r v)
