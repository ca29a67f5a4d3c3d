-- ===== src/Tlog/Client/Watch.antt =====
-- The loop of `Client.Watch`. Each event comes with what the source holds at its time, and with what
-- the consumer answers if the event yields; on a tick each pending checkpoint is an event of its own.
pub mod Kept
pub mod Rising
use go_iroh_experiments.Base.{
  Bool, true, false, ◌&&◌, List, [], ◌∷◌, Option, none, some, if◌then◌else◌, Bytes, equal,
  replicate,
}
use go_iroh_experiments.Base.Dict.{Map, lookup, insert, remove}
use go_iroh_experiments.Go.Int.{pos, eq_ℤ}
use go_iroh_experiments.Tlog.Api.{Api, Checkpoint}
use go_iroh_experiments.Tlog.Equivocation.{
  Equivocation, marshal_binary, unmarshal_binary, verify_equivocation, Kind, env_checkpoint,
  env_equivocation, envelope, open_envelope,
}
use go_iroh_experiments.Tlog.Notes.{split_note, contains, merge_signed_notes}
use go_iroh_experiments.Tlog.Policy.{witness_threshold}
use go_iroh_experiments.Tlog.Witness.{Prove}
use go_iroh_experiments.Tlog.Client.{
  Client, Result, ok, err, policy_error, source_stale, equivocation, merged_or, update,
}

-- What `yield` is called with.
pub data Yield : Type 0 where
  yields_checkpoint : Checkpoint → Yield
  yields_equivocation : Equivocation → Yield

pub record Watch : Type 0 where
  pub client : Client
  -- checkpoint text to the best merged message
  pub pending : Map Bytes
  -- proofs broadcast so far
  pub flooded : List Bytes
  pub last_yielded : Checkpoint
  -- the yields and what `topic.Broadcast` was called with, the last first
  pub yielded : List Yield
  pub sent : List Bytes
  -- the loop has not returned
  pub running : Bool

-- `lastYielded` before the first yield
abbrev pub no_checkpoint : Checkpoint
no_checkpoint = record { origin = []; tree_n = pos 0; tree_hash = replicate 32 0 }

unfoldable pub new_watch : Client → Watch
new_watch c = record {
  client = c;
  pending = [];
  flooded = [];
  last_yielded = no_checkpoint;
  yielded = [];
  sent = [];
  running = true;
}

-- `cp == lastYielded`
unfoldable pub same_checkpoint : Checkpoint → Checkpoint → Bool
same_checkpoint a b =
    equal a.origin b.origin && (eq_ℤ a.tree_n b.tree_n && equal a.tree_hash b.tree_hash)

-- The loop returns if the consumer wants no more.
unfoldable pub yield : Yield → Bool → Watch → Watch
yield y more w = record w { yielded = y ∷ w.yielded; running = more }

unfoldable pub flood : Bytes → Watch → Watch
flood proof w =
    if contains w.flooded proof
    then w
    else record w { flooded = proof ∷ w.flooded; sent = envelope env_equivocation proof ∷ w.sent }

unfoldable pub flood_marshaled : Option Bytes → Watch → Watch
flood_marshaled none w = w
flood_marshaled (some proof) w = flood proof w

unfoldable pub park : Bytes → Bytes → Watch → Watch
park text msg w = record w { pending = insert text msg w.pending }

unfoldable pub unpark : Bytes → Watch → Watch
unpark text w = record w { pending = remove text w.pending }

unfoldable pub accepted : Checkpoint → Bool → Watch → Watch
accepted cp more w =
    if same_checkpoint cp w.last_yielded
    then w
    else yield (yields_checkpoint cp) more (record w { last_yielded = cp })

-- The switch on the outcome of `Update`, in `process`.
unfoldable pub processed : Bytes → Bytes → Bool → Result Checkpoint → Watch → Watch
processed text msg more (ok cp) w = accepted cp more (unpark text w)
processed text msg more (err (policy_error witness_threshold)) w = park text msg w
processed text msg more (err source_stale) w = park text msg w
processed text msg more (err (equivocation e)) w =
    yield (yields_equivocation e) more (flood_marshaled (marshal_binary e) (unpark text w))
processed text msg more (err _) w = unpark text w

unfoldable pub process : Api → Prove → Bytes → Bytes → Bool → Watch → Watch
process api prove text msg more w =
    let (c, outcome) = update api prove w.client msg in
    processed text msg more outcome (record w { client = c })

-- With the zero Policy, which has no operator, the source panics here; the model drops the proof.
unfoldable pub verified : Api → Client → Equivocation → Bool
verified api c e = elim c.policy.operator [
  | none ↦ false
  | some operator ↦ elim (verify_equivocation api e c.policy.origin operator) [
    | none ↦ false
    | some _ ↦ true
  ]
]

unfoldable pub receive_proof : Api → Bytes → Bool → Watch → Watch
receive_proof api payload more w = elim (unmarshal_binary payload) [
  | none ↦ w
  | some e ↦
      if verified api w.client e then yield (yields_equivocation e) more (flood payload w) else w
]

-- A message of a pending text is merged with the one that is pending.
unfoldable pub best_message : Option Bytes → Bytes → Bytes
best_message none payload = payload
best_message (some prev) payload = merged_or payload (merge_signed_notes prev payload)

unfoldable pub receive_checkpoint : Api → Prove → Bytes → Bool → Watch → Watch
receive_checkpoint api prove payload more w = elim (split_note payload) [
  | none ↦ w
  | some (text, _) ↦ process api prove text (best_message (lookup text w.pending) payload) more w
]

unfoldable pub received : Api → Prove → Option (Kind × Bytes) → Bool → Watch → Watch
received api prove none more w = w
received api prove (some (env_equivocation, payload)) more w = receive_proof api payload more w
received api prove (some (env_checkpoint, payload)) more w =
    receive_checkpoint api prove payload more w

unfoldable pub retried : Api → Prove → Bytes → Option Bytes → Bool → Watch → Watch
retried api prove text none more w = w
retried api prove text (some msg) more w = process api prove text msg more w

pub data Event : Type 0 where
  -- a message of the topic
  arrives : Prove → Bytes → Bool → Event
  -- the tick reaches the pending checkpoint of this text
  retries : Prove → Bytes → Bool → Event

unfoldable pub step : Api → Watch → Event → Watch
step api w (arrives prove content more) = received api prove (open_envelope content) more w
step api w (retries prove text more) = retried api prove text (lookup text w.pending) more w

-- The events until the loop returns.
unfoldable pub watch : Api → Watch → List Event → Watch
watch api w [] = w
watch api w (e ∷ es) = elim w.running [ false ↦ w | true ↦ watch api (step api w e) es ]
