-- ===== src/Tlog/Client/Watch/Rising.antt =====
-- The checkpoints that `Watch` yields never go back.
use go_iroh_experiments.Base.{
  ◌≡◌, refl, sym, ap, subst, ◌⊎◌, inl, inr, Bool, List, [], ◌∷◌, Option, none, some, arith, Bytes,
  All, Bool-cases, Option-cases,
}
use go_iroh_experiments.Base.Dict.{lookup}
use go_iroh_experiments.Tlog.Api.{Api, Checkpoint}
use go_iroh_experiments.Tlog.Equivocation.{
  unmarshal_binary, Kind, env_checkpoint, env_equivocation, open_envelope,
}
use go_iroh_experiments.Tlog.Notes.{split_note}
use go_iroh_experiments.Tlog.Witness.{Head, Prove}
use go_iroh_experiments.Tlog.Witness.Heads.{HeadLe, grows, HeadLe-trans}
use go_iroh_experiments.Tlog.Client.{Client, ClientError, Result, ok, err, update}
use go_iroh_experiments.Tlog.Client.Accepted.{
  Updates, advanced, repeated, refused, update-Updates, Updates-HeadLe,
}
use go_iroh_experiments.Tlog.Client.Watch.{
  yields_equivocation, Watch, new_watch, same_checkpoint, yield, flood, unpark, accepted, processed,
  process, verified, receive_proof, best_message, receive_checkpoint, received, retried, Event,
  arrives, retries, step, watch,
}
use go_iroh_experiments.Tlog.Client.Watch.Kept.{
  checkpoints_of, Keeps, flood-Keeps, proof-Keeps, unpark-Keeps, failed-Keeps,
}

Result-cases :
    (r : Result Checkpoint) → ((cp : Checkpoint) × (r ≡ ok cp)) ⊎ ((e : ClientError) × (r ≡ err e))
Result-cases (ok cp) = inl (cp, refl)
Result-cases (err e) = inr (e, refl)

ok-injective : {a b : Checkpoint} → ok a ≡ ok b → a ≡ b
ok-injective e = cc

abbrev head_at : Checkpoint → Option Head
head_at cp = some (record { msg = []; checkpoint = cp })

-- Each checkpoint is of a tree not smaller than those before it, and the same tree if the size is.
abbrev pub Rises : List Checkpoint → Type 0
Rises [] = Unit
Rises (cp ∷ cps) = All (λ old. HeadLe (head_at old) (head_at cp)) cps × Rises cps

-- The yields rise, up to the head.
record IsRising (w : Watch) : Type 0 where
  rises : Rises (checkpoints_of w.yielded)
  below : All (λ old. HeadLe (head_at old) w.client.head) (checkpoints_of w.yielded)

All-le :
    (a b : Option Head) (cps : List Checkpoint)
    → HeadLe a b
    → All (λ old. HeadLe (head_at old) a) cps
    → All (λ old. HeadLe (head_at old) b) cps
All-le a b [] le h = tt
All-le a b (cp ∷ cps) le h = (HeadLe-trans h.0 le, All-le a b cps le h.1)

same_head :
    (m n : Bytes) (cp : Checkpoint)
    → HeadLe
        (some (record { msg = m; checkpoint = cp }))
        (some (record { msg = n; checkpoint = cp }))
same_head m n cp = grows (omega arith) (λ e. refl)

Keeps-IsRising : (w v : Watch) → Keeps w v → IsRising w → IsRising v
Keeps-IsRising w v k r = record {
  rises = subst Rises (sym k.checkpoints_kept) r.rises;
  below =
      subst (λ (c : Client). All (λ old. HeadLe (head_at old) c.head) (checkpoints_of v.yielded))
        (sym k.client_kept)
        (subst (All (λ old. HeadLe (head_at old) w.client.head)) (sym k.checkpoints_kept) r.below);
}

-- The newest yield is the checkpoint of the head.
accepted-IsRising :
    (cp : Checkpoint) (more : Bool) (w : Watch) (m : Bytes)
    → w.client.head ≡ some (record { msg = m; checkpoint = cp })
    → IsRising w
    → IsRising (accepted cp more w)
unfolding accepted yield checkpoints_of
accepted-IsRising cp more w m at r = elim (Bool-cases (same_checkpoint cp w.last_yielded)) [
  | inl again ↦ rw again r
  | inr new ↦
      let here = same_head m [] cp in
      rw new (record {
        rises = (
          All-le w.client.head (head_at cp) (checkpoints_of w.yielded)
              (subst (λ (o : Option Head). HeadLe o (head_at cp)) (sym at) here) r.below,
          r.rises,
        );
        below = (subst (HeadLe (head_at cp)) (sym at) (same_head [] m cp), r.below);
      })
]

-- The head after an Update that succeeds has the checkpoint that it returns.
Updates-head :
    {api : Api} {c : Client} {msg : Bytes} {r : Client × Result Checkpoint}
    → Updates api c msg r
    → (cp : Checkpoint) → r.1 ≡ ok cp
    → (m : Bytes) × (r.0.head ≡ some (record { msg = m; checkpoint = cp }))
Updates-head {msg = msg} (advanced cp o f) cp' e =
    (msg, ap (λ (x : Checkpoint). some (record { msg = msg; checkpoint = x })) (ok-injective e))
Updates-head (repeated cp h m o e n t) cp' same =
    (m, ap (λ (x : Checkpoint). some (record { msg = m; checkpoint = x })) (ok-injective same))
Updates-head (refused e) cp' same = absurd (ground arith)

process-IsRising :
    (api : Api) (prove : Prove) (text msg : Bytes) (more : Bool) (w : Watch)
    → IsRising w
    → IsRising (process api prove text msg more w)
unfolding process
process-IsRising api prove text msg more w r =
    let updates = update-Updates api prove w.client msg in
    let after = update api prove w.client msg in
    let v : Watch = record w { client = after.0 } in
    let moved : IsRising v = record {
      rises = r.rises;
      below =
          All-le w.client.head after.0.head (checkpoints_of w.yielded) (Updates-HeadLe updates)
            r.below;
    } in
    elim (Result-cases after.1) [
      | inr (e, failed) ↦
          subst (λ (o : Result Checkpoint). IsRising (processed text msg more o v)) (sym failed)
            (Keeps-IsRising v _ (failed-Keeps text msg more e v) moved)
      | inl (cp, done) ↦
          let (m, at) = Updates-head updates cp done in
          subst (λ (o : Result Checkpoint). IsRising (processed text msg more o v)) (sym done)
            (unfold processed in
              accepted-IsRising cp more (unpark text v) m (unfold unpark in at)
                (Keeps-IsRising v _ (unpark-Keeps text v) moved))
    ]

proof-IsRising :
    (api : Api) (payload : Bytes) (more : Bool) (w : Watch)
    → IsRising w
    → IsRising (receive_proof api payload more w)
unfolding receive_proof
proof-IsRising api payload more w r = elim (Option-cases (unmarshal_binary payload)) [
  | inl bad ↦ subst IsRising (ground arith) r
  | inr (e, read) ↦ elim (Bool-cases (verified api w.client e)) [
    | inr wrong ↦ subst IsRising (ground arith) r
    | inl right ↦
        let shown : receive_proof api payload more w
            ≡ yield (yields_equivocation e) more (flood payload w) =
          ground arith in
        subst IsRising (sym shown)
          (Keeps-IsRising w _ (proof-Keeps e more w _ (flood-Keeps payload w)) r)
  ]
]

checkpoint-IsRising :
    (api : Api) (prove : Prove) (payload : Bytes) (more : Bool) (w : Watch)
    → IsRising w
    → IsRising (receive_checkpoint api prove payload more w)
unfolding receive_checkpoint
checkpoint-IsRising api prove payload more w r = elim (Option-cases (split_note payload)) [
  | inl bad ↦ subst IsRising (ground arith) r
  | inr ((text, sigs), read) ↦
      let best = best_message (lookup text w.pending) payload in
      let shown : receive_checkpoint api prove payload more w ≡ process api prove text best more w =
        ground arith in
      subst IsRising (sym shown) (process-IsRising api prove text best more w r)
]

received-IsRising :
    (api : Api) (prove : Prove) (o : Option (Kind × Bytes)) (more : Bool) (w : Watch)
    → IsRising w
    → IsRising (received api prove o more w)
unfolding received
received-IsRising api prove none more w r = r
received-IsRising api prove (some (env_equivocation, payload)) more w r =
    proof-IsRising api payload more w r
received-IsRising api prove (some (env_checkpoint, payload)) more w r =
    checkpoint-IsRising api prove payload more w r

retried-IsRising :
    (api : Api) (prove : Prove) (text : Bytes) (o : Option Bytes) (more : Bool) (w : Watch)
    → IsRising w
    → IsRising (retried api prove text o more w)
unfolding retried
retried-IsRising api prove text none more w r = r
retried-IsRising api prove text (some msg) more w r = process-IsRising api prove text msg more w r

step-IsRising : (api : Api) (w : Watch) (e : Event) → IsRising w → IsRising (step api w e)
unfolding step
step-IsRising api w (arrives prove content more) r =
    received-IsRising api prove (open_envelope content) more w r
step-IsRising api w (retries prove text more) r =
    retried-IsRising api prove text (lookup text w.pending) more w r

watch-IsRising : (api : Api) (es : List Event) (w : Watch) → IsRising w → IsRising (watch api w es)
unfolding watch
watch-IsRising api [] w r = r
watch-IsRising api (e ∷ es) w r = elim (Bool-cases w.running) [
  | inr over ↦ subst IsRising (ground arith) r
  | inl going ↦
      let next : watch api w (e ∷ es) ≡ watch api (step api w e) es = ground arith in
      subst IsRising (sym next) (watch-IsRising api es (step api w e) (step-IsRising api w e r))
]

-- The checkpoints that `Watch` yields, over any announcements, proofs and retries and whatever the
-- source holds at their times, never go back: each is of a tree not smaller than any yielded before
-- it, and of the same hash as one of its size.
pub watch-Rises :
    (api : Api) (c : Client) (es : List Event)
    → Rises (checkpoints_of (watch api (new_watch c) es).yielded)
unfolding new_watch checkpoints_of
watch-Rises api c es =
    (watch-IsRising api es (new_watch c) (record { rises = tt; below = tt })).rises
