-- ===== src/Tlog/Client/Accepted.antt =====
-- What a client accepts, and what any sequence of calls keeps.
use go_iroh_experiments.Base.{
  ◌≡◌, refl, sym, subst, ◌⊎◌, inl, inr, true, not, ◌&&◌, List, [], ◌∷◌, Option, none, some, arith,
  if◌then◌else◌, Bool-cases, Option-cases, Bytes, equal, equal_iff,
}
use go_iroh_experiments.Go.Int.{pos, ltb_ℤ, eq_ℤ, eq_ℤ_iff}
use go_iroh_experiments.Tlog.Api.{Api, Checkpoint}
use go_iroh_experiments.Tlog.Policy.{PolicyError, Verdict, accepts, rejects, open_policy}
use go_iroh_experiments.Tlog.Notes.{merge_signed_notes}
use go_iroh_experiments.Tlog.Witness.{Head, Prove}
use go_iroh_experiments.Tlog.Witness.Step.{Follows, first, extends, from_empty, larger}
use go_iroh_experiments.Tlog.Witness.Heads.{
  none_yet, grows, HeadLe, HeadLe-refl, HeadLe-trans, Follows-HeadLe,
}
use go_iroh_experiments.Tlog.Client.{
  Client, ClientError, Result, ok, err, policy_error, rollback, inconsistent, source_stale, forks,
  with_head, restore, set_head_with, set_head, merged_or, extend_head, update_head, update_with,
  update,
}

-- The outcomes of `Update`: a checkpoint that the policy accepts and that follows the head becomes the
-- head; the head's tree again leaves it, and may add signatures to its message; an error changes
-- nothing.
pub data Updates (api : Api) (c : Client) (msg : Bytes) : Client × Result Checkpoint → Type 0 where
  advanced :
      (cp : Checkpoint)
      → open_policy api c.policy msg ≡ accepts cp
      → Follows api cp c.head
      → Updates api c msg (with_head c msg cp, ok cp)
  repeated :
      (cp : Checkpoint) (h : Head) (m : Bytes)
      → open_policy api c.policy msg ≡ accepts cp
      → c.head ≡ some h
      → cp.tree_n ≡ h.checkpoint.tree_n
      → cp.tree_hash ≡ h.checkpoint.tree_hash
      → Updates api c msg (with_head c m h.checkpoint, ok h.checkpoint)
  refused : (e : ClientError) → Updates api c msg (c, err e)

module _ (api : Api) (prove : Prove) (c : Client) (msg : Bytes) (cp : Checkpoint)
    (opens : open_policy api c.policy msg ≡ accepts cp) where
  extend-Updates :
      (h : Head)
      → c.head ≡ some h
      → ltb_ℤ h.checkpoint.tree_n cp.tree_n ≡ true
      → Updates api c msg (extend_head api prove c h msg cp)
  unfolding extend_head
  extend-Updates h eh more = elim (Option-cases (prove cp h.checkpoint.tree_n)) [
    | inl e ↦ rw (e, extend_head) (refused source_stale)
    | inr (proof, e) ↦
        elim (Bool-cases (
          api.check_tree proof cp.tree_n cp.tree_hash h.checkpoint.tree_n h.checkpoint.tree_hash)) [
            | inl t ↦
                rw (e, extend_head, t)
                  (advanced cp opens (subst (Follows api cp) (sym eh) (extends proof more t)))
            | inr f ↦ rw (e, extend_head, f) (refused inconsistent)
          ]
  ]

  same-Updates :
      (h : Head)
      → c.head ≡ some h
      → cp.tree_n ≡ h.checkpoint.tree_n
      → Updates api c msg (
          if not (equal cp.tree_hash h.checkpoint.tree_hash) then (c, err (forks h msg)) else (
            with_head c (merged_or h.msg (merge_signed_notes h.msg msg)) h.checkpoint,
            ok h.checkpoint,
          ))
  same-Updates h eh n = elim (Bool-cases (equal cp.tree_hash h.checkpoint.tree_hash)) [
    | inl e ↦
        rw e (repeated cp h _ opens eh n ((equal_iff cp.tree_hash h.checkpoint.tree_hash).0 e))
    | inr e ↦ rw e (refused (forks h msg))
  ]

  head-Updates :
      (o : Option Head) → c.head ≡ o → Updates api c msg (update_head api prove c o msg cp)
  unfolding update_head
  head-Updates none eh = advanced cp opens (subst (Follows api cp) (sym eh) first)
  head-Updates (some h) eh = elim (Bool-cases (ltb_ℤ cp.tree_n h.checkpoint.tree_n)) [
    | inl less ↦ rw less (refused rollback)
    | inr ge ↦ rw ge (elim (Bool-cases (eq_ℤ cp.tree_n h.checkpoint.tree_n)) [
      | inl eq ↦ rw eq (same-Updates h eh ((eq_ℤ_iff cp.tree_n h.checkpoint.tree_n).0 eq))
      | inr ne ↦ rw ne (
          let more = larger cp.tree_n h.checkpoint.tree_n ge ne in
          elim (Bool-cases (ltb_ℤ (pos 0) h.checkpoint.tree_n)) [
            | inl entries ↦ rw entries (extend-Updates h eh more)
            | inr empty ↦
                rw empty
                  (advanced cp opens (subst (Follows api cp) (sym eh) (from_empty more empty)))
          ])
    ])
  ]

Verdict-cases :
    (v : Verdict) → ((cp : Checkpoint) × (v ≡ accepts cp)) ⊎ ((e : PolicyError) × (v ≡ rejects e))
Verdict-cases (accepts cp) = inl (cp, refl)
Verdict-cases (rejects e) = inr (e, refl)

-- `Update` ends in one of these ways. The message's checkpoint is accepted by the policy and follows the
-- head (there is none, or it is a larger tree with a proof of consistency that checks, or the head's
-- tree is empty), and it becomes the head with this message; or it is accepted and is the head's tree
-- again, and the head's checkpoint stays; or there is an error, and the client is as before.
pub update-Updates :
    (api : Api) (prove : Prove) (c : Client) (msg : Bytes)
    → Updates api c msg (update api prove c msg)
unfolding update update_with
update-Updates api prove c msg = elim (Verdict-cases (open_policy api c.policy msg)) [
  | inl (cp, e) ↦ rw (e, update_with) (head-Updates api prove c msg cp e c.head refl)
  | inr (x, e) ↦ rw (e, update_with) (refused (policy_error x))
]

pub Updates-HeadLe :
    {api : Api} {c : Client} {msg : Bytes} {r : Client × Result Checkpoint}
    → Updates api c msg r
    → HeadLe c.head (r.0).head
Updates-HeadLe {msg = msg} (advanced cp o f) = Follows-HeadLe msg f
Updates-HeadLe {c} (repeated cp h m o e n t) =
    subst (λ x. HeadLe x (some (record { msg = m; checkpoint = h.checkpoint }))) (sym e)
      (grows (omega arith) (λ k. refl))
Updates-HeadLe {c} (refused e) = HeadLe-refl c.head

restore-HeadLe :
    (c : Client) (o : Option Head) (msg : Bytes) (cp : Checkpoint)
    → c.head ≡ o
    → HeadLe o (restore c o msg cp).0.head
unfolding restore
restore-HeadLe c none msg cp e = none_yet
restore-HeadLe c (some h) msg cp e = elim (Bool-cases (ltb_ℤ cp.tree_n h.checkpoint.tree_n)) [
  | inl less ↦ rw (less, e) (HeadLe-refl (some h))
  | inr ge ↦
      elim (Bool-cases
        (eq_ℤ cp.tree_n h.checkpoint.tree_n && not (equal cp.tree_hash h.checkpoint.tree_hash))) [
          | inl fork ↦ rw (ge, fork, e) (HeadLe-refl (some h))
          | inr fine ↦
              rw (ge, fine)
                (grows (ground arith) (λ n. ground (
                  arith,
                  eq_ℤ_iff cp.tree_n h.checkpoint.tree_n,
                  equal_iff cp.tree_hash h.checkpoint.tree_hash,
                )))
        ]
]

set_head-HeadLe : (api : Api) (c : Client) (msg : Bytes) → HeadLe c.head (set_head api c msg).0.head
unfolding set_head set_head_with
set_head-HeadLe api c msg = elim (Verdict-cases (open_policy api c.policy msg)) [
  | inl (cp, e) ↦ rw (e, set_head_with) (restore-HeadLe c c.head msg cp refl)
  | inr (x, e) ↦ rw (e, set_head_with) (HeadLe-refl c.head)
]

pub data Call : Type 0 where
  updates : Prove → Bytes → Call
  restores : Bytes → Call

unfoldable pub step : Api → Client → Call → Client
step api c (updates prove msg) = (update api prove c msg).0
step api c (restores msg) = (set_head api c msg).0

unfoldable pub run : Api → Client → List Call → Client
run api c [] = c
run api c (k ∷ ks) = run api (step api c k) ks

step-HeadLe : (api : Api) (c : Client) (k : Call) → HeadLe c.head (step api c k).head
unfolding step
step-HeadLe api c (updates prove msg) = Updates-HeadLe (update-Updates api prove c msg)
step-HeadLe api c (restores msg) = set_head-HeadLe api c msg

-- No sequence of `Update` and `SetHead` takes a client's head back to a smaller tree, or to another tree
-- of the same size.
pub calls-HeadLe : (api : Api) (ks : List Call) (c : Client) → HeadLe c.head (run api c ks).head
unfolding run
calls-HeadLe api [] c = HeadLe-refl c.head
calls-HeadLe api (k ∷ ks) c =
    HeadLe-trans (step-HeadLe api c k) (calls-HeadLe api ks (step api c k))
