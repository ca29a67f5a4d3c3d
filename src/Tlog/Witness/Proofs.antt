-- ===== src/Tlog/Witness/Proofs.antt =====
-- The proof in an equivocation error verifies.
use go_iroh_experiments.Base.{
  ◌≡◌, refl, sym, ap, subst, ◌∙◌, List, [], ◌∷◌, Option, none, some, arith, Bytes, equal_iff,
}
use go_iroh_experiments.Go.Int.{ℤ}
use go_iroh_experiments.Tlog.Api.{Api, Checkpoint, Verifier, Note}
use go_iroh_experiments.Tlog.Checkpoint.{parse_checkpoint}
use go_iroh_experiments.Tlog.Equivocation.{
  Equivocation, opened, open_operator_checkpoint, verify_equivocation, verify_equivocation_iff,
  opened-IsOperatorHead,
}
use go_iroh_experiments.Tlog.Witness.{
  Head, Witness, Prove, Result, err, Refusal, equivocation, keep_unverified, cosign,
}
use go_iroh_experiments.Tlog.Witness.Step.{
  Cosigns, cosigned, unopened, unparsed, foreign, conflicting, unsigned, Conflicts, smaller, forked,
  stale, unproved, cosign-Cosigns,
}
use go_iroh_experiments.Tlog.Witness.Heads.{run}

-- note.Sign keeps the text and the signatures that verified, so that the result opens again.
abbrev pub KeepsText : Api → Type 0
KeepsText api =
    (vs : List Verifier) (m m' signer : Bytes) (n : Note)
    → api.open_note vs m ≡ some n
    → api.sign_note (keep_unverified n) signer ≡ some m'
    → (n' : Note) × (api.open_note vs m' ≡ some n') × (n'.text ≡ n.text)

-- The head's message opens as the head's checkpoint.
abbrev pub HeadOpens : Api → Witness → Option Head → Type 0
HeadOpens api w none = Unit
HeadOpens api w (some h) =
    open_operator_checkpoint api h.msg w.origin w.operator ≡ opened h.checkpoint

opens_as :
    (api : Api) (msg origin : Bytes) (op : Verifier) (n : Note) (cp : Checkpoint)
    → api.open_note (op ∷ []) msg ≡ some n
    → parse_checkpoint api n.text ≡ some cp
    → cp.origin ≡ origin
    → open_operator_checkpoint api msg origin op ≡ opened cp
unfolding open_operator_checkpoint
opens_as api msg origin op n cp o p e = ground (arith, equal_iff cp.origin origin)

-- What a witness keeps of itself.
abbrev SameLog : Witness → Witness → Type 0
SameLog w v = (v.origin ≡ w.origin) × (v.operator ≡ w.operator)

Cosigns-HeadOpens :
    {api : Api} {signer : Bytes} {prove : Prove} {w : Witness} {msg : Bytes}
    {r : Witness × Result Bytes}
    → KeepsText api
    → HeadOpens api w w.head
    → Cosigns api signer prove w msg r
    → HeadOpens api r.0 (r.0).head × SameLog w r.0
Cosigns-HeadOpens {api} {signer} {w} {msg} law h (cosigned n cp m o p e f s) =
    let (n', o', t) = law (w.operator ∷ []) msg m signer n o s in
    (opens_as api m w.origin w.operator n' cp o' (ap (parse_checkpoint api) t ∙ p) e, (refl, refl))
Cosigns-HeadOpens law h (unopened o) = (h, (refl, refl))
Cosigns-HeadOpens law h (unparsed n o p) = (h, (refl, refl))
Cosigns-HeadOpens law h (foreign n cp o p e) = (h, (refl, refl))
Cosigns-HeadOpens law h (conflicting n cp x o p e c) = (h, (refl, refl))
Cosigns-HeadOpens law h (unsigned n cp o p e f s) = (h, (refl, refl))

run-HeadOpens :
    (api : Api) (signer : Bytes) (calls : List (Prove × Bytes)) (w : Witness)
    → KeepsText api
    → HeadOpens api w w.head
    → HeadOpens api (run api signer w calls) (run api signer w calls).head
unfolding run
run-HeadOpens api signer [] w law h = h
run-HeadOpens api signer ((prove, msg) ∷ calls) w law h =
    run-HeadOpens api signer calls (cosign api signer prove w msg).0 law
      (Cosigns-HeadOpens law h (cosign-Cosigns api signer prove w msg)).0

-- The error that an outcome carries, if it is an equivocation.
abbrev pub Reports : Witness × Result Bytes → Equivocation → Type 0
Reports r e = r.1 ≡ err (equivocation e)

forked-verifies :
    (api : Api) (prove : Prove) (w : Witness) (msg : Bytes) (cp : Checkpoint) (o : Option Head)
    (x : Refusal) (e : Equivocation)
    → HeadOpens api w o
    → open_operator_checkpoint api msg w.origin w.operator ≡ opened cp
    → Conflicts api prove cp msg o x
    → x ≡ equivocation e
    → verify_equivocation api e w.origin w.operator ≡ some cp.tree_n
forked-verifies api prove w msg cp o x e h op (smaller l) q = absurd (ground arith)
forked-verifies api prove w msg cp o x e h op (forked {h = hd} n ne) q =
    let same : record { first = hd.msg; second = msg } ≡ e = ground arith in
    rw (← same) (
      (verify_equivocation_iff api _ w.origin w.operator cp.tree_n).1 (record {
        head_a = hd.checkpoint;
        head_b = cp;
        first_signed = opened-IsOperatorHead api hd.msg w.origin w.operator hd.checkpoint h;
        second_signed = opened-IsOperatorHead api msg w.origin w.operator cp op;
        size_a = sym n;
        size_b = refl;
        hash_ne = λ t. ne (sym t);
      }))
forked-verifies api prove w msg cp o x e h op (stale l t) q = absurd (ground arith)
forked-verifies api prove w msg cp o x e h op (unproved proof l s t) q = absurd (ground arith)

reported-verifies :
    (api : Api) (signer : Bytes) (prove : Prove) (w : Witness) (msg : Bytes) (e : Equivocation)
    {r : Witness × Result Bytes}
    → HeadOpens api w w.head
    → Cosigns api signer prove w msg r
    → Reports r e
    → (n : ℤ) × (verify_equivocation api e w.origin w.operator ≡ some n)
reported-verifies api signer prove w msg e h (cosigned n cp m o p q f s) rep = absurd (ground arith)
reported-verifies api signer prove w msg e h (unopened o) rep = absurd (ground arith)
reported-verifies api signer prove w msg e h (unparsed n o p) rep = absurd (ground arith)
reported-verifies api signer prove w msg e h (foreign n cp o p q) rep = absurd (ground arith)
reported-verifies api signer prove w msg e h (unsigned n cp o p q f s) rep = absurd (ground arith)
reported-verifies api signer prove w msg e h (conflicting n cp x o p q c) rep =
    let same : x ≡ equivocation e = ground arith in
    (
      cp.tree_n,
      forked-verifies api prove w msg cp w.head x e h
          (opens_as api msg w.origin w.operator n cp o p q) c same,
    )

-- If `note.Sign` keeps what opens, then the proof that `cosign` reports, after any sequence of calls to
-- a new witness, is one that `VerifyEquivocation` accepts for the log and the operator.
pub equivocation-verifies :
    (api : Api) (signer : Bytes) (calls : List (Prove × Bytes)) (prove : Prove) (w : Witness)
    (msg : Bytes) (e : Equivocation)
    → KeepsText api
    → w.head ≡ none
    → Reports (cosign api signer prove (run api signer w calls) msg) e
    → (n : ℤ) × (verify_equivocation api e
          (run api signer w calls).origin
          (run api signer w calls).operator
        ≡ some n)
equivocation-verifies api signer calls prove w msg e law new rep =
    reported-verifies api signer prove (run api signer w calls) msg e
      (run-HeadOpens api signer calls w law (subst (HeadOpens api w) (sym new) tt))
      (cosign-Cosigns api signer prove (run api signer w calls) msg) rep
