-- ===== src/Tlog/Witness/Step.antt =====
-- What one call of `cosign` does, on every branch, and what any sequence of calls keeps.
use go_iroh_experiments.Base.{
  ◌≡◌, ◌≢◌, inl, inr, true, false, List, [], ◌∷◌, Option, none, some, arith, if◌then◌else◌,
  Bool-cases, Option-cases, Bytes, equal, equal_iff,
}
use go_iroh_experiments.Go.Int.{ℤ, pos, ltb_ℤ, eq_ℤ, eq_ℤ_iff}
use go_iroh_experiments.Tlog.Api.{Api, Checkpoint, Note}
use go_iroh_experiments.Tlog.Checkpoint.{parse_checkpoint}
use go_iroh_experiments.Tlog.Equivocation.{not_opened, bad_text, origin_mismatch}
use go_iroh_experiments.Tlog.Witness.{
  Head, Witness, Prove, Refusal, invalid, rollback, inconsistent, source_stale, not_signed,
  equivocation, Result, ok, err, check_consistency, check_head, keep_unverified, sign_and_store,
  cosign_note, cosign,
}

-- The new checkpoint may follow the head: there is none, it is the same tree, it is a larger tree
-- with a proof that checks, or the head's tree has no entry.
pub data Follows (api : Api) (cp : Checkpoint) : Option Head → Type 0 where
  first : Follows api cp none
  same :
      {h : Head}
      → cp.tree_n ≡ h.checkpoint.tree_n
      → cp.tree_hash ≡ h.checkpoint.tree_hash
      → Follows api cp (some h)
  extends :
      {h : Head} (proof : List Bytes)
      → ltb_ℤ h.checkpoint.tree_n cp.tree_n ≡ true
      → api.check_tree proof cp.tree_n cp.tree_hash h.checkpoint.tree_n h.checkpoint.tree_hash
        ≡ true
      → Follows api cp (some h)
  from_empty :
      {h : Head}
      → ltb_ℤ h.checkpoint.tree_n cp.tree_n ≡ true
      → ltb_ℤ (pos 0) h.checkpoint.tree_n ≡ false
      → Follows api cp (some h)

-- Why a head refuses a checkpoint.
pub data Conflicts (api : Api) (prove : Prove) (cp : Checkpoint) (msg : Bytes)
    : Option Head → Refusal → Type 0 where
  smaller :
      {h : Head}
      → ltb_ℤ cp.tree_n h.checkpoint.tree_n ≡ true
      → Conflicts api prove cp msg (some h) rollback
  forked :
      {h : Head}
      → cp.tree_n ≡ h.checkpoint.tree_n
      → cp.tree_hash ≢ h.checkpoint.tree_hash
      → Conflicts api prove cp msg (some h) (equivocation (record { first = h.msg; second = msg }))
  stale :
      {h : Head}
      → ltb_ℤ h.checkpoint.tree_n cp.tree_n ≡ true
      → prove cp h.checkpoint.tree_n ≡ none
      → Conflicts api prove cp msg (some h) source_stale
  unproved :
      {h : Head} (proof : List Bytes)
      → ltb_ℤ h.checkpoint.tree_n cp.tree_n ≡ true
      → prove cp h.checkpoint.tree_n ≡ some proof
      → api.check_tree proof cp.tree_n cp.tree_hash h.checkpoint.tree_n h.checkpoint.tree_hash
        ≡ false
      → Conflicts api prove cp msg (some h) inconsistent

abbrev pub Checks : Api → Prove → Checkpoint → Bytes → Option Head → Result (Unit {0}) → Type 0
Checks api prove cp msg o (ok _) = Follows api cp o
Checks api prove cp msg o (err e) = Conflicts api prove cp msg o e

pub larger : (a b : ℤ) → ltb_ℤ a b ≡ false → eq_ℤ a b ≡ false → ltb_ℤ b a ≡ true
larger a b p q = ground arith

proved-Checks :
    (api : Api) (prove : Prove) (h : Head) (cp : Checkpoint) (msg : Bytes)
    → ltb_ℤ h.checkpoint.tree_n cp.tree_n ≡ true
    → Checks api prove cp msg (some h) (check_consistency api prove h cp)
unfolding check_consistency
proved-Checks api prove h cp msg more = elim (Option-cases (prove cp h.checkpoint.tree_n)) [
  | inl e ↦ rw (e, check_consistency) (stale more e)
  | inr (proof, e) ↦
      elim (Bool-cases
        (api.check_tree proof cp.tree_n cp.tree_hash h.checkpoint.tree_n h.checkpoint.tree_hash)) [
          | inl t ↦ rw (e, check_consistency, t) (extends proof more t)
          | inr f ↦ rw (e, check_consistency, f) (unproved proof more e f)
        ]
]

same_size :
    (api : Api) (prove : Prove) (h : Head) (cp : Checkpoint) (msg : Bytes)
    → cp.tree_n ≡ h.checkpoint.tree_n
    → Checks api prove cp msg (some h) (
        if equal cp.tree_hash h.checkpoint.tree_hash
        then ok tt
        else err (equivocation (record { first = h.msg; second = msg })))
same_size api prove h cp msg n = elim (Bool-cases (equal cp.tree_hash h.checkpoint.tree_hash)) [
  | inl e ↦ rw e (same n ((equal_iff cp.tree_hash h.checkpoint.tree_hash).0 e))
  | inr e ↦ rw e (forked n (λ t. ground (arith, equal_iff cp.tree_hash h.checkpoint.tree_hash)))
]

pub check_head-Checks :
    (api : Api) (prove : Prove) (o : Option Head) (cp : Checkpoint) (msg : Bytes)
    → Checks api prove cp msg o (check_head api prove o cp msg)
unfolding check_head
check_head-Checks api prove none cp msg = first
check_head-Checks api prove (some h) cp msg =
    elim (Bool-cases (ltb_ℤ cp.tree_n h.checkpoint.tree_n)) [
      | inl less ↦ rw less (smaller less)
      | inr ge ↦ rw ge (elim (Bool-cases (eq_ℤ cp.tree_n h.checkpoint.tree_n)) [
        | inl eq ↦
            rw eq (same_size api prove h cp msg ((eq_ℤ_iff cp.tree_n h.checkpoint.tree_n).0 eq))
        | inr ne ↦ rw ne (elim (Bool-cases (ltb_ℤ (pos 0) h.checkpoint.tree_n)) [
          | inl some_entries ↦
              rw some_entries
                (proved-Checks api prove h cp msg (larger cp.tree_n h.checkpoint.tree_n ge ne))
          | inr empty ↦ rw empty (from_empty (larger cp.tree_n h.checkpoint.tree_n ge ne) empty)
        ])
      ])
    ]

-- The outcomes of `cosign`: a new head that follows the old one, signed; or an error, with the
-- witness as it was, for one of the listed reasons.
pub data Cosigns (api : Api) (signer : Bytes) (prove : Prove) (w : Witness) (msg : Bytes)
    : Witness × Result Bytes → Type 0 where
  cosigned :
      (n : Note) (cp : Checkpoint) (m : Bytes)
      → api.open_note (w.operator ∷ []) msg ≡ some n
      → parse_checkpoint api n.text ≡ some cp
      → cp.origin ≡ w.origin
      → Follows api cp w.head
      → api.sign_note (keep_unverified n) signer ≡ some m
      → Cosigns api signer prove w msg
          (record w { head = some (record { msg = m; checkpoint = cp }) }, ok m)
  unopened :
      api.open_note (w.operator ∷ []) msg ≡ none
      → Cosigns api signer prove w msg (w, err (invalid not_opened))
  unparsed :
      (n : Note)
      → api.open_note (w.operator ∷ []) msg ≡ some n
      → parse_checkpoint api n.text ≡ none
      → Cosigns api signer prove w msg (w, err (invalid bad_text))
  foreign :
      (n : Note) (cp : Checkpoint)
      → api.open_note (w.operator ∷ []) msg ≡ some n
      → parse_checkpoint api n.text ≡ some cp
      → cp.origin ≢ w.origin
      → Cosigns api signer prove w msg (w, err (invalid origin_mismatch))
  conflicting :
      (n : Note) (cp : Checkpoint) (e : Refusal)
      → api.open_note (w.operator ∷ []) msg ≡ some n
      → parse_checkpoint api n.text ≡ some cp
      → cp.origin ≡ w.origin
      → Conflicts api prove cp msg w.head e
      → Cosigns api signer prove w msg (w, err e)
  unsigned :
      (n : Note) (cp : Checkpoint)
      → api.open_note (w.operator ∷ []) msg ≡ some n
      → parse_checkpoint api n.text ≡ some cp
      → cp.origin ≡ w.origin
      → Follows api cp w.head
      → api.sign_note (keep_unverified n) signer ≡ none
      → Cosigns api signer prove w msg (w, err not_signed)

module _ (api : Api) (signer : Bytes) (prove : Prove) (w : Witness) (msg : Bytes) where
  signed-Cosigns :
      (n : Note) (cp : Checkpoint)
      → api.open_note (w.operator ∷ []) msg ≡ some n
      → parse_checkpoint api n.text ≡ some cp
      → cp.origin ≡ w.origin
      → Follows api cp w.head
      → Cosigns api signer prove w msg (sign_and_store api signer w n cp)
  unfolding sign_and_store
  signed-Cosigns n cp o p e f = elim (Option-cases (api.sign_note (keep_unverified n) signer)) [
    | inl s ↦ rw (s, sign_and_store) (unsigned n cp o p e f s)
    | inr (m, s) ↦ rw (s, sign_and_store) (cosigned n cp m o p e f s)
  ]

  checked-Cosigns :
      (n : Note) (cp : Checkpoint) (r : Result (Unit {0}))
      → api.open_note (w.operator ∷ []) msg ≡ some n
      → parse_checkpoint api n.text ≡ some cp
      → cp.origin ≡ w.origin
      → Checks api prove cp msg w.head r
      → Cosigns api signer prove w msg
          (elim r [ err e ↦ (w, err e) | ok _ ↦ sign_and_store api signer w n cp ])
  checked-Cosigns n cp (ok _) o p e c = signed-Cosigns n cp o p e c
  checked-Cosigns n cp (err x) o p e c = conflicting n cp x o p e c

  note-Cosigns :
      (n : Note)
      → api.open_note (w.operator ∷ []) msg ≡ some n
      → Cosigns api signer prove w msg (cosign_note api signer prove w msg n)
  unfolding cosign_note
  note-Cosigns n o = elim (Option-cases (parse_checkpoint api n.text)) [
    | inl p ↦ rw (p, cosign_note) (unparsed n o p)
    | inr (cp, p) ↦ elim (Bool-cases (equal cp.origin w.origin)) [
      | inl e ↦
          rw (p, cosign_note, e)
            (checked-Cosigns n cp (check_head api prove w.head cp msg) o p
              ((equal_iff cp.origin w.origin).0 e) (check_head-Checks api prove w.head cp msg))
      | inr e ↦
          rw (p, cosign_note, e)
            (foreign n cp o p (λ t. ground (arith, equal_iff cp.origin w.origin)))
    ]
  ]

  -- A call of `cosign` ends in one of these ways. It signs: the message opens under the operator's
  -- key as a checkpoint of the log, which is the head's tree again, or a larger tree with a proof of
  -- consistency that checks, or follows no head or an empty tree; and that becomes the head. Or it
  -- fails, and the witness is as before: the message does not open under the operator's key, or what
  -- opens does not parse, names another origin, is smaller than the head (`rollback`), has the head's
  -- size and another hash (an equivocation, with both messages), is larger and the source has no
  -- proof (`source_stale`) or one that fails (`inconsistent`), or follows and the note is not signed.
  pub cosign-Cosigns : Cosigns api signer prove w msg (cosign api signer prove w msg)
  unfolding cosign
  cosign-Cosigns = elim (Option-cases (api.open_note (w.operator ∷ []) msg)) [
    | inl o ↦ rw (o, cosign) (unopened o)
    | inr (n, o) ↦ rw (o, cosign) (note-Cosigns n o)
  ]
