-- ===== src/Tlog/Policy/Threshold.antt =====
-- An accepted checkpoint carries the operator's signature and `k` distinct witnesses' signatures.
use go_iroh_experiments.Base.{
  suc, ◌≡◌, refl, ap, ap₂, subst, ◌∙◌, inl, inr, true, false, List, [], ◌∷◌, map, Option, none,
  some, arith, if◌then◌else◌, Bool-cases, Option-cases, length, Bytes, equal_iff, All,
}
use go_iroh_experiments.Go.Int.{ℤ, pos, is_neg, ◌≤ℤ◌}
use go_iroh_experiments.Tlog.Api.{Api, Checkpoint, Verifier, Note}
use go_iroh_experiments.Tlog.Checkpoint.{is_bad_origin, parse_checkpoint}
use go_iroh_experiments.Tlog.Notes.{contains, IsDistinct}
use go_iroh_experiments.Tlog.Policy.{
  Policy, key_id, distinct_witnesses, new_policy, accepts, count_cosigned, signed_ids, check_policy,
  open_with, open_policy,
}

abbrev ids : List Verifier → List Bytes
ids = map key_id

-- Of no key among `keys`.
abbrev AreNew : List Bytes → List Bytes → Type 0
AreNew keys = All (λ id. contains keys id ≡ false)

AreNew-cons :
    (k : Bytes) (keys l : List Bytes) → AreNew (k ∷ keys) l → (contains l k ≡ false) × AreNew keys l
unfolding contains
AreNew-cons k keys [] h = (refl, tt)
AreNew-cons k keys (x ∷ l) h =
    ground (arith, equal_iff k x, equal_iff x k, AreNew-cons k keys l h.1)

distinct_witnesses-lem :
    (ws : List (Option Verifier)) (keys : List Bytes) (vs : List Verifier)
    → distinct_witnesses keys ws ≡ some vs
    → IsDistinct (ids vs) × AreNew keys (ids vs) × (length vs ≡ length ws)
unfolding distinct_witnesses
distinct_witnesses-lem [] keys [] e = (tt, tt, refl)
distinct_witnesses-lem [] keys (v ∷ vs) e = absurd (ground arith)
distinct_witnesses-lem (none ∷ ws) keys vs e = absurd (ground arith)
distinct_witnesses-lem (some w ∷ ws) keys [] e = absurd (ground arith)
distinct_witnesses-lem (some w ∷ ws) keys (v ∷ vs) e =
    elim (Option-cases (distinct_witnesses (key_id w ∷ keys) ws)) [
      | inl n ↦ absurd (ground arith)
      | inr (us, n) ↦
          let (d, new, len) = distinct_witnesses-lem ws (key_id w ∷ keys) us n in
          let (fresh, old) = AreNew-cons (key_id w) keys (ids us) new in
          let same_head : w ≡ v = ground arith in
          let same_tail : us ≡ vs = ground arith in
          let w_new : contains keys (key_id w) ≡ false = ground arith in
          subst (λ l. IsDistinct (ids l) × AreNew keys (ids l) × (length l ≡ suc (length ws)))
            (ap₂ (◌∷◌) same_head same_tail) ((fresh, d), (w_new, old), ap suc len)
    ]

-- The witnesses that have signed.
signers : List Bytes → List Verifier → List Verifier
signers signed [] = []
signers signed (w ∷ ws) =
    let rest = signers signed ws in if contains signed (key_id w) then w ∷ rest else rest

length-signers :
    (signed : List Bytes) (ws : List Verifier)
    → length (signers signed ws) ≡ count_cosigned signed ws
unfolding signers count_cosigned
length-signers signed [] = refl
length-signers signed (w ∷ ws) = ground (arith, length-signers signed ws)

signers-signed :
    (signed : List Bytes) (ws : List Verifier)
    → All (λ id. contains signed id ≡ true) (ids (signers signed ws))
unfolding signers
signers-signed signed [] = tt
signers-signed signed (w ∷ ws) = ground (arith, signers-signed signed ws)

signers-AreNew :
    (signed keys : List Bytes) (ws : List Verifier)
    → AreNew keys (ids ws)
    → AreNew keys (ids (signers signed ws))
unfolding signers
signers-AreNew signed keys [] h = tt
signers-AreNew signed keys (w ∷ ws) h = ground (arith, signers-AreNew signed keys ws h.1)

contains-signers :
    (signed : List Bytes) (ws : List Verifier) (k : Bytes)
    → contains (ids ws) k ≡ false
    → contains (ids (signers signed ws)) k ≡ false
unfolding signers contains
contains-signers signed [] k h = refl
contains-signers signed (w ∷ ws) k h = ground (arith, contains-signers signed ws k)

signers-IsDistinct :
    (signed : List Bytes) (ws : List Verifier)
    → IsDistinct (ids ws)
    → IsDistinct (ids (signers signed ws))
unfolding signers
signers-IsDistinct signed [] h = tt
signers-IsDistinct signed (w ∷ ws) h =
    ground (arith, contains-signers signed ws (key_id w) h.0, signers-IsDistinct signed ws h.1)

-- What an accepted message shows: it opens as a note, its text is a checkpoint of the policy's
-- origin, and among the verified signatures are the operator's and those of `k` further keys, all
-- different, each of a witness of the policy.
pub record MeetsPolicy (api : Api) (p : Policy) (msg : Bytes) (c : Checkpoint) : Type 0 where
  pub operator : Verifier
  pub note : Note
  pub signers_of : List Verifier
  pub operator_is : p.operator ≡ some operator
  pub opens : api.open_note (operator ∷ p.witnesses) msg ≡ some note
  pub parses : parse_checkpoint api note.text ≡ some c
  pub origin_is : c.origin ≡ p.origin
  pub operator_signed : contains (signed_ids note) (key_id operator) ≡ true
  pub all_signed : All (λ id. contains (signed_ids note) id ≡ true) (ids signers_of)
  pub all_known : All (λ id. contains (ids p.witnesses) id ≡ true) (ids signers_of)
  pub distinct : IsDistinct (ids signers_of)
  pub not_operator : AreNew (key_id operator ∷ []) (ids signers_of)
  pub enough : p.k ≤ℤ pos (length signers_of)

contains-weaken :
    (k : Bytes) (keys l : List Bytes)
    → All (λ id. contains keys id ≡ true) l
    → All (λ id. contains (k ∷ keys) id ≡ true) l
unfolding contains
contains-weaken k keys [] h = tt
contains-weaken k keys (x ∷ l) h = (ground arith, contains-weaken k keys l h.1)

contains_head : (k : Bytes) (keys : List Bytes) → contains (k ∷ keys) k ≡ true
unfolding contains
contains_head k keys = ground (arith, equal_iff k k)

signers-known :
    (signed : List Bytes) (ws : List Verifier)
    → All (λ id. contains (ids ws) id ≡ true) (ids (signers signed ws))
unfolding signers
signers-known signed [] = tt
signers-known signed (w ∷ ws) =
    let rest =
      contains-weaken (key_id w) (ids ws) (ids (signers signed ws)) (signers-known signed ws) in
    elim (Bool-cases (contains signed (key_id w))) [
      | inl h ↦ rw h (contains_head (key_id w) (ids ws), rest)
      | inr h ↦ rw h rest
    ]

-- A policy that `NewPolicy` returns.
pub record IsPolicy (p : Policy) (operator : Verifier) : Type 0 where
  pub operator_is : p.operator ≡ some operator
  pub distinct : IsDistinct (ids p.witnesses)
  pub not_operator : AreNew (key_id operator ∷ []) (ids p.witnesses)
  pub k_nonneg : is_neg p.k ≡ false
  pub k_le : p.k ≤ℤ pos (length p.witnesses)
  pub origin_good : is_bad_origin p.origin ≡ false

pub new_policy-IsPolicy :
    (origin : Bytes) (o : Option Verifier) (ws : List (Option Verifier)) (k : ℤ) (p : Policy)
    → new_policy origin o ws k ≡ some p
    → (operator : Verifier) × (o ≡ some operator) × IsPolicy p operator
unfolding new_policy
new_policy-IsPolicy origin none ws k p e = absurd (ground arith)
new_policy-IsPolicy origin (some op) ws k p e =
    elim (Option-cases (distinct_witnesses (key_id op ∷ []) ws)) [
      | inl n ↦ absurd (ground arith)
      | inr (vs, n) ↦
          let (d, new, len) = distinct_witnesses-lem ws (key_id op ∷ []) vs n in
          let same : vs ≡ p.witnesses = ground arith in
          (
            op,
            refl,
            record {
              operator_is = ground arith;
              distinct = rw same at d;
              not_operator = rw same at new;
              k_nonneg = ground arith;
              k_le = ground arith;
              origin_good = ground arith;
            },
          )
    ]

opened_with :
    (api : Api) (p : Policy) (op : Verifier) (msg : Bytes) (c : Checkpoint)
    → open_with api p op msg ≡ accepts c
    → (n : Note) × (api.open_note (op ∷ p.witnesses) msg ≡ some n)
      × (parse_checkpoint api n.text ≡ some c)
      × (check_policy p op n c ≡ accepts c)
unfolding open_with
opened_with api p op msg c e = elim (Option-cases (api.open_note (op ∷ p.witnesses) msg)) [
  | inl none_opened ↦ absurd (ground arith)
  | inr (n, opens) ↦ elim (Option-cases (parse_checkpoint api n.text)) [
    | inl unread ↦ absurd (ground arith)
    | inr (d, parses) ↦
        let checked : check_policy p op n d ≡ accepts c = ground arith in
        let same : d ≡ c = unfold check_policy in ground arith in
        (n, opens, parses ∙ ap some same, rw same at checked)
  ]
]

-- A message that `Open` accepts, under a policy that `NewPolicy` returned, has the operator's verified
-- signature, those of at least `k` witnesses of the policy with different keys, none of them the
-- operator's, and a text that parses as the returned checkpoint, of the policy's origin.
pub open_policy-MeetsPolicy :
    (api : Api) (p : Policy) (op : Verifier) (msg : Bytes) (c : Checkpoint)
    → IsPolicy p op
    → open_policy api p msg ≡ accepts c
    → MeetsPolicy api p msg c
unfolding open_policy
open_policy-MeetsPolicy api p op msg c v e =
    let (n, opens, parses, checked) = opened_with api p op msg c (ground (arith, v.operator_is)) in
    record {
      operator = op;
      note = n;
      signers_of = signers (signed_ids n) p.witnesses;
      operator_is = v.operator_is;
      opens = opens;
      parses = parses;
      origin_is = unfold check_policy in ground (arith, equal_iff c.origin p.origin);
      operator_signed = unfold check_policy in ground arith;
      all_signed = signers-signed (signed_ids n) p.witnesses;
      all_known = signers-known (signed_ids n) p.witnesses;
      distinct = signers-IsDistinct (signed_ids n) p.witnesses v.distinct;
      not_operator = signers-AreNew (signed_ids n) (key_id op ∷ []) p.witnesses v.not_operator;
      enough = unfold check_policy in ground (arith, length-signers (signed_ids n) p.witnesses);
    }
