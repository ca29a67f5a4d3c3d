-- ===== src/Enclave/Policy/Decides.antt =====
-- What a policy demands of a claim, and that `Check` asks for exactly that.
use go_iroh_experiments.Base.{
  ◌≤◌, ◌≡◌, refl, sym, ◌⊎◌, inl, inr, true, false, List, [], ◌∷◌, none, some, arith, In, Bytes,
  equal, equal_iff, Bool-cases, Option-cases,
}
use go_iroh_experiments.Enclave.Claim.{Claim}
use go_iroh_experiments.Enclave.Policy.{
  Policy, PolicyError, maximal_flags, among, excludes, check_fields, ask_hook, check,
}

-- Empty, or with the item.
abbrev pub Admits : List Bytes → Bytes → Type 0
Admits xs x = (xs ≡ []) ⊎ In x xs

pub record Meets {S : Type 0} (p : Policy S) (c : Claim) : Type 0 where
  pub maximal : p.require_maximal ≡ true → maximal_flags c.cs_flags ≡ true
  pub in_bundle : p.require_bundled ≡ true → c.bundled ≡ true
  pub lasting : p.forbid_ephemeral_key ≡ true → c.ephemeral_key ≡ false
  pub recent : p.min_claim_version ≤ c.claim_version
  pub team : Admits p.allowed_team_ids c.team_id
  pub code : Admits p.allowed_cd_hashes c.cd_hash
  pub key : Admits p.pinned_attest_keys c.attest_key

among-In : (xs : List Bytes) (x : Bytes) → among xs x ≡ true → In x xs
unfolding among
among-In [] x h = absurd (ground arith)
among-In (y ∷ ys) x h = elim (Bool-cases (equal y x)) [
  | inl same ↦ inl (sym ((equal_iff y x).0 same))
  | inr other ↦ inr (among-In ys x (ground arith))
]

In-among : (xs : List Bytes) (x : Bytes) → In x xs → among xs x ≡ true
unfolding among
In-among [] x h = absurd h
In-among (y ∷ ys) x (inl same) = ground (arith, same, equal_iff y x)
In-among (y ∷ ys) x (inr later) = ground (arith, In-among ys x later)

excludes-Admits : (xs : List Bytes) (x : Bytes) → excludes xs x ≡ false → Admits xs x
unfolding excludes
excludes-Admits [] x h = inl refl
excludes-Admits (y ∷ ys) x h = inr (among-In (y ∷ ys) x (ground arith))

Admits-excludes : (xs : List Bytes) (x : Bytes) → Admits xs x → excludes xs x ≡ false
unfolding excludes
Admits-excludes [] x h = refl
Admits-excludes (y ∷ ys) x (inl empty) = absurd (ground arith)
Admits-excludes (y ∷ ys) x (inr here) = ground (arith, In-among (y ∷ ys) x here)

module _ {S : Type 0} (p : Policy S) (c : Claim) where
  check_fields-Meets : check_fields p c ≡ none → Meets p c
  unfolding check_fields
  check_fields-Meets h = record {
    maximal = λ r. ground arith;
    in_bundle = λ r. ground arith;
    lasting = λ r. ground arith;
    recent = ground arith;
    team = excludes-Admits p.allowed_team_ids c.team_id (ground arith);
    code = excludes-Admits p.allowed_cd_hashes c.cd_hash (ground arith);
    key = excludes-Admits p.pinned_attest_keys c.attest_key (ground arith);
  }

  Meets-check_fields : Meets p c → check_fields p c ≡ none
  unfolding check_fields
  Meets-check_fields m =
      let team = Admits-excludes p.allowed_team_ids c.team_id m.team in
      let code = Admits-excludes p.allowed_cd_hashes c.cd_hash m.code in
      let key = Admits-excludes p.pinned_attest_keys c.attest_key m.key in
      ground (arith, team, code, key, m.maximal, m.in_bundle, m.lasting, m.recent)

-- `Check` decides by what the policy demands: a claim that meets it gets the answer of the hook (or
-- acceptance, without one); any other claim gets an error, and the hook is not called.
pub check-Decides :
    {S : Type 0} (p : Policy S) (s : S) (c : Claim)
    → (Meets p c × (check p s c ≡ ask_hook p s c))
      ⊎ (¬ Meets p c × ((e : PolicyError) × (check p s c ≡ (s, some e))))
unfolding check
check-Decides p s c = elim (Option-cases (check_fields p c)) [
  | inl e ↦ inl (check_fields-Meets p c e, rw (check, e) refl)
  | inr (err, e) ↦ inr (
    λ m. let clash = Meets-check_fields p c m in absurd (ground (arith, clash)),
    (err, rw (check, e) refl),
  )
]
