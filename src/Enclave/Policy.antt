-- ===== src/Enclave/Policy.antt =====
-- enclaveiroh/claim.go: the policy over a verified claim; codeidentity.go: the flags it may require.
pub mod Decides
use go_iroh_experiments.Base.{
  ℕ, ◌+◌, ◌/◌, ◌%◌, ◌^◌, Bool, true, false, not, ◌&&◌, ◌||◌, List, [], ◌∷◌, Option, none, some, ltb,
  ◌==◌, if◌then◌else◌, Bytes, equal,
}
use go_iroh_experiments.Enclave.Claim.{Claim}

-- `flags & (1 << k) != 0`
unfoldable pub has_bit : ℕ → ℕ → Bool
has_bit k flags = (flags / 2 ^ k) % 2 == 1

-- CSValid, CSRuntime, CSHard, CSKill, CSEnforcement, CSRequireLV; not CSGetTaskAllow, CSDebugged.
unfoldable pub maximal_flags : ℕ → Bool
maximal_flags flags =
    has_bit 0 flags
    && (has_bit 16 flags
        && (has_bit 8 flags
            && (has_bit 9 flags
                && (has_bit 12 flags
                    && (has_bit 13 flags && (not (has_bit 2 flags) && not (has_bit 28 flags)))))))

-- `S` is what the hook `PinPeer` keeps; it says whether it accepts the claim.
pub record Policy (S : Type 0) : Type 0 where
  pub require_maximal : Bool
  pub require_bundled : Bool
  pub forbid_ephemeral_key : Bool
  pub min_claim_version : ℕ
  pub allowed_team_ids : List Bytes
  pub allowed_cd_hashes : List Bytes
  pub pinned_attest_keys : List Bytes
  pub pin_peer : Option (S → Claim → S × Bool)

pub data PolicyError : Type 0 where
  not_maximal : PolicyError
  not_bundled : PolicyError
  ephemeral : PolicyError
  below_minimum : PolicyError
  bad_team : PolicyError
  bad_cd_hash : PolicyError
  not_pinned : PolicyError
  pin_failed : PolicyError

-- `slices.Contains`
unfoldable pub among : List Bytes → Bytes → Bool
among [] x = false
among (y ∷ ys) x = if equal y x then true else among ys x

-- `len(set) > 0 && !slices.Contains(set, x)`
unfoldable pub excludes : List Bytes → Bytes → Bool
excludes [] x = false
excludes (y ∷ ys) x = not (among (y ∷ ys) x)

module _ {S : Type 0} where
  -- The checks of `Check` in front of the hook.
  unfoldable pub check_fields : Policy S → Claim → Option PolicyError
  check_fields p c =
      if p.require_maximal && not (maximal_flags c.cs_flags)
      then some not_maximal
      else if p.require_bundled && not c.bundled
      then some not_bundled
      else if p.forbid_ephemeral_key && c.ephemeral_key
      then some ephemeral
      else if ltb 0 p.min_claim_version && ltb c.claim_version p.min_claim_version
      then some below_minimum
      else if excludes p.allowed_team_ids c.team_id
      then some bad_team
      else if excludes p.allowed_cd_hashes c.cd_hash
      then some bad_cd_hash
      else if excludes p.pinned_attest_keys c.attest_key
      then some not_pinned
      else none

  unfoldable pub ask_hook : Policy S → S → Claim → S × Option PolicyError
  ask_hook p s c = elim p.pin_peer [
    | none ↦ (s, none)
    | some hook ↦ ((hook s c).0, (if (hook s c).1 then none else some pin_failed))
  ]

  -- `Check`
  unfoldable pub check : Policy S → S → Claim → S × Option PolicyError
  check p s c = elim (check_fields p c) [ some e ↦ (s, some e) | none ↦ ask_hook p s c ]
