-- ===== src/Tlog/Policy.antt =====
-- tlogiroh/policy.go: what makes a signed checkpoint acceptable.
pub mod Threshold
use go_iroh_experiments.Base.{
  ℕ, zero, suc, ◌+◌, Bool, true, false, not, ◌&&◌, ◌||◌, List, [], ◌∷◌, ◌++◌, map, Option, none,
  some, ◌>>=◌, if◌then◌else◌, length, Bytes, equal,
}
use go_iroh_experiments.Go.BigEndian.{big_endian}
use go_iroh_experiments.Go.Hex.{hex_encode}
use go_iroh_experiments.Go.Int.{ℤ, pos, is_neg, ltb_ℤ}
use go_iroh_experiments.Tlog.Api.{Api, Checkpoint, Verifier, Signature, Note}
use go_iroh_experiments.Tlog.Checkpoint.{is_bad_origin, parse_checkpoint}
use go_iroh_experiments.Tlog.Notes.{contains}

-- The zero policy has no operator.
pub record Policy : Type 0 where
  pub origin : Bytes
  pub operator : Option Verifier
  pub witnesses : List Verifier
  pub k : ℤ

-- "%s+%08x" of a name and a 32-bit hash
unfoldable pub id_text : Bytes → ℕ → Bytes
id_text name hash = name ++ (b'+' ∷ hex_encode (big_endian 4 hash))

abbrev pub key_id : Verifier → Bytes
key_id v = id_text v.name v.key_hash

abbrev pub sig_id : Signature → Bytes
sig_id s = id_text s.name s.hash

-- The loop of `NewPolicy`: no verifier is nil, and no key comes twice.
unfoldable pub distinct_witnesses : List Bytes → List (Option Verifier) → Option (List Verifier)
distinct_witnesses keys [] = some []
distinct_witnesses keys (none ∷ ws) = none
distinct_witnesses keys (some w ∷ ws) =
    if contains keys (key_id w)
    then none
    else elim (distinct_witnesses (key_id w ∷ keys) ws) [ none ↦ none | some vs ↦ some (w ∷ vs) ]

unfoldable pub new_policy : Bytes → Option Verifier → List (Option Verifier) → ℤ → Option Policy
new_policy origin none witnesses k = none
new_policy origin (some operator) witnesses k =
    if is_bad_origin origin
    then none
    else if is_neg k || ltb_ℤ (pos (length witnesses)) k
    then none
    else do
      ws ← distinct_witnesses (key_id operator ∷ []) witnesses
      some (record { origin = origin; operator = some operator; witnesses = ws; k = k })

pub data PolicyError : Type 0 where
  zero_policy not_opened bad_text origin_mismatch missing_operator witness_threshold : PolicyError

pub data Verdict : Type 0 where
  accepts : Checkpoint → Verdict
  rejects : PolicyError → Verdict

-- How many of the witnesses have signed.
unfoldable pub count_cosigned : List Bytes → List Verifier → ℕ
count_cosigned signed [] = 0
count_cosigned signed (w ∷ ws) =
    let rest = count_cosigned signed ws in if contains signed (key_id w) then suc rest else rest

abbrev pub signed_ids : Note → List Bytes
signed_ids n = map sig_id n.sigs

-- the checks behind `ParseCheckpoint`
unfoldable pub check_policy : Policy → Verifier → Note → Checkpoint → Verdict
check_policy p operator n c =
    if not (equal c.origin p.origin)
    then rejects origin_mismatch
    else if not (contains (signed_ids n) (key_id operator))
    then rejects missing_operator
    else if ltb_ℤ (pos (count_cosigned (signed_ids n) p.witnesses)) p.k
    then rejects witness_threshold
    else accepts c

unfoldable pub open_with : Api → Policy → Verifier → Bytes → Verdict
open_with api p operator msg = elim (api.open_note (operator ∷ p.witnesses) msg) [
  | none ↦ rejects not_opened
  | some n ↦ elim (parse_checkpoint api n.text) [
    | none ↦ rejects bad_text
    | some c ↦ check_policy p operator n c
  ]
]

-- `Policy.Open`
unfoldable pub open_policy : Api → Policy → Bytes → Verdict
open_policy api p msg = elim p.operator [
  | none ↦ rejects zero_policy
  | some operator ↦ open_with api p operator msg
]
