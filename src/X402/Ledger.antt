-- ===== src/X402/Ledger.antt =====
-- x402iroh/ledger.go: the in-memory facilitator. The mutex serialises the operations; the clock is
-- an argument, in nanoseconds since 1970; `max_validity` is a duration that is not negative.
pub mod Accounts
pub mod Checks
pub mod History
use go_iroh_experiments.Base.{
  ℕ, zero, suc, ◌+◌, ◌-◌, ◌*◌, ◌/◌, ◌%◌, ◌^◌, ◌≡◌, refl, Bool, true, false, not, ◌&&◌, List, [],
  ◌∷◌, Option, none, some, ltb, leb, ◌==◌, if◌then◌else◌, length, Bytes, equal,
}
use go_iroh_experiments.Base.Dict.{Map, lookup, insert}
use go_iroh_experiments.Go.Hex.{hex_decode, hex_encode}
use go_iroh_experiments.Go.Int.{ℤ, pos, negsuc, pos_part, neg_part, ltb_ℤ, parse_int}
use go_iroh_experiments.Go.Decimal.{parse_uint}
use go_iroh_experiments.Go.Strings.{trim_0x}
use go_iroh_experiments.X402.Api.{Api, Authorization, ExactPayload, Requirements, PaymentPayload}
use go_iroh_experiments.X402.Scheme.{
  scheme, network, signing_message, AuthError, signed_by, refused, verify_authorization,
}

pub record Ledger : Type 0 where
  pub faucet : ℕ
  pub max_validity : ℕ
  pub balances : Map ℕ
  pub spent : Map Bool

-- The texts of the failures that `check` builds.
pub data Message : Type 0 where
  no_message malformed_payload bad_pay_to recipient_mismatch bad_value value_mismatch : Message
  bad_window not_yet_valid expired window_too_long bad_nonce nonce_spent : Message
  names_scheme names_network : Bytes → Message
  not_authorized : AuthError → Message

pub data Reason : Type 0 where
  invalid_version unsupported_scheme invalid_network invalid_payload : Reason
  invalid_requirements insufficient_funds : Reason

pub record Invalid : Type 0 where
  pub reason : Reason
  pub message : Message
  pub payer : Bytes

abbrev pub invalid : Reason → Message → Invalid
invalid r m = record { reason = r; message = m; payer = [] }

pub record CheckedPayment : Type 0 where
  pub auth : Authorization
  pub from : Bytes
  pub to : Bytes
  pub value : ℕ

pub data Result {ℓ} (A : Type ℓ) : Type ℓ where
  ok : A → Result A
  err : Invalid → Result A

module _ {ℓ κ} {A : Type ℓ} {B : Type κ} where
  infixl 5 ◌>>=◌
  -- An invalid payment skips what follows.
  abbrev pub ◌>>=◌ : Result A → (A → Result B) → Result B
  err reason >>= rest = err reason
  ok payment >>= rest = rest payment

  pub >>=-eq-ok :
      (checks : Result A) (rest : A → Result B) {out : B}
      → checks >>= rest ≡ ok out
      → (passed : A) × (checks ≡ ok passed) × (rest passed ≡ ok out)
  >>=-eq-ok (err reason) rest same = absurd (cc)
  >>=-eq-ok (ok passed) rest same = (passed, refl, same)

infixl 5 ◌>>◌
abbrev pub ◌>>◌ {ℓ} : {B : Type ℓ} → Result (Unit {0}) → Result B → Result B
m >> k = m >>= λ _. k

abbrev pub guard : Bool → Invalid → Result (Unit {0})
guard true e = ok tt
guard false e = err e

abbrev pub or_fail {ℓ} : {A : Type ℓ} → Option A → Invalid → Result A
or_fail none e = err e
or_fail (some a) e = ok a

-- A map entry that is absent reads as 0.
abbrev pub value_or : ℕ → Option ℕ → ℕ
value_or d none = d
value_or d (some n) = n

-- The account is created with the faucet's balance the first time it is seen.
unfoldable pub account : Ledger → Bytes → Ledger × ℕ
account l id = elim (lookup id l.balances) [
  | none ↦ (record l { balances = insert id l.faucet l.balances }, l.faucet)
  | some b ↦ (l, b)
]

-- `l.balances[id] += amount` on uint64
unfoldable pub add_to : Bytes → ℕ → Ledger → Ledger
add_to id amount l = record l {
  balances = insert id ((value_or 0 (lookup id l.balances) + amount) % 2 ^ 64) l.balances;
}

-- `l.balances[id] -= amount` on uint64
unfoldable pub take_from : Bytes → ℕ → Ledger → Ledger
take_from id amount l = record l {
  balances = insert id ((value_or 0 (lookup id l.balances) + 2 ^ 64 - amount) % 2 ^ 64) l.balances;
}

unfoldable pub credit : Api → Ledger → Bytes → ℕ → Ledger
credit api l id amount = add_to (api.id_string id) amount (account l (api.id_string id)).0

unfoldable pub balance : Api → Ledger → Bytes → Ledger × ℕ
balance api l id = account l (api.id_string id)

abbrev pub second : ℕ
second = 1_000_000_000

-- defaultMaxValidity: 5 minutes
abbrev pub default_max_validity : ℕ
default_max_validity = 300 * second

-- Seconds from year 1 to 1970, which `time.Unix` adds in an int64 that may wrap.
abbrev pub unix_to_internal : ℕ
unix_to_internal = 62_135_596_800

unfoldable pub internal_seconds : ℤ → ℤ
internal_seconds (pos n) =
    if ltb (n + unix_to_internal) (2 ^ 63)
    then pos (n + unix_to_internal)
    else negsuc (2 ^ 64 - (n + unix_to_internal) - 1)
internal_seconds (negsuc n) =
    if ltb n unix_to_internal then pos (unix_to_internal - n - 1) else negsuc (n - unix_to_internal)

-- `time.Unix(s, 0).After(t)`, with `t` in nanoseconds since 1970
unfoldable pub unix_after : ℤ → ℕ → Bool
unix_after s t = ltb_ℤ (pos (t / second + unix_to_internal)) (internal_seconds s)

-- The maximum, with the default for zero.
abbrev pub validity_bound : Ledger → ℕ
validity_bound l = if l.max_validity == 0 then default_max_validity else l.max_validity

-- the test for a malformed nonce
unfoldable pub is_nonce : Bytes → Bool
is_nonce s = elim (hex_decode s) [ none ↦ false | some raw ↦ length raw == 32 ]

unfoldable pub is_spent : Ledger → Bytes → Bool
is_spent l nonce = elim (lookup nonce l.spent) [ none ↦ false | some b ↦ b ]

abbrev pub authorized : AuthError → Invalid
authorized e = invalid invalid_payload (not_authorized e)

-- Up to `now := time.Now()`: versions, recipient and amount.
unfoldable pub check_terms : Api → PaymentPayload → Requirements → Result (ExactPayload × Bytes × ℕ)
check_terms api p reqs = do
  guard (p.x402_version == api.version) (invalid invalid_version no_message)
  guard (equal reqs.scheme scheme) (invalid unsupported_scheme (names_scheme reqs.scheme))
  guard (equal reqs.network network) (invalid invalid_network (names_network reqs.network))
  exact ← or_fail (api.decode_exact p.payload) (invalid invalid_payload malformed_payload)
  pay_to ← or_fail (api.parse_id reqs.pay_to) (invalid invalid_requirements bad_pay_to)
  to ← or_fail (api.parse_id exact.authorization.to) (invalid invalid_payload recipient_mismatch)
  guard (equal to pay_to) (invalid invalid_payload recipient_mismatch)
  value ← or_fail (parse_uint exact.authorization.value) (invalid invalid_payload bad_value)
  required ← or_fail (parse_uint reqs.amount) (invalid invalid_payload value_mismatch)
  guard (value == required) (invalid invalid_payload value_mismatch)
  ok (exact, to, value)

-- The validity window at `now`.
unfoldable pub check_window : Ledger → ℕ → Authorization → Result (Unit {0})
check_window l now auth = do
  valid_after ← or_fail (parse_int auth.valid_after) (invalid invalid_payload bad_window)
  valid_before ← or_fail (parse_int auth.valid_before) (invalid invalid_payload bad_window)
  guard (not (ltb_ℤ (pos (now / second)) valid_after)) (invalid invalid_payload not_yet_valid)
  guard (not (ltb_ℤ valid_before (pos (now / second)))) (invalid invalid_payload expired)
  guard (not (unix_after valid_before (now + validity_bound l)))
      (invalid invalid_payload window_too_long)

-- The nonce, and the signature.
unfoldable pub check_signed : Api → Ledger → Requirements → ExactPayload → Result Bytes
check_signed api l reqs exact = do
  guard (is_nonce (trim_0x exact.authorization.nonce)) (invalid invalid_payload bad_nonce)
  guard (not (is_spent l exact.authorization.nonce)) (invalid invalid_payload nonce_spent)
  elim (verify_authorization api reqs.network exact) [
    | refused e ↦ err (authorized e)
    | signed_by from ↦ ok from
  ]

abbrev pub checked : Api → ExactPayload → Bytes → ℕ → Bytes → CheckedPayment
checked api exact to value from = record {
  auth = exact.authorization;
  from = api.id_string from;
  to = api.id_string to;
  value = value;
}

-- All checks before the payer's account is read.
unfoldable pub check_payment :
    Api → Ledger → ℕ → PaymentPayload → Requirements → Result CheckedPayment
check_payment api l now p reqs = do
  (exact, to, value) ← check_terms api p reqs
  check_window l now exact.authorization
  from ← check_signed api l reqs exact
  ok (checked api exact to value from)

-- the comparison with the payer's balance
unfoldable pub check_funds : Ledger × ℕ → CheckedPayment → Ledger × Result CheckedPayment
check_funds (l, b) c =
    if ltb b c.value
    then (l, err (record { reason = insufficient_funds; message = no_message; payer = c.from }))
    else (l, ok c)

unfoldable pub check :
    Api → Ledger → ℕ → PaymentPayload → Requirements → Ledger × Result CheckedPayment
check api l now p reqs = elim (check_payment api l now p reqs) [
  | err e ↦ (l, err e)
  | ok c ↦ check_funds (account l c.from) c
]

-- VerifyResponse: the payer, or why the payment is invalid
unfoldable pub verify_response : Ledger × Result CheckedPayment → Ledger × Result Bytes
verify_response (l, err e) = (l, err e)
verify_response (l, ok c) = (l, ok c.from)

unfoldable pub verify : Api → Ledger → ℕ → PaymentPayload → Requirements → Ledger × Result Bytes
verify api l now p reqs = verify_response (check api l now p reqs)

pub record Settlement : Type 0 where
  pub payer : Bytes
  pub transaction : Bytes
  pub network_name : Bytes
  pub amount : Bytes

-- The updates of `Settle` behind its check.
unfoldable pub execute : Ledger → CheckedPayment → Ledger
execute l c =
    let marked = record l { spent = insert c.auth.nonce true l.spent } in
    let paid = take_from c.from c.value marked in add_to c.to c.value (account paid c.to).0

unfoldable pub settlement : Api → Requirements → CheckedPayment → Settlement
settlement api reqs c = record {
  payer = c.from;
  transaction = b'0' ∷ b'x' ∷ hex_encode (api.sha256 (signing_message reqs.network c.auth));
  network_name = reqs.network;
  amount = c.auth.value;
}

unfoldable pub settle_response :
    Api → Requirements → Ledger × Result CheckedPayment → Ledger × Result Settlement
settle_response api reqs (l, err e) = (l, err e)
settle_response api reqs (l, ok c) = (execute l c, ok (settlement api reqs c))

unfoldable pub settle :
    Api → Ledger → ℕ → PaymentPayload → Requirements → Ledger × Result Settlement
settle api l now p reqs = settle_response api reqs (check api l now p reqs)
