-- ===== src/X402/Ledger/Accounts.antt =====
-- What the balances of the accounts are after each operation. `held l k` is what `Balance` reports.
use go_iroh_experiments.Base.{
  ℕ, ◌+◌, ◌-◌, ◌%◌, ◌^◌, ◌≤◌, ◌<◌, ◌≡◌, refl, sym, ap, ◌∙◌, inl, inr, true, some, arith, ltb,
  if◌then◌else◌, Bytes, equal, equal_iff, equal_self, Bool-cases,
}
use go_iroh_experiments.Base.Dict.{lookup, insert, lookup-insert}
use go_iroh_experiments.X402.Api.{Api, Requirements, PaymentPayload}
use go_iroh_experiments.X402.Ledger.Checks.{Accepted, check_payment-Accepted}
use go_iroh_experiments.X402.Ledger.{
  Ledger, CheckedPayment, Invalid, Result, ok, err, value_or, account, add_to, take_from,
  check_funds, check, check_payment, execute, settle, settle_response, Settlement, settlement,
}

-- The balance that `Balance` would report for an account's key.
unfoldable pub held : Ledger → Bytes → ℕ
held l k = value_or l.faucet (lookup k l.balances)

pub account-held : (l : Ledger) (k : Bytes) → (account l k).1 ≡ held l k
unfolding account held
account-held l k = ground arith

-- Opening an account changes no balance.
pub held-account : (l : Ledger) (k j : Bytes) → held (account l k).0 j ≡ held l j
unfolding account held
held-account l k j = ground (arith, equal_iff k j, lookup-insert k j l.faucet l.balances)

pub lookup-account : (l : Ledger) (k : Bytes) → lookup k (account l k).0.balances ≡ some (held l k)
unfolding account held
lookup-account l k = ground (arith, equal_self k, lookup-insert k k l.faucet l.balances)

pub held-add_to :
    (l : Ledger) (k j : Bytes) (amount b : ℕ)
    → lookup k l.balances ≡ some b
    → held (add_to k amount l) j ≡ (if equal k j then (b + amount) % 2 ^ 64 else held l j)
unfolding add_to held
held-add_to l k j amount b e =
    ground
      (arith, lookup-insert k j ((value_or 0 (lookup k l.balances) + amount) % 2 ^ 64) l.balances)

pub held-take_from :
    (l : Ledger) (k j : Bytes) (amount b : ℕ)
    → lookup k l.balances ≡ some b
    → held (take_from k amount l) j
      ≡ (if equal k j then (b + 2 ^ 64 - amount) % 2 ^ 64 else held l j)
unfolding take_from held
held-take_from l k j amount b e = ground (
  arith,
  lookup-insert k j ((value_or 0 (lookup k l.balances) + 2 ^ 64 - amount) % 2 ^ 64) l.balances,
)

-- All balances fit in 64 bits.
abbrev pub Fits : Ledger → Type 0
Fits l = (k : Bytes) → held l k < 2 ^ 64

-- What an account holds behind a payment of `value`.
unfoldable pub moved : CheckedPayment → Ledger → Bytes → ℕ
moved c l k =
    let debited = if equal c.from k then held l k - c.value else held l k in
    if equal c.to k then (debited + c.value) % 2 ^ 64 else debited

held-mark :
    (l : Ledger) (n k : Bytes) → held (record l { spent = insert n true l.spent }) k ≡ held l k
unfolding held
held-mark l n k = refl

held-execute :
    (l : Ledger) (c : CheckedPayment) (k : Bytes)
    → lookup c.from l.balances ≡ some (held l c.from)
    → c.value ≤ held l c.from
    → held l c.from < 2 ^ 64
    → held (execute l c) k ≡ moved c l k
unfolding execute moved
held-execute l c k e enough fits =
    let marked : Ledger = record l { spent = insert c.auth.nonce true l.spent } in
    let paid : Ledger = take_from c.from c.value marked in
    ground (
      arith,
      equal_iff c.to k,
      equal_iff c.from k,
      held-add_to (account paid c.to).0 c.to k c.value (held paid c.to) (lookup-account paid c.to),
      held-account paid c.to k,
      held-take_from marked c.from k c.value (held l c.from) e,
      held-mark l c.auth.nonce k,
    )

-- The ways in which a check ends: before the payer's account is read, or by its balance.
pub data Checks (l : Ledger) : Result CheckedPayment → Ledger × Result CheckedPayment → Type 0 where
  refuses : (e : Invalid) → Checks l (err e) (l, err e)
  short :
      (c : CheckedPayment) (e : Invalid)
      → held l c.from < c.value
      → Checks l (ok c) ((account l c.from).0, err e)
  passes :
      (c : CheckedPayment) → c.value ≤ held l c.from → Checks l (ok c) ((account l c.from).0, ok c)

funds-Checks :
    (l : Ledger) (c : CheckedPayment) → Checks l (ok c) (check_funds (account l c.from) c)
unfolding check_funds
funds-Checks l c = elim (Bool-cases (ltb (account l c.from).1 c.value)) [
  | inl less ↦ rw (less, check_funds) (short c _ (ground (arith, account-held l c.from)))
  | inr more ↦ rw (more, check_funds) (passes c (ground (arith, account-held l c.from)))
]

from_payment : Ledger → Result CheckedPayment → Ledger × Result CheckedPayment
from_payment l (err e) = (l, err e)
from_payment l (ok c) = check_funds (account l c.from) c

from_payment-Checks : (l : Ledger) (r : Result CheckedPayment) → Checks l r (from_payment l r)
unfolding from_payment
from_payment-Checks l (err e) = refuses e
from_payment-Checks l (ok c) = funds-Checks l c

check-from_payment :
    (api : Api) (l : Ledger) (now : ℕ) (p : PaymentPayload) (reqs : Requirements)
    → check api l now p reqs ≡ from_payment l (check_payment api l now p reqs)
unfolding check from_payment
check-from_payment api l now p reqs = ground arith

pub check-Checks :
    (api : Api) (l : Ledger) (now : ℕ) (p : PaymentPayload) (reqs : Requirements)
    → Checks l (check_payment api l now p reqs) (check api l now p reqs)
check-Checks api l now p reqs =
    rw (check-from_payment api l now p reqs)
      (from_payment-Checks l (check_payment api l now p reqs))

-- The outcomes of `Settle`, with the balances behind each. The payment `c` is what the payload and the
-- requirements name: its payer signed the payload, its payee and its value are those that the
-- requirements ask for.
pub data Settles (api : Api) (l : Ledger) (now : ℕ) (p : PaymentPayload) (reqs : Requirements)
    : Ledger × Result Settlement → Type 0 where
  settled :
      (c : CheckedPayment) (l' : Ledger) (s : Settlement)
      → Accepted api l now p reqs c
      → s.payer ≡ c.from
      → s.amount ≡ c.auth.value
      → s.network_name ≡ reqs.network
      → c.value ≤ held l c.from
      → ((k : Bytes) → held l' k ≡ moved c l k)
      → Settles api l now p reqs (l', ok s)
  failed :
      {l' : Ledger} {e : Invalid}
      → ((k : Bytes) → held l' k ≡ held l k)
      → Settles api l now p reqs (l', err e)

moved-account :
    (c : CheckedPayment) (l : Ledger) (i k : Bytes) → moved c (account l i).0 k ≡ moved c l k
unfolding moved
moved-account c l i k = rw held-account refl

response-Settles :
    (api : Api) (now : ℕ) (p : PaymentPayload) (reqs : Requirements) {l : Ledger}
    {r : Result CheckedPayment} {s : Ledger × Result CheckedPayment}
    → Fits l
    → check_payment api l now p reqs ≡ r
    → Checks l r s
    → Settles api l now p reqs (settle_response api reqs s)
unfolding settle_response
response-Settles api now p reqs fits is (refuses e) = failed (λ k. refl)
response-Settles api now p reqs {l} fits is (short c e less) = failed (λ k. held-account l c.from k)
response-Settles api now p reqs {l} fits is (passes c enough) =
    let same = held-account l c.from c.from in
    settled c (execute (account l c.from).0 c) (settlement api reqs c)
      (check_payment-Accepted api l now p reqs c is) (unfold settlement in refl)
      (unfold settlement in refl) (unfold settlement in refl) enough
      λ k.
        held-execute (account l c.from).0 c k (lookup-account l c.from ∙ ap some (sym same))
          (rw same enough) (rw same (fits c.from))
        ∙ moved-account c l c.from k

-- If every balance fits in 64 bits, `Settle` does one of two things. It succeeds: the payload and the
-- requirements name the same payee and the same value, the payer signed the authorization, in whose
-- window `now` lies and whose nonce is not spent, the response names the payer and the value, the
-- payer held that value, and behind it each account holds what it held, less the value for the
-- payer, plus the value (in 64 bits) for the payee. Or it fails, and every balance is what it was.
pub settle-Settles :
    (api : Api) (l : Ledger) (now : ℕ) (p : PaymentPayload) (reqs : Requirements)
    → Fits l
    → Settles api l now p reqs (settle api l now p reqs)
unfolding settle
settle-Settles api l now p reqs fits =
    response-Settles api now p reqs fits refl (check-Checks api l now p reqs)
