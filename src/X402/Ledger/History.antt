-- ===== src/X402/Ledger/History.antt =====
-- The ledger over any sequence of operations: spent nonces stay spent.
use go_iroh_experiments.Base.{
  ℕ, ◌≡◌, ◌≢◌, refl, sym, ap, true, List, [], ◌∷◌, some, arith, Bytes, equal_self,
}
use go_iroh_experiments.Base.Dict.{insert, lookup-insert}
use go_iroh_experiments.X402.Api.{Api, Requirements, PaymentPayload, ExactPayload}
use go_iroh_experiments.X402.Ledger.Accounts.{Checks, refuses, short, passes, check-Checks}
use go_iroh_experiments.X402.Ledger.Checks.{Accepted, check_payment-Accepted}
use go_iroh_experiments.X402.Ledger.{
  Ledger, CheckedPayment, Result, ok, Settlement, is_spent, account, add_to, take_from, credit,
  balance, verify, verify_response, execute, settle, settle_response,
}

pub data Call : Type 0 where
  credits : Bytes → ℕ → Call
  reads : Bytes → Call
  verifies settles : ℕ → PaymentPayload → Requirements → Call

unfoldable pub step : Api → Ledger → Call → Ledger
step api l (credits id amount) = credit api l id amount
step api l (reads id) = (balance api l id).0
step api l (verifies now p reqs) = (verify api l now p reqs).0
step api l (settles now p reqs) = (settle api l now p reqs).0

unfoldable pub run : Api → Ledger → List Call → Ledger
run api l [] = l
run api l (c ∷ cs) = run api (step api l c) cs

account-spent : (l : Ledger) (k : Bytes) → (account l k).0.spent ≡ l.spent
unfolding account
account-spent l k = ground arith

-- Every nonce spent before is spent after.
abbrev KeepsSpent : Ledger → Ledger → Type 0
KeepsSpent l l' = (n : Bytes) → is_spent l n ≡ true → is_spent l' n ≡ true

account-KeepsSpent : (l : Ledger) (k : Bytes) → KeepsSpent l (account l k).0
unfolding is_spent
account-KeepsSpent l k n h = ground (arith, account-spent l k)

execute-spent :
    (l : Ledger) (c : CheckedPayment) → (execute l c).spent ≡ insert c.auth.nonce true l.spent
unfolding execute add_to take_from
execute-spent l c = account-spent _ c.to

execute-KeepsSpent : (l : Ledger) (c : CheckedPayment) → KeepsSpent l (execute l c)
unfolding is_spent
execute-KeepsSpent l c n h =
    ground (arith, execute-spent l c, lookup-insert c.auth.nonce n true l.spent)

pub is_spent-execute :
    (l : Ledger) (c : CheckedPayment) → is_spent (execute l c) c.auth.nonce ≡ true
unfolding is_spent
is_spent-execute l c = ground (
  arith,
  execute-spent l c,
  lookup-insert c.auth.nonce c.auth.nonce true l.spent,
  equal_self c.auth.nonce,
)

verify-KeepsSpent :
    {l : Ledger} {r : Result CheckedPayment} {s : Ledger × Result CheckedPayment}
    → Checks l r s
    → KeepsSpent l (verify_response s).0
unfolding verify_response
verify-KeepsSpent (refuses e) n h = h
verify-KeepsSpent {l} (short c e less) n h = account-KeepsSpent l c.from n h
verify-KeepsSpent {l} (passes c enough) n h = account-KeepsSpent l c.from n h

settle-KeepsSpent :
    (api : Api) (reqs : Requirements) {l : Ledger} {r : Result CheckedPayment}
    {s : Ledger × Result CheckedPayment}
    → Checks l r s
    → KeepsSpent l (settle_response api reqs s).0
unfolding settle_response
settle-KeepsSpent api reqs (refuses e) n h = h
settle-KeepsSpent api reqs {l} (short c e less) n h = account-KeepsSpent l c.from n h
settle-KeepsSpent api reqs {l} (passes c enough) n h =
    execute-KeepsSpent (account l c.from).0 c n (account-KeepsSpent l c.from n h)

step-KeepsSpent : (api : Api) (l : Ledger) (c : Call) → KeepsSpent l (step api l c)
unfolding step
step-KeepsSpent api l (credits id amount) n h =
    unfold credit add_to is_spent in account-KeepsSpent l (api.id_string id) n h
step-KeepsSpent api l (reads id) n h = unfold balance in account-KeepsSpent l (api.id_string id) n h
step-KeepsSpent api l (verifies now p reqs) n h =
    unfold verify in verify-KeepsSpent (check-Checks api l now p reqs) n h
step-KeepsSpent api l (settles now p reqs) n h =
    unfold settle in settle-KeepsSpent api reqs (check-Checks api l now p reqs) n h

run-KeepsSpent : (api : Api) (cs : List Call) (l : Ledger) → KeepsSpent l (run api l cs)
unfolding run
run-KeepsSpent api [] l n h = h
run-KeepsSpent api (c ∷ cs) l n h =
    run-KeepsSpent api cs (step api l c) n (step-KeepsSpent api l c n h)

-- Inversion of a successful settlement.
settled_by :
    (api : Api) (reqs : Requirements) {l : Ledger} {r : Result CheckedPayment}
    {q : Ledger × Result CheckedPayment} (l' : Ledger) (s : Settlement)
    → Checks l r q
    → settle_response api reqs q ≡ (l', ok s)
    → (c : CheckedPayment) × (r ≡ ok c) × (l' ≡ execute (account l c.from).0 c)
unfolding settle_response
settled_by api reqs l' s (refuses e) h = absurd (ground arith)
settled_by api reqs l' s (short c e less) h = absurd (ground arith)
settled_by api reqs l' s (passes c enough) h = (c, refl, sym (ap (λ q. q.0) h))

pub settle-Accepted :
    (api : Api) (l : Ledger) (now : ℕ) (p : PaymentPayload) (reqs : Requirements) (l' : Ledger)
    (s : Settlement)
    → settle api l now p reqs ≡ (l', ok s)
    → (c : CheckedPayment) × Accepted api l now p reqs c × (l' ≡ execute (account l c.from).0 c)
unfolding settle
settle-Accepted api l now p reqs l' s h =
    let (c, ok_c, e) = settled_by api reqs l' s (check-Checks api l now p reqs) h in
    (c, check_payment-Accepted api l now p reqs c ok_c, e)

-- The nonce of a payload that settled is spent in the ledger behind it.
is_spent-settle :
    (api : Api) (l : Ledger) (now : ℕ) (p : PaymentPayload) (reqs : Requirements)
    (exact : ExactPayload) (l' : Ledger) (s : Settlement)
    → api.decode_exact p.payload ≡ some exact
    → settle api l now p reqs ≡ (l', ok s)
    → is_spent l' exact.authorization.nonce ≡ true
is_spent-settle api l now p reqs exact l' s d h =
    let (c, a, e) = settle-Accepted api l now p reqs l' s h in
    let same : a.exact ≡ exact = ground (arith, a.terms.decoded) in
    ground (arith, a.auth_is, is_spent-execute (account l c.from).0 c)

-- A payment settles once. Once a payload has settled, no payload with the same nonce settles, now or
-- after any sequence of operations, whatever else it says.
pub settle_once :
    (api : Api) (l : Ledger) (now later : ℕ) (p p' : PaymentPayload) (reqs reqs' : Requirements)
    (exact exact' : ExactPayload) (cs : List Call) (l' l'' : Ledger) (s s' : Settlement)
    → api.decode_exact p.payload ≡ some exact
    → api.decode_exact p'.payload ≡ some exact'
    → exact'.authorization.nonce ≡ exact.authorization.nonce
    → settle api l now p reqs ≡ (l', ok s)
    → settle api (run api l' cs) later p' reqs' ≢ (l'', ok s')
settle_once api l now later p p' reqs reqs' exact exact' cs l' l'' s s' d d' n h h' =
    let (c, a, e) = settle-Accepted api (run api l' cs) later p' reqs' l'' s' h' in
    let same : a.exact ≡ exact' = ground (arith, a.terms.decoded) in
    let spent = is_spent-settle api l now p reqs exact l' s d h in
    ground (arith, a.auth_is, a.unspent, run-KeepsSpent api cs l' exact.authorization.nonce spent)
