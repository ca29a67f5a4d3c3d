-- ===== src/X402/Wallet/Choice.antt =====
-- Which requirement a wallet pays.
use go_iroh_experiments.Base.{
  ℕ, ◌≤◌, ◌<◌, ◌≡◌, refl, ap, inl, inr, true, List, [], ◌∷◌, ◌++◌, Option, none, some, arith, All,
  Bytes, equal_iff, Bool-cases,
}
use go_iroh_experiments.Go.Decimal.{parse_uint}
use go_iroh_experiments.X402.Api.{Api, Requirements, PaymentPayload}
use go_iroh_experiments.X402.Scheme.{scheme, network}
use go_iroh_experiments.X402.Wallet.{Wallet, is_payable, pay, pay_requirement}

-- A requirement of this scheme and network, whose amount is a number within the wallet's cap.
pub record Payable (w : Wallet) (req : Requirements) : Type 0 where
  pub amount : ℕ
  pub scheme_is : req.scheme ≡ scheme
  pub network_is : req.network ≡ network
  pub amount_is : parse_uint req.amount ≡ some amount
  pub capped : 0 < w.max_amount → amount ≤ w.max_amount

is_payable-Payable :
    (w : Wallet) (req : Requirements) (o : Option ℕ)
    → parse_uint req.amount ≡ o
    → is_payable w req ≡ true
    → Payable w req
unfolding is_payable
is_payable-Payable w req none e h =
    absurd (ground (arith, equal_iff req.scheme scheme, equal_iff req.network network))
is_payable-Payable w req (some n) e h = record {
  amount = n;
  scheme_is = ground (arith, equal_iff req.scheme scheme, equal_iff req.network network);
  network_is = ground (arith, equal_iff req.scheme scheme, equal_iff req.network network);
  amount_is = e;
  capped = λ c. ground arith;
}

Payable-is_payable : (w : Wallet) (req : Requirements) → Payable w req → is_payable w req ≡ true
unfolding is_payable
Payable-is_payable w req p =
    ground (arith, equal_iff req.scheme scheme, equal_iff req.network network, p.amount_is)

-- How `Pay` ends: at the first payable requirement, or at none.
pub data Pays (api : Api) (w : Wallet) (reqs : List Requirements) (resource : Option Bytes)
    (now : ℕ) (nonce : Bytes) : Option PaymentPayload → Type 0 where
  first :
      (before after : List Requirements) (req : Requirements)
      → reqs ≡ before ++ (req ∷ after)
      → All (λ r. ¬ Payable w r) before
      → Payable w req
      → Pays api w reqs resource now nonce (some (pay_requirement api w req resource now nonce))
  nothing : All (λ r. ¬ Payable w r) reqs → Pays api w reqs resource now nonce none

later :
    (api : Api) (w : Wallet) (req : Requirements) (reqs : List Requirements)
    (resource : Option Bytes) (now : ℕ) (nonce : Bytes) {o : Option PaymentPayload}
    → ¬ Payable w req
    → Pays api w reqs resource now nonce o
    → Pays api w (req ∷ reqs) resource now nonce o
later api w req reqs resource now nonce n (first before after r e b p) =
    first (req ∷ before) after r (ap (◌∷◌ req) e) (n, b) p
later api w req reqs resource now nonce n (nothing b) = nothing (n, b)

-- `Pay` pays the first requirement of the list that has the wallet's scheme and network and an amount
-- that is a number, within `MaxAmount` if that is set; it fails exactly when there is none.
pub pay-Pays :
    (api : Api) (w : Wallet) (reqs : List Requirements) (resource : Option Bytes) (now : ℕ)
    (nonce : Bytes)
    → Pays api w reqs resource now nonce (pay api w reqs resource now nonce)
unfolding pay
pay-Pays api w [] resource now nonce = nothing tt
pay-Pays api w (req ∷ reqs) resource now nonce = elim (Bool-cases (is_payable w req)) [
  | inl h ↦ rw h (first [] reqs req refl tt (is_payable-Payable w req _ refl h))
  | inr h ↦ rw h (
      later api w req reqs resource now nonce
        (λ p. absurd (ground (arith, Payable-is_payable w req p)))
        (pay-Pays api w reqs resource now nonce))
]
