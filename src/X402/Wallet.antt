-- ===== src/X402/Wallet.antt =====
-- x402iroh/wallet.go: the payer. The clock (in nanoseconds since 1970, at least `clock_skew`) and the
-- 32 random bytes of the nonce are arguments; reading random bytes does not fail.
pub mod Choice
pub mod Settled
use go_iroh_experiments.Base.{
  ℕ, zero, suc, ◌+◌, ◌-◌, ◌*◌, ◌/◌, Bool, true, false, not, ◌&&◌, ◌||◌, List, [], ◌∷◌, Option, none,
  some, ltb, if◌then◌else◌, Bytes, equal,
}
use go_iroh_experiments.Go.Hex.{hex_encode}
use go_iroh_experiments.Go.Int.{ℤ, pos, negsuc, pos_part, neg_part, wrap_int64}
use go_iroh_experiments.Go.Decimal.{parse_uint, format_uint}
use go_iroh_experiments.X402.Api.{Api, Authorization, ExactPayload, Requirements, PaymentPayload}
use go_iroh_experiments.X402.Scheme.{scheme, network, sign_authorization}
use go_iroh_experiments.X402.Ledger.{second}

pub record Wallet : Type 0 where
  pub key : Bytes
  pub max_amount : ℕ

abbrev pub clock_skew : ℕ
clock_skew = 30 * second

-- `timeout`, with 60 in place of what is not positive
unfoldable pub timeout_seconds : ℤ → ℕ
timeout_seconds (pos zero) = 60
timeout_seconds (pos (suc n)) = suc n
timeout_seconds (negsuc n) = 60

-- `now.Add(time.Duration(timeout) * time.Second)`, with the product in an int64
unfoldable pub add_seconds : ℕ → ℕ → ℕ
add_seconds now n = let d = wrap_int64 (n * second) in now + pos_part d - neg_part d

unfoldable pub new_authorization : Api → Wallet → Requirements → ℕ → Bytes → Authorization
new_authorization api w req now nonce = record {
  from = api.id_string (api.public_id w.key);
  to = req.pay_to;
  value = req.amount;
  valid_after = format_uint ((now - clock_skew) / second);
  valid_before = format_uint (add_seconds now (timeout_seconds req.max_timeout_seconds) / second);
  nonce = b'0' ∷ b'x' ∷ hex_encode nonce;
}

-- `Wallet.pay`
unfoldable pub pay_requirement :
    Api → Wallet → Requirements → Option Bytes → ℕ → Bytes → PaymentPayload
pay_requirement api w req resource now nonce =
    let auth = new_authorization api w req now nonce in
    record {
      x402_version = api.version;
      resource = resource;
      accepted = req;
      payload = api.encode_exact (record {
        signature = sign_authorization api w.key req.network auth;
        authorization = auth;
      });
    }

-- the three `continue` tests of `Wallet.Pay`
unfoldable pub is_payable : Wallet → Requirements → Bool
is_payable w req =
    if not (equal req.scheme scheme) || not (equal req.network network)
    then false
    else elim (parse_uint req.amount) [
      | none ↦ false
      | some value ↦ not (ltb 0 w.max_amount && ltb w.max_amount value)
    ]

-- `Wallet.Pay`; `none` is its error.
unfoldable pub pay :
    Api → Wallet → List Requirements → Option Bytes → ℕ → Bytes → Option PaymentPayload
pay api w [] resource now nonce = none
pay api w (req ∷ reqs) resource now nonce =
    if is_payable w req
    then some (pay_requirement api w req resource now nonce)
    else pay api w reqs resource now nonce
