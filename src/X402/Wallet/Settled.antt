-- ===== src/X402/Wallet/Settled.antt =====
-- A payment that a wallet makes settles at a ledger.
use go_iroh_experiments.Base.{
  ℕ, ◌+◌, ◌-◌, ◌*◌, ◌/◌, ◌^◌, ◌≤◌, ◌<◌, ◌≡◌, refl, true, false, ◌∷◌, Option, some, arith, length,
  Bytes, AreBytes, AreAscii, equal_self,
}
use go_iroh_experiments.Go.Decimal.{parse_uint, parse_uint-AreAscii, format_uint-AreAscii}
use go_iroh_experiments.Go.Hex.{hex_encode, hex_encode-AreAscii, hex_decode-hex_encode}
use go_iroh_experiments.Go.Int.{pos, parse_int, parse_int-format_uint, wrap_int64}
use go_iroh_experiments.Go.Strings.{trim_0x}
use go_iroh_experiments.X402.Api.{
  Api, IsLawful, IsText, Authorization, ExactPayload, Requirements, PaymentPayload,
}
use go_iroh_experiments.X402.Scheme.{scheme, network, signing_message, sign_authorization}
use go_iroh_experiments.X402.Scheme.Signed.{verify-sign_authorization}
use go_iroh_experiments.X402.Ledger.{
  Ledger, CheckedPayment, ok, Settlement, second, unix_to_internal, internal_seconds, unix_after,
  validity_bound, is_nonce, is_spent, check_terms, check_window, check_signed, check_payment,
  check_funds, check, checked, settlement, settle, settle_response,
}
use go_iroh_experiments.X402.Ledger.Accounts.{held, account-held}
use go_iroh_experiments.X402.Wallet.{
  Wallet, clock_skew, timeout_seconds, add_seconds, new_authorization, pay_requirement,
}

settle-enough :
    (api : Api) (l : Ledger) (now : ℕ) (p : PaymentPayload) (reqs : Requirements)
    (c : CheckedPayment)
    → check_payment api l now p reqs ≡ ok c
    → c.value ≤ held l c.from
    → (settle api l now p reqs).1 ≡ ok (settlement api reqs c)
unfolding settle settle_response check check_funds
settle-enough api l now p reqs c h enough = ground (arith, account-held l c.from)

module _ (api : Api) (law : IsLawful api) (w : Wallet) (req : Requirements)
    (resource : Option Bytes) (now : ℕ) (nonce : Bytes) where
  auth : Authorization
  auth = new_authorization api w req now nonce

  exact : ExactPayload
  unfolding auth
  exact = record { signature = sign_authorization api w.key req.network auth; authorization = auth }

  -- The last second of the window.
  abbrev closes : ℕ
  closes = (now + timeout_seconds req.max_timeout_seconds * second) / second

  is_nonce-auth : AreBytes nonce → length nonce ≡ 32 → is_nonce (trim_0x auth.nonce) ≡ true
  unfolding is_nonce trim_0x auth new_authorization
  is_nonce-auth b n = rw (hex_decode-hex_encode nonce b, is_nonce) (ground arith)

  add_seconds_lem :
      now + timeout_seconds req.max_timeout_seconds * second < 2 ^ 63
      → add_seconds now (timeout_seconds req.max_timeout_seconds)
        ≡ now + timeout_seconds req.max_timeout_seconds * second
  unfolding add_seconds wrap_int64
  add_seconds_lem small = ground arith

  exact-IsText :
      (value : ℕ)
      → length w.key ≡ 32
      → AreAscii req.pay_to
      → parse_uint req.amount ≡ some value
      → AreBytes nonce
      → now + timeout_seconds req.max_timeout_seconds * second < 2 ^ 63
      → IsText exact
  unfolding exact auth new_authorization sign_authorization
  exact-IsText value size payee_text ea nb small =
      let message = signing_message req.network auth in
      record {
        signature = (
          omega arith,
          (
            omega arith,
            hex_encode-AreAscii (api.sign w.key message) (law.sign-AreBytes w.key message size),
          ),
        );
        from = law.public-AreAscii w.key size;
        to = payee_text;
        value = parse_uint-AreAscii req.amount value ea;
        valid_after = format_uint-AreAscii ((now - clock_skew) / second) (omega arith);
        valid_before = rw (add_seconds_lem small) (format_uint-AreAscii closes (omega arith));
        nonce = (omega arith, (omega arith, hex_encode-AreAscii nonce nb));
      }

  check_terms-pay :
      (payee : Bytes) (value : ℕ)
      → req.scheme ≡ scheme
      → req.network ≡ network
      → api.parse_id req.pay_to ≡ some payee
      → parse_uint req.amount ≡ some value
      → IsText exact
      → check_terms api (pay_requirement api w req resource now nonce) req
        ≡ ok (exact, payee, value)
  unfolding check_terms pay_requirement exact auth new_authorization
  check_terms-pay payee value es en ep ea text =
      ground (
        arith,
        law.decode-encode exact text,
        equal_self payee,
        equal_self scheme,
        equal_self network,
      )

  valid_before-auth :
      now + timeout_seconds req.max_timeout_seconds * second < 2 ^ 63
      → parse_int auth.valid_before ≡ some (pos closes)
  unfolding auth new_authorization
  valid_before-auth small = rw (add_seconds_lem small) (parse_int-format_uint closes (omega arith))

  valid_after-auth :
      now < 2 ^ 63 → parse_int auth.valid_after ≡ some (pos ((now - clock_skew) / second))
  unfolding auth new_authorization
  valid_after-auth small = parse_int-format_uint ((now - clock_skew) / second) (omega arith)

  unix_after-closes :
      (l : Ledger) (later : ℕ)
      → closes + unix_to_internal < 2 ^ 63
      → closes ≤ (later + validity_bound l) / second
      → unix_after (pos closes) (later + validity_bound l) ≡ false
  unfolding unix_after internal_seconds
  unix_after-closes l later small bounded = ground arith

  check_window-pay :
      (l : Ledger) (later : ℕ)
      → now + timeout_seconds req.max_timeout_seconds * second < 2 ^ 63
      → (now - clock_skew) / second ≤ later / second
      → later / second ≤ closes
      → closes ≤ (later + validity_bound l) / second
      → check_window l later auth ≡ ok tt
  unfolding check_window
  check_window-pay l later small opened open_still bounded = ground (
    arith,
    valid_before-auth small,
    valid_after-auth (omega arith),
    unix_after-closes l later (omega arith),
  )

  check_signed-pay :
      (l : Ledger)
      → length w.key ≡ 32
      → AreBytes nonce
      → length nonce ≡ 32
      → is_spent l auth.nonce ≡ false
      → check_signed api l req exact ≡ ok (api.public_id w.key)
  unfolding check_signed exact
  check_signed-pay l size b n fresh = ground (
    arith,
    is_nonce-auth b n,
    verify-sign_authorization api w.key req.network auth law size
        (unfold auth new_authorization in refl),
  )

  fresh_auth :
      (l : Ledger)
      → is_spent l (b'0' ∷ b'x' ∷ hex_encode nonce) ≡ false
      → is_spent l auth.nonce ≡ false
  unfolding auth new_authorization
  fresh_auth l h = h

  check_payment-pay :
      (l : Ledger) (later : ℕ) (payee : Bytes) (value : ℕ)
      → check_terms api (pay_requirement api w req resource now nonce) req
        ≡ ok (exact, payee, value)
      → check_window l later auth ≡ ok tt
      → check_signed api l req exact ≡ ok (api.public_id w.key)
      → check_payment api l later (pay_requirement api w req resource now nonce) req
        ≡ ok (checked api exact payee value (api.public_id w.key))
  unfolding check_payment exact
  check_payment-pay l later payee value ht hw hs = ground arith

  -- Such a payment passes the checks before the payer's account is read.
  pub check_payment-Passes :
      (l : Ledger) (later : ℕ) (payee : Bytes) (value : ℕ)
      → req.scheme ≡ scheme
      → req.network ≡ network
      → length w.key ≡ 32
      → api.parse_id req.pay_to ≡ some payee
      → AreAscii req.pay_to
      → parse_uint req.amount ≡ some value
      → AreBytes nonce
      → length nonce ≡ 32
      → is_spent l (b'0' ∷ b'x' ∷ hex_encode nonce) ≡ false
      → now + timeout_seconds req.max_timeout_seconds * second < 2 ^ 63
      → (now - clock_skew) / second ≤ later / second
      → later / second ≤ (now + timeout_seconds req.max_timeout_seconds * second) / second
      → (now + timeout_seconds req.max_timeout_seconds * second) / second
        ≤ (later + validity_bound l) / second
      → (c : CheckedPayment) × (check_payment api l later
            (pay_requirement api w req resource now nonce)
            req
          ≡ ok c)
  check_payment-Passes l later payee value es en size ep text ea nb nl fresh small opened still
        bounded =
      (
        checked api exact payee value (api.public_id w.key),
        check_payment-pay l later payee value
            (check_terms-pay payee value es en ep ea (exact-IsText value size text ea nb small))
            (check_window-pay l later small opened still bounded)
            (check_signed-pay l size nb nl (fresh_auth l fresh)),
      )

  -- The payment of a wallet with a key of 32 bytes, for a requirement of this scheme and network, with
  -- an ASCII text that reads as the payee and an amount that is a number, settles at a ledger that reads the clock while the window is
  -- open, for which the window is not too long, that has not seen the nonce, and where the wallet's
  -- account holds the amount. The response names the wallet's endpoint and the amount.
  pub settle-pay :
      (l : Ledger) (later : ℕ) (payee : Bytes) (value : ℕ)
      → req.scheme ≡ scheme
      → req.network ≡ network
      → length w.key ≡ 32
      → api.parse_id req.pay_to ≡ some payee
      → AreAscii req.pay_to
      → parse_uint req.amount ≡ some value
      → AreBytes nonce
      → length nonce ≡ 32
      → is_spent l (b'0' ∷ b'x' ∷ hex_encode nonce) ≡ false
      → now + timeout_seconds req.max_timeout_seconds * second < 2 ^ 63
      → (now - clock_skew) / second ≤ later / second
      → later / second ≤ (now + timeout_seconds req.max_timeout_seconds * second) / second
      → (now + timeout_seconds req.max_timeout_seconds * second) / second
        ≤ (later + validity_bound l) / second
      → value ≤ held l (api.id_string (api.public_id w.key))
      → (s : Settlement) × ((settle api l later
            (pay_requirement api w req resource now nonce)
            req).1
          ≡ ok s)
        × (s.payer ≡ api.id_string (api.public_id w.key))
        × (s.amount ≡ req.amount)
  unfolding check_payment-Passes
  settle-pay l later payee value es en size ep text ea nb nl fresh small opened still bounded
        enough =
      let passes =
        (check_payment-Passes l later payee value es en size ep text ea nb nl fresh small opened
          still bounded).1 in
      (
        settlement api req (checked api exact payee value (api.public_id w.key)),
        settle-enough api l later (pay_requirement api w req resource now nonce) req _ passes
            enough,
        unfold settlement in refl,
        unfold settlement exact auth new_authorization in refl,
      )
