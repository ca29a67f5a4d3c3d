-- ===== src/X402/Ledger/Checks.antt =====
-- What a payment has passed when `check` accepts it, and where the bound on the window fails.
use go_iroh_experiments.Base.{
  ℕ, ◌+◌, ◌/◌, ◌^◌, ◌≤◌, ◌<◌, ◌≡◌, refl, subst, false, Option, none, some, arith, Bytes, equal_iff,
}
use go_iroh_experiments.Go.Int.{ℤ, pos, ltb_ℤ, parse_int}
use go_iroh_experiments.Go.Decimal.{parse_uint}
use go_iroh_experiments.X402.Api.{Api, Authorization, ExactPayload, Requirements, PaymentPayload}
use go_iroh_experiments.X402.Scheme.{scheme, network, signed_by, verify_authorization}
use go_iroh_experiments.X402.Ledger.{
  Ledger, CheckedPayment, ok, second, unix_to_internal, internal_seconds, unix_after,
  validity_bound, is_spent, check_terms, check_window, check_signed, check_payment, checked,
  >>=-eq-ok,
}

pub record Terms (api : Api) (p : PaymentPayload) (reqs : Requirements) (exact : ExactPayload)
    (to : Bytes) (value : ℕ) : Type 0 where
  pub version_is : p.x402_version ≡ api.version
  pub scheme_is : reqs.scheme ≡ scheme
  pub network_is : reqs.network ≡ network
  pub decoded : api.decode_exact p.payload ≡ some exact
  pub payee : api.parse_id reqs.pay_to ≡ some to
  pub recipient : api.parse_id exact.authorization.to ≡ some to
  pub pays : parse_uint exact.authorization.value ≡ some value
  pub asked : parse_uint reqs.amount ≡ some value

check_terms-Terms :
    (api : Api) (p : PaymentPayload) (reqs : Requirements) (exact : ExactPayload) (to : Bytes)
    (value : ℕ)
    → check_terms api p reqs ≡ ok (exact, to, value)
    → Terms api p reqs exact to value
unfolding check_terms
check_terms-Terms api p reqs exact to value h = grind (arith, equal_iff)

-- The window's ends, with `now` between them, and the end not after the bound by `time`'s arithmetic.
pub record Window (l : Ledger) (now : ℕ) (auth : Authorization) : Type 0 where
  pub opens : ℤ
  pub closes : ℤ
  pub opens_is : parse_int auth.valid_after ≡ some opens
  pub closes_is : parse_int auth.valid_before ≡ some closes
  pub not_before : ltb_ℤ (pos (now / second)) opens ≡ false
  pub not_after : ltb_ℤ closes (pos (now / second)) ≡ false
  pub bounded : unix_after closes (now + validity_bound l) ≡ false

check_window-Window :
    (l : Ledger) (now : ℕ) (auth : Authorization) (a b : Option ℤ)
    → parse_int auth.valid_after ≡ a
    → parse_int auth.valid_before ≡ b
    → check_window l now auth ≡ ok tt
    → Window l now auth
unfolding check_window
check_window-Window l now auth none b ea eb h = absurd (ground arith)
check_window-Window l now auth (some a) none ea eb h = absurd (ground arith)
check_window-Window l now auth (some a) (some b) ea eb h = record {
  opens = a;
  closes = b;
  opens_is = ea;
  closes_is = eb;
  not_before = ground arith;
  not_after = ground arith;
  bounded = ground arith;
}

check_signed_sound :
    (api : Api) (l : Ledger) (reqs : Requirements) (exact : ExactPayload) (from : Bytes)
    → check_signed api l reqs exact ≡ ok from
    → (is_spent l exact.authorization.nonce ≡ false)
      × (verify_authorization api reqs.network exact ≡ signed_by from)
unfolding check_signed
check_signed_sound api l reqs exact from h = ground arith

-- All that a payment has passed.
pub record Accepted (api : Api) (l : Ledger) (now : ℕ) (p : PaymentPayload) (reqs : Requirements)
    (c : CheckedPayment) : Type 0 where
  pub exact : ExactPayload
  pub payer_id : Bytes
  pub payee_id : Bytes
  pub terms : Terms api p reqs exact payee_id c.value
  pub window : Window l now c.auth
  pub unspent : is_spent l c.auth.nonce ≡ false
  pub signed : verify_authorization api reqs.network exact ≡ signed_by payer_id
  pub auth_is : c.auth ≡ exact.authorization
  pub from_is : c.from ≡ api.id_string payer_id
  pub to_is : c.to ≡ api.id_string payee_id

checked-Accepted :
    (api : Api) (l : Ledger) (now : ℕ) (p : PaymentPayload) (reqs : Requirements)
    (exact : ExactPayload) (to : Bytes) (value : ℕ) (from : Bytes)
    → check_terms api p reqs ≡ ok (exact, to, value)
    → check_window l now exact.authorization ≡ ok tt
    → check_signed api l reqs exact ≡ ok from
    → Accepted api l now p reqs (checked api exact to value from)
checked-Accepted api l now p reqs exact to value from ht hw hs =
    let (fresh, signed) = check_signed_sound api l reqs exact from hs in
    record {
      exact = exact;
      payer_id = from;
      payee_id = to;
      terms = check_terms-Terms api p reqs exact to value ht;
      window = check_window-Window l now exact.authorization _ _ refl refl hw;
      unspent = fresh;
      signed = signed;
      auth_is = refl;
      from_is = refl;
      to_is = refl;
    }

-- A payment that passes every check before the payer's account is read has the supported version,
-- scheme and network, the recipient and the amount that the requirements name, a window that `now`
-- lies in, a nonce that is not spent, and the signature of the payer that it is charged to.
pub check_payment-Accepted :
    (api : Api) (l : Ledger) (now : ℕ) (p : PaymentPayload) (reqs : Requirements)
    (c : CheckedPayment)
    → check_payment api l now p reqs ≡ ok c
    → Accepted api l now p reqs c
unfolding check_payment
check_payment-Accepted api l now p reqs c h =
    let ((exact, to, value), ht, h') = >>=-eq-ok (check_terms api p reqs) _ h in
    let (_, hw, h'') = >>=-eq-ok (check_window l now exact.authorization) _ h' in
    let (from, hs, done) = >>=-eq-ok (check_signed api l reqs exact) _ h'' in
    let same : checked api exact to value from ≡ c = cc in
    subst (Accepted api l now p reqs) same
      (checked-Accepted api l now p reqs exact to value from ht hw hs)

-- The window of an accepted payment ends at most `validity_bound` after `now` (in whole seconds), if
-- its end, in seconds, is so far below 2 ^ 63 that `time.Unix` does not wrap.
pub validity_bounded :
    (l : Ledger) (now end : ℕ)
    → end + unix_to_internal < 2 ^ 63
    → unix_after (pos end) (now + validity_bound l) ≡ false
    → end ≤ (now + validity_bound l) / second
unfolding unix_after internal_seconds
validity_bounded l now end h e = ground arith

wrapped_end :
    (now bound end : ℕ)
    → 2 ^ 63 ≤ end + unix_to_internal
    → end < 2 ^ 63
    → unix_after (pos end) (now + bound) ≡ false
unfolding unix_after internal_seconds
wrapped_end now bound end h b = ground arith

-- The window checks accept an authorization that ends in the last 62,135,596,800 seconds of an int64,
-- if its window has begun, at any time below 2 ^ 63 nanoseconds, whatever the ledger's maximum for
-- the length of a window: the end wraps.
pub check_window-unbounded :
    (l : Ledger) (now end : ℕ) (opens : ℤ) (auth : Authorization)
    → now < 2 ^ 63
    → parse_int auth.valid_after ≡ some opens
    → ltb_ℤ (pos (now / second)) opens ≡ false
    → parse_int auth.valid_before ≡ some (pos end)
    → 2 ^ 63 ≤ end + unix_to_internal
    → end < 2 ^ 63
    → check_window l now auth ≡ ok tt
unfolding check_window
check_window-unbounded l now end opens auth small ea begun eb wraps last =
    let still : ltb_ℤ (pos end) (pos (now / second)) ≡ false = ground arith in
    let free = wrapped_end now (validity_bound l) end wraps last in
    rw (ea, check_window, eb, begun, still, free) refl
