-- ===== src/X402/Tests.antt =====
-- The x402iroh theorems at concrete payments, with small functions in place of the packages.
use go_iroh_experiments.Base.{
  ℕ, zero, suc, ◌+◌, ◌-◌, ◌*◌, ◌%◌, ◌^◌, ◌<◌, ◌≡◌, ◌≢◌, refl, ap, false, [], ◌∷◌, ◌++◌, Option,
  none, some, arith, length, take, drop, take_append, drop_append, replicate, Bytes, AreBytes,
  AreAscii, codes, equal, equal_self,
}
use go_iroh_experiments.Base.Dict.{lookup}
use go_iroh_experiments.Go.Int.{pos, parse_int, parse_int-format_uint}
use go_iroh_experiments.Go.Decimal.{format_uint, parse-format_uint}
use go_iroh_experiments.Go.Hex.{hex_encode}
use go_iroh_experiments.X402.Api.{
  Authorization, ExactPayload, Requirements, PaymentPayload, Api, IsLawful,
}
use go_iroh_experiments.X402.Scheme.{scheme, network, sign_authorization}
use go_iroh_experiments.X402.Ledger.{
  Ledger, Result, ok, Settlement, second, is_spent, settle, check_window,
}
use go_iroh_experiments.X402.Ledger.Accounts.{held, Fits, Settles, settle-Settles}
use go_iroh_experiments.X402.Ledger.History.{credits, run, settle_once}
use go_iroh_experiments.X402.Ledger.Checks.{check_window-unbounded}
use go_iroh_experiments.X402.Wallet.{Wallet, new_authorization, pay_requirement, timeout_seconds}
use go_iroh_experiments.X402.Wallet.Settled.{settle-pay}

-- Fields behind their lengths.
abbrev put : Bytes → Bytes → Bytes
put f rest = length f ∷ (f ++ rest)

abbrev get : Bytes → Bytes × Bytes
get [] = ([], [])
get (n ∷ s) = (take n s, drop n s)

abbrev encode : ExactPayload → Bytes
encode p =
    let a = p.authorization in
    put p.signature (
      put a.from (put a.to (put a.value (put a.valid_after (put a.valid_before (put a.nonce []))))))

abbrev decode : Bytes → Option ExactPayload
decode s =
    let (signature, s1) = get s in
    let (from, s2) = get s1 in
    let (to, s3) = get s2 in
    let (value, s4) = get s3 in
    let (valid_after, s5) = get s4 in
    let (valid_before, s6) = get s5 in
    let (nonce, s7) = get s6 in
    some (record {
      signature = signature;
      authorization = record {
        from = from;
        to = to;
        value = value;
        valid_after = valid_after;
        valid_before = valid_before;
        nonce = nonce;
      };
    })

decode-encode : (p : ExactPayload) → decode (encode p) ≡ some p
decode-encode p = simp (take_append, drop_append)

abbrev total : Bytes → ℕ
total [] = 0
total (b ∷ bs) = b + total bs

-- A checksum for a signature, and an endpoint of ASCII.
abbrev checksum : Bytes → Bytes → Bytes
checksum k msg = (total (k ++ msg) % 256) ∷ []

abbrev public : Bytes → Bytes
public [] = []
public (c ∷ k) = c % 128 ∷ public k

public-AreAscii : (k : Bytes) → AreAscii (public k)
public-AreAscii [] = tt
public-AreAscii (c ∷ k) = (omega arith, public-AreAscii k)

abbrev test_api : Api
test_api = record {
  version = 2;
  parse_id = λ s. some s;
  id_string = λ id. id;
  signature_from = λ s. some s;
  verify = λ k msg sig. equal sig (checksum k msg);
  sign = λ sk msg. checksum (public sk) msg;
  public_id = public;
  sha256 = λ msg. msg;
  decode_exact = decode;
  encode_exact = encode;
}

checksum-AreBytes : (k msg : Bytes) → AreBytes (checksum k msg)
checksum-AreBytes k msg = (omega arith, tt)

test_api-IsLawful : IsLawful test_api
test_api-IsLawful = record {
  parse-public = λ sk size. refl;
  public-AreAscii = λ sk size. public-AreAscii sk;
  from-sign = λ sk msg size. refl;
  sign-AreBytes = λ sk msg size. checksum-AreBytes (public sk) msg;
  verify-sign = λ sk msg size. equal_self (checksum (public sk) msg);
  decode-encode = λ p text. decode-encode p;
}

AreBytes-replicate : (n b : ℕ) → b < 256 → AreBytes (replicate n b)
AreBytes-replicate zero b h = tt
AreBytes-replicate (suc n) b h = (h, AreBytes-replicate n b h)

-- The wallet's key, and its endpoint's text.
abbrev key : Bytes
key = replicate 32 b'a'

abbrev alice : Wallet
alice = record { key = key; max_amount = 0 }

abbrev price : Requirements
price = record {
  scheme = scheme;
  network = network;
  amount = format_uint 70;
  pay_to = codes "shop";
  max_timeout_seconds = pos 60;
}

abbrev start : ℕ
start = 1_700_000_000 * second

abbrev nonce : Bytes
nonce = replicate 32 7

abbrev fresh : Ledger
fresh = record { faucet = 100; max_validity = 0; balances = []; spent = [] }

abbrev payment : PaymentPayload
payment = pay_requirement test_api alice price none start nonce

abbrev auth : Authorization
auth = new_authorization test_api alice price start nonce

abbrev signed : ExactPayload
signed = record { signature = sign_authorization test_api (key) network auth; authorization = auth }

payment-signed : test_api.decode_exact payment.payload ≡ some signed
unfolding pay_requirement
payment-signed = decode-encode signed

nonce-unspent : is_spent fresh (b'0' ∷ b'x' ∷ hex_encode nonce) ≡ false
unfolding is_spent lookup
nonce-unspent = refl

alice-held : held fresh (key) ≡ 100
unfolding held lookup
alice-held = refl

settle-pay_example :
    (s : Settlement) × ((settle test_api fresh start payment price).1 ≡ ok s)
    × (s.payer ≡ key)
    × (s.amount ≡ price.amount)
unfolding timeout_seconds
settle-pay_example =
    settle-pay test_api test_api-IsLawful alice price none start nonce fresh start (codes "shop") 70
      refl refl refl refl (omega arith) (parse-format_uint 70 (omega arith))
      (AreBytes-replicate 32 7 (omega arith)) refl nonce-unspent (omega arith) (omega arith)
      (omega arith) (omega arith) (omega (arith, alice-held))

paid :
    (s : Settlement) × ((settle test_api fresh start payment price).1 ≡ ok s)
    × (s.payer ≡ key)
    × (s.amount ≡ price.amount)
unfolding timeout_seconds
paid =
    settle-pay test_api test_api-IsLawful alice price none start nonce fresh start (codes "shop") 70
      refl refl refl refl (omega arith) (parse-format_uint 70 (omega arith))
      (AreBytes-replicate 32 7 (omega arith)) refl nonce-unspent (omega arith) (omega arith)
      (omega arith) (omega arith) (omega (arith, alice-held))

abbrev settled : Settlement
settled = paid.0

abbrev behind : Ledger
behind = (settle test_api fresh start payment price).0

first_time : settle test_api fresh start payment price ≡ (behind, ok settled)
first_time = ap (λ (r : Result Settlement). (behind, r)) paid.1

settle_once_example :
    settle test_api (run test_api behind (credits (key) 500 ∷ [])) (start + second) payment price
    ≢ (behind, ok settled)
settle_once_example =
    settle_once test_api fresh start (start + second) payment payment price price signed signed
      (credits (key) 500 ∷ []) behind behind settled settled payment-signed payment-signed refl
      first_time

fresh-Fits : Fits fresh
unfolding held lookup
fresh-Fits = λ k. omega arith

settle-Settles_example :
    Settles test_api fresh start payment price (settle test_api fresh start payment price)
settle-Settles_example = settle-Settles test_api fresh start payment price fresh-Fits

-- The last second that an int64 holds.
abbrev last_second : ℕ
last_second = 2 ^ 63 - 1

abbrev endless : Authorization
endless = record auth { valid_before = format_uint last_second }

endless-ends : parse_int endless.valid_before ≡ some (pos last_second)
endless-ends = parse_int-format_uint last_second (omega arith)

auth-begins : parse_int endless.valid_after ≡ some (pos 1_699_999_970)
unfolding new_authorization
auth-begins = parse_int-format_uint 1_699_999_970 (omega arith)

check_window-unbounded_example : check_window fresh start endless ≡ ok tt
check_window-unbounded_example =
    check_window-unbounded fresh start last_second (pos 1_699_999_970) endless (omega arith)
      auth-begins refl endless-ends (omega arith) (omega arith)
