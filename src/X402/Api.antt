-- ===== src/X402/Api.antt =====
-- What x402iroh takes from other packages: github.com/tmc/go-iroh/key, github.com/tmc/x402,
-- crypto/sha256 and encoding/json. Each is a parameter. Identities, keys and signatures are bytes.
use go_iroh_experiments.Base.{ℕ, ◌≡◌, Bool, true, Option, some, Bytes, length, AreBytes, AreAscii}
use go_iroh_experiments.Go.Int.{ℤ}

-- scheme.go
pub record Authorization : Type 0 where
  pub from : Bytes
  pub to : Bytes
  pub value : Bytes
  pub valid_after : Bytes
  pub valid_before : Bytes
  pub nonce : Bytes

-- scheme.go
pub record ExactPayload : Type 0 where
  pub signature : Bytes
  pub authorization : Authorization

-- x402.PaymentRequirements, with the fields that the package reads
pub record Requirements : Type 0 where
  pub scheme : Bytes
  pub network : Bytes
  pub amount : Bytes
  pub pay_to : Bytes
  pub max_timeout_seconds : ℤ

-- x402.PaymentPayload; `resource` is passed on unread
pub record PaymentPayload : Type 0 where
  pub x402_version : ℕ
  pub resource : Option Bytes
  pub accepted : Requirements
  pub payload : Bytes

pub record Api : Type 0 where
  -- x402.Version
  pub version : ℕ
  -- key.ParseEndpointID and EndpointID.String
  pub parse_id : Bytes → Option Bytes
  pub id_string : Bytes → Bytes
  -- key.SignatureFromSlice, and PublicKey.Verify(msg, sig) == nil
  pub signature_from : Bytes → Option Bytes
  pub verify : Bytes → Bytes → Bytes → Bool
  -- SecretKey.Sign(msg).Bytes() and SecretKey.Public().EndpointID()
  pub sign : Bytes → Bytes → Bytes
  pub public_id : Bytes → Bytes
  pub sha256 : Bytes → Bytes
  -- json.Unmarshal and json.Marshal at ExactPayload
  pub decode_exact : Bytes → Option ExactPayload
  pub encode_exact : ExactPayload → Bytes

-- A payload whose texts are ASCII.
pub record IsText (p : ExactPayload) : Type 0 where
  pub signature : AreAscii p.signature
  pub from : AreAscii p.authorization.from
  pub to : AreAscii p.authorization.to
  pub value : AreAscii p.authorization.value
  pub valid_after : AreAscii p.authorization.valid_after
  pub valid_before : AreAscii p.authorization.valid_before
  pub nonce : AreAscii p.authorization.nonce

-- What those packages document of a secret key of 32 bytes: its endpoint's text is ASCII and reads
-- back, its signatures read back, and they verify; and of a payload of ASCII texts, that it reads
-- back. (Other texts need not: encoding/json replaces bytes that are not UTF-8.)
pub record IsLawful (a : Api) : Type 0 where
  pub parse-public :
      (sk : Bytes)
      → length sk ≡ 32
      → a.parse_id (a.id_string (a.public_id sk)) ≡ some (a.public_id sk)
  pub public-AreAscii : (sk : Bytes) → length sk ≡ 32 → AreAscii (a.id_string (a.public_id sk))
  pub from-sign :
      (sk msg : Bytes) → length sk ≡ 32 → a.signature_from (a.sign sk msg) ≡ some (a.sign sk msg)
  pub sign-AreBytes : (sk msg : Bytes) → length sk ≡ 32 → AreBytes (a.sign sk msg)
  pub verify-sign :
      (sk msg : Bytes) → length sk ≡ 32 → a.verify (a.public_id sk) msg (a.sign sk msg) ≡ true
  pub decode-encode : (p : ExactPayload) → IsText p → a.decode_exact (a.encode_exact p) ≡ some p
