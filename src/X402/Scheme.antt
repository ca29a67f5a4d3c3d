-- ===== src/X402/Scheme.antt =====
-- x402iroh/scheme.go: the signed bytes of an authorization, signing and verifying.
pub mod Signed
use go_iroh_experiments.Base.{
  ℕ, ◌≡◌, Bool, true, false, List, [], ◌∷◌, ◌++◌, Option, none, some, if◌then◌else◌, length, Bytes,
  codes,
}
use go_iroh_experiments.Go.Uvarint.{uvarint}
use go_iroh_experiments.Go.Hex.{hex_decode, hex_encode}
use go_iroh_experiments.Go.Strings.{trim_0x}
use go_iroh_experiments.X402.Api.{Api, Authorization, ExactPayload}

abbrev pub scheme : Bytes
scheme = codes "exact"

abbrev pub network : Bytes
network = codes "iroh:ed25519"

abbrev pub signing_domain : Bytes
signing_domain = codes "x402/iroh/exact/1"

-- the body of the loop over the fields
unfoldable pub append_fields : Bytes → List Bytes → Bytes
append_fields b [] = b
append_fields b (f ∷ fs) = append_fields ((b ++ uvarint (length f)) ++ f) fs

abbrev pub signed_fields : Bytes → Authorization → List Bytes
signed_fields net a =
    signing_domain ∷ net ∷ a.from ∷ a.to ∷ a.value ∷ a.valid_after ∷ a.valid_before ∷ a.nonce ∷ []

unfoldable pub signing_message : Bytes → Authorization → Bytes
signing_message net a = append_fields [] (signed_fields net a)

unfoldable pub sign_authorization : Api → Bytes → Bytes → Authorization → Bytes
sign_authorization api sk net a = b'0' ∷ b'x' ∷ hex_encode (api.sign sk (signing_message net a))

-- The errors of `VerifyAuthorization`, one for each return.
pub data AuthError : Type 0 where
  bad_from bad_signature_hex bad_signature not_signed : AuthError

pub data Verdict : Type 0 where
  signed_by : Bytes → Verdict
  refused : AuthError → Verdict

unfoldable pub verify_authorization : Api → Bytes → ExactPayload → Verdict
verify_authorization api net p = elim (api.parse_id p.authorization.from) [
  | none ↦ refused bad_from
  | some from ↦ elim (hex_decode (trim_0x p.signature)) [
    | none ↦ refused bad_signature_hex
    | some raw ↦ elim (api.signature_from raw) [
      | none ↦ refused bad_signature
      | some sig ↦
          if api.verify from (signing_message net p.authorization) sig
          then signed_by from
          else refused not_signed
    ]
  ]
]
