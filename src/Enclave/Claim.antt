-- ===== src/Enclave/Claim.antt =====
-- enclaveiroh/claim.go: the signed bytes of a claim and the checks that bind it to a session.
pub mod Signed
pub mod Bound
use go_iroh_experiments.Base.{
  ℕ, ◌≡◌, Bool, true, false, List, [], ◌∷◌, ◌++◌, Option, none, some, if◌then◌else◌, not, Bytes,
  codes, equal,
}
use go_iroh_experiments.Go.BigEndian.{big_endian}
use go_iroh_experiments.Go.Uvarint.{uvarint, put_field}

-- `cs_flags` is a uint32, `claim_version` a uint64.
pub record Claim : Type 0 where
  pub context : Bytes
  pub role : Bytes
  pub local_endpoint : Bytes
  pub remote_endpoint : Bytes
  pub alpn : Bytes
  pub nonce_self : Bytes
  pub nonce_peer : Bytes
  pub cd_hash : Bytes
  pub team_id : Bytes
  pub cs_flags : ℕ
  pub bundled : Bool
  pub ephemeral_key : Bool
  pub attest_key : Bytes
  pub time : Bytes
  pub claim_version : ℕ

abbrev pub claim_context : Bytes
claim_context = codes "enclaveiroh-attest/2"

unfoldable pub bool_byte : Bool → ℕ
bool_byte true = 1
bool_byte false = 0

-- The loop over fields, in front of what follows it.
unfoldable pub put_claim_fields : List Bytes → Bytes → Bytes
put_claim_fields [] rest = rest
put_claim_fields (f ∷ fs) rest = put_field f ++ put_claim_fields fs rest

unfoldable pub signing_bytes : Claim → Bytes
signing_bytes c =
    put_claim_fields
      (c.context ∷ c.role ∷ c.local_endpoint ∷ c.remote_endpoint ∷ c.alpn ∷ c.nonce_self
        ∷ c.nonce_peer ∷ c.cd_hash ∷ c.team_id ∷ [])
      (big_endian 4 c.cs_flags
        ++ (bool_byte c.bundled
            ∷ bool_byte c.ephemeral_key
            ∷ put_claim_fields (c.attest_key ∷ c.time ∷ []) (uvarint c.claim_version)))

-- encoding/base64's StdEncoding.DecodeString, and key.EndpointID.String.
pub record Api : Type 0 where
  pub base64_decode : Bytes → Option Bytes
  pub id_string : Bytes → Bytes

-- A verifier's view of the connection.
pub record Session : Type 0 where
  pub want_role : Bytes
  pub self : Bytes
  pub peer : Bytes
  pub alpn : Bytes
  pub self_nonce : Bytes
  pub peer_nonce : Bytes

-- The errors of `VerifyClaim`, in its order.
pub data ClaimError : Type 0 where
  bad_context : ClaimError
  bad_role : ClaimError
  bad_local : ClaimError
  bad_remote : ClaimError
  bad_alpn : ClaimError
  bad_nonce_peer : ClaimError
  bad_nonce_self : ClaimError

module _ (api : Api) where
  unfoldable pub nonce_equal : Bytes → Bytes → Bool
  nonce_equal field want = elim (api.base64_decode field) [
    | none ↦ false
    | some got ↦ equal got want
  ]

  -- `VerifyClaim`: the first check that fails.
  unfoldable pub verify_claim : Claim → Session → Option ClaimError
  verify_claim c s =
      if not (equal c.context claim_context)
      then some bad_context
      else if not (equal c.role s.want_role)
      then some bad_role
      else if not (equal c.local_endpoint (api.id_string s.peer))
      then some bad_local
      else if not (equal c.remote_endpoint (api.id_string s.self))
      then some bad_remote
      else if not (equal c.alpn s.alpn)
      then some bad_alpn
      else if not (nonce_equal c.nonce_peer s.self_nonce)
      then some bad_nonce_peer
      else if not (nonce_equal c.nonce_self s.peer_nonce)
      then some bad_nonce_self
      else none
