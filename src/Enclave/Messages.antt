-- ===== src/Enclave/Messages.antt =====
-- enclaveiroh/handshake.go: the modes, the messages and the frames of the handshake, and the state of
-- one side of it.
use go_iroh_experiments.Base.{
  ℕ, Bool, true, false, ◌++◌, Option, none, some, ltb, leb, if◌then◌else◌, length, take, drop,
  Bytes, codes, equal,
}
use go_iroh_experiments.Go.BigEndian.{big_endian, read_word}
use go_iroh_experiments.Enclave.Claim
use go_iroh_experiments.Enclave.Claim.{
  Claim, ClaimError, Session, claim_context, signing_bytes, verify_claim,
}
use go_iroh_experiments.Enclave.Policy.{Policy, PolicyError}

pub data Mode : Type 0 where
  mode_mutual mode_prove mode_verify : Mode

unfoldable pub attests : Mode → Bool
attests mode_mutual = true
attests mode_prove = true
attests mode_verify = false

unfoldable pub verifies : Mode → Bool
verifies mode_mutual = true
verifies mode_prove = false
verifies mode_verify = true

-- `Mode.String`
unfoldable pub mode_string : Mode → Bytes
mode_string mode_mutual = codes "mutual"
mode_string mode_prove = codes "prove"
mode_string mode_verify = codes "verify"

unfoldable pub parse_mode : Bytes → Option Mode
parse_mode s =
    if equal s (codes "mutual")
    then some mode_mutual
    else if equal s (codes "prove")
    then some mode_prove
    else if equal s (codes "verify")
    then some mode_verify
    else none

-- `v` is an int that is not negative.
pub record Hello : Type 0 where
  pub v : ℕ
  pub nonce : Bytes
  pub mode : Bytes

pub record WireClaim : Type 0 where
  pub claim : Claim
  pub signature : Bytes

-- `result`, with no reason where it is OK.
pub record Verdict : Type 0 where
  pub ok : Bool
  pub reason : Bytes

-- `Signer`: the public key and a signature, where the call succeeds.
pub record Signer : Type 0 where
  pub public_key : Option Bytes
  pub sign : Bytes → Option Bytes

pub record CodeIdentity : Type 0 where
  pub cd_hash : Bytes
  pub team_id : Bytes
  pub flags : ℕ

-- `HandshakeConfig`; `allow_unattested` is the policy's.
pub record HandshakeConfig (S : Type 0) : Type 0 where
  pub self_id : Bytes
  pub mode : Mode
  pub signer : Option Signer
  pub identity : CodeIdentity
  pub bundled : Bool
  pub ephemeral_key : Bool
  pub claim_version : ℕ
  pub policy : Policy S
  pub allow_unattested : Bool

pub data HandshakeError : Type 0 where
  no_signer short_read frame_too_large bad_json not_encoded bad_version bad_mode : HandshakeError
  bad_nonce no_public_key not_signed unattested bad_signature_text bad_signature : HandshakeError
  bad_claim : ClaimError → HandshakeError
  bad_policy : PolicyError → HandshakeError

-- `PeerAttestation`: a verified claim, or an explicit L0 result.
pub data PeerAttestation : Type 0 where
  attested : Claim → PeerAttestation
  unattested_peer : PeerAttestation

pub data Result {ℓ} (A : Type ℓ) : Type ℓ where
  ok : A → Result A
  err : HandshakeError → Result A

-- What the handshake takes from encoding/json, encoding/base64 and crypto/ecdsa.
pub record Api : Type 0 where
  pub claims : Claim.Api
  pub base64_encode : Bytes → Bytes
  -- VerifyClaimSignature(c, sig) == nil
  pub verify_signature : Claim → Bytes → Bool
  pub marshal_hello : Hello → Option Bytes
  pub unmarshal_hello : Bytes → Option Hello
  pub marshal_claim : WireClaim → Option Bytes
  pub unmarshal_claim : Bytes → Option WireClaim
  pub marshal_verdict : Verdict → Option Bytes
  pub unmarshal_verdict : Bytes → Option Verdict
  -- error.Error
  pub error_text : HandshakeError → Bytes

-- What one side knows of its connection, the nonce that it drew, and `time.Now` as text.
pub record Run (S : Type 0) : Type 0 where
  pub cfg : HandshakeConfig S
  pub dialer : Bool
  pub peer_id : Bytes
  pub alpn : Bytes
  pub nonce : Bytes
  pub now : Bytes

-- The stream, what the policy's hook keeps, and the variables of `runHandshake` that its callbacks set.
pub record Side (S : Type 0) : Type 0 where
  pub input : Bytes
  pub output : Bytes
  pub pins : S
  pub peer_hello : Option Hello
  pub peer_att : Option PeerAttestation
  pub verify_err : Option HandshakeError

abbrev pub max_frame_size : ℕ
max_frame_size = 65536

abbrev pub role_dial : Bytes
role_dial = codes "dial"

abbrev pub role_serve : Bytes
role_serve = codes "serve"

-- A callback: it may change the side, and fail.
abbrev pub Callback : Type 0 → Type 0
Callback S = Side S → Side S × Option HandshakeError

module _ {S : Type 0} where
  -- `second` where `first` has not failed.
  unfoldable pub both : Callback S → Callback S → Callback S
  both first second s = elim (first s).1 [ some e ↦ first s | none ↦ second (first s).0 ]

  unfoldable pub exchange : Bool → Callback S → Callback S → Callback S
  exchange dialer send recv = if dialer then both send recv else both recv send

  -- `writeFrame` of a value that is encoded, or cannot be.
  unfoldable pub write_frame : Option Bytes → Callback S
  write_frame none s = (s, some not_encoded)
  write_frame (some b) s =
      if ltb max_frame_size (length b)
      then (s, some frame_too_large)
      else (record s { output = s.output ++ (big_endian 4 (length b) ++ b) }, none)

-- `readFrame` up to the decoding: the frame and the rest of the stream.
unfoldable pub read_frame : Bytes → Result (Bytes × Bytes)
read_frame s = elim (read_word 4 0 s) [
  | none ↦ err short_read
  | some (n, rest) ↦
      if ltb max_frame_size n
      then err frame_too_large
      else if leb n (length rest)
      then ok (take n rest, drop n rest)
      else err short_read
]
