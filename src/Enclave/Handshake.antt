-- ===== src/Enclave/Handshake.antt =====
-- enclaveiroh/handshake.go: the attestation handshake of one side on a stream. `input` is what the
-- peer sends until the deadline, `output` what this side has written; writing does not fail.
pub mod Kept
pub mod Outcome
use go_iroh_experiments.Base.{
  ℕ, Bool, true, false, not, ◌&&◌, [], ◌++◌, Option, none, some, ltb, leb, ◌==◌, if◌then◌else◌,
  length, take, drop, Bytes, codes, equal,
}
use go_iroh_experiments.Go.BigEndian.{big_endian, read_word}
use go_iroh_experiments.Go.Hex.{hex_encode, hex_decode}
use go_iroh_experiments.Enclave.Claim
use go_iroh_experiments.Enclave.Claim.{
  Claim, ClaimError, Session, claim_context, signing_bytes, verify_claim,
}
use go_iroh_experiments.Enclave.Policy.{Policy, PolicyError, check}
use go_iroh_experiments.Enclave.Messages.{
  Api, Callback, HandshakeError, Hello, Mode, PeerAttestation, Result, Run, Side, Signer, Verdict,
  WireClaim, attested, attests, bad_claim, bad_json, bad_mode, bad_nonce, bad_policy, bad_signature,
  bad_signature_text, bad_version, err, exchange, mode_string, no_public_key, no_signer, not_signed,
  ok, parse_mode, read_frame, role_dial, role_serve, short_read, unattested, unattested_peer,
  verifies, write_frame,
}

-- The role of the peer's claim.
unfoldable pub want_role : Bool → Bytes
want_role dialer = if dialer then role_serve else role_dial

unfoldable pub own_role : Bool → Bytes
own_role dialer = if dialer then role_dial else role_serve

module _ (api : Api) {S : Type 0} (r : Run S) where
  -- This side's view of the connection, when the peer has sent its nonce.
  unfoldable pub session : Bytes → Session
  session peer_nonce = record {
    want_role = want_role r.dialer;
    self = r.cfg.self_id;
    peer = r.peer_id;
    alpn = r.alpn;
    self_nonce = r.nonce;
    peer_nonce = peer_nonce;
  }

  unfoldable pub my_hello : Hello
  my_hello = record { v = 1; nonce = api.base64_encode r.nonce; mode = mode_string r.cfg.mode }

  unfoldable pub recv_hello : Callback S
  recv_hello s = elim (read_frame s.input) [
    | err e ↦ (s, some e)
    | ok (b, rest) ↦ elim (api.unmarshal_hello b) [
      | none ↦ (record s { input = rest }, some bad_json)
      | some h ↦ (record s { input = rest; peer_hello = some h }, none)
    ]
  ]

  -- The checks of the peer's hello: its mode and its nonce.
  unfoldable pub check_hello : Hello → Result (Mode × Bytes)
  check_hello h = if not (h.v == 1) then err bad_version else elim (parse_mode h.mode) [
    | none ↦ err bad_mode
    | some mode ↦ elim (api.claims.base64_decode h.nonce) [
      | none ↦ err bad_nonce
      | some nonce ↦ if length nonce == 32 then ok (mode, nonce) else err bad_nonce
    ]
  ]

  unfoldable pub build_claim : Bytes → Bytes → Claim
  build_claim public_key peer_nonce = record {
    context = claim_context;
    role = own_role r.dialer;
    local_endpoint = api.claims.id_string r.cfg.self_id;
    remote_endpoint = api.claims.id_string r.peer_id;
    alpn = r.alpn;
    nonce_self = api.base64_encode r.nonce;
    nonce_peer = api.base64_encode peer_nonce;
    cd_hash = hex_encode r.cfg.identity.cd_hash;
    team_id = r.cfg.identity.team_id;
    cs_flags = r.cfg.identity.flags;
    bundled = r.cfg.bundled;
    ephemeral_key = r.cfg.ephemeral_key;
    attest_key = hex_encode public_key;
    time = r.now;
    claim_version = r.cfg.claim_version;
  }

  -- The callback `send` with a signer.
  unfoldable pub send_signed : Bytes → Signer → Callback S
  send_signed peer_nonce signer s = elim signer.public_key [
    | none ↦ (s, some no_public_key)
    | some key ↦
        let claim = build_claim key peer_nonce in
        elim (signer.sign (signing_bytes claim)) [
          | none ↦ (s, some not_signed)
          | some sig ↦
              write_frame (api.marshal_claim (record { claim = claim; signature = hex_encode sig }))
                s
        ]
  ]

  unfoldable pub send_claim : Bytes → Callback S
  send_claim peer_nonce s = if not (attests r.cfg.mode) then (s, none) else elim r.cfg.signer [
    | none ↦ (s, some no_signer)
    | some signer ↦ send_signed peer_nonce signer s
  ]

  -- `verifyPeerClaim`
  unfoldable pub verify_peer_claim : Bytes → S → WireClaim → S × Option HandshakeError
  verify_peer_claim peer_nonce pins wc = elim (hex_decode wc.signature) [
    | none ↦ (pins, some bad_signature_text)
    | some sig ↦
        if not (api.verify_signature wc.claim sig)
        then (pins, some bad_signature)
        else elim (verify_claim api.claims wc.claim (session peer_nonce)) [
          | some e ↦ (pins, some (bad_claim e))
          | none ↦ (
            (check r.cfg.policy pins wc.claim).0,
            elim (check r.cfg.policy pins wc.claim).1 [
              | none ↦ none
              | some e ↦ some (bad_policy e)
            ],
          )
        ]
  ]

  -- What `recv` sets when it has read a claim.
  unfoldable pub judge : Bytes → Side S → WireClaim → Side S
  judge peer_nonce s wc =
      let (pins, e) = verify_peer_claim peer_nonce s.pins wc in
      record s {
        pins = pins;
        verify_err = e;
        peer_att = elim e [ none ↦ some (attested wc.claim) | some x ↦ s.peer_att ];
      }

  unfoldable pub read_claim : Bytes → Callback S
  read_claim peer_nonce s = elim (read_frame s.input) [
    | err e ↦ (s, some e)
    | ok (b, rest) ↦ elim (api.unmarshal_claim b) [
      | none ↦ (record s { input = rest }, some bad_json)
      | some wc ↦ (judge peer_nonce (record s { input = rest }) wc, none)
    ]
  ]

  -- The callback `recv`
  unfoldable pub recv_claim : Mode → Bytes → Callback S
  recv_claim peer_mode peer_nonce s =
      if not (verifies r.cfg.mode)
      then (s, none)
      else if attests peer_mode
      then read_claim peer_nonce s
      else if r.cfg.allow_unattested
      then (record s { peer_att = some unattested_peer }, none)
      else (record s { verify_err = some unattested }, none)

  unfoldable pub my_verdict : Side S → Verdict
  my_verdict s = elim s.verify_err [
    | none ↦ record { ok = true; reason = [] }
    | some e ↦ record { ok = false; reason = api.error_text e }
  ]

  -- The peer's verdict is read and dropped.
  unfoldable pub recv_verdict : Callback S
  recv_verdict s = elim (read_frame s.input) [
    | err e ↦ (s, some e)
    | ok (b, rest) ↦ (
      record s { input = rest },
      elim (api.unmarshal_verdict b) [ none ↦ some bad_json | some v ↦ none ],
    )
  ]

  -- Phase 3, whose errors are ignored, and the outcome.
  unfoldable pub finish : Side S → Side S × Result (Option PeerAttestation)
  finish s = (
    (exchange r.dialer (write_frame (api.marshal_verdict (my_verdict s))) recv_verdict s).0,
    elim s.verify_err [ some e ↦ err e | none ↦ ok s.peer_att ],
  )

  -- Phases 2 and 3, when the peer's hello has been checked.
  unfoldable pub attest : Mode → Bytes → Side S → Side S × Result (Option PeerAttestation)
  attest peer_mode peer_nonce s =
      let (s2, e) = exchange r.dialer (send_claim peer_nonce) (recv_claim peer_mode peer_nonce) s in
      elim e [ some x ↦ (s2, err x) | none ↦ finish s2 ]

  -- What follows phase 1: the hello that it has read.
  unfoldable pub with_hello : Side S → Option Hello → Side S × Result (Option PeerAttestation)
  with_hello s none = (s, err short_read)
  with_hello s (some h) = elim (check_hello h) [
    | err e ↦ (s, err e)
    | ok (peer_mode, peer_nonce) ↦ attest peer_mode peer_nonce s
  ]

  unfoldable pub lacks_signer : Bool
  lacks_signer = attests r.cfg.mode && elim r.cfg.signer [ none ↦ true | some g ↦ false ]

  -- `runHandshake` on a stream from which `input` can be read.
  unfoldable pub run_handshake : S → Bytes → Side S × Result (Option PeerAttestation)
  run_handshake pins input =
      let start : Side S = record {
        input = input;
        output = [];
        pins = pins;
        peer_hello = none;
        peer_att = none;
        verify_err = none;
      } in
      if lacks_signer
      then (start, err no_signer)
      else let (s, e) =
          exchange r.dialer (write_frame (api.marshal_hello my_hello)) recv_hello start in
        elim e [ some x ↦ (s, err x) | none ↦ with_hello s s.peer_hello ]
