-- ===== src/Enclave/Tests/Handshakes.antt =====
-- A listener that verifies a dialer, which sends its hello, a claim and its verdict.
use go_iroh_experiments.Base.{
  ◌≡◌, ◌++◌, refl, true, false, [], none, some, length, Bytes, codes, equal, ℕ,
}
use go_iroh_experiments.Go.BigEndian.{big_endian, read_word}
use go_iroh_experiments.Go.Hex.{hex_decode, hex_digit, nibble}
use go_iroh_experiments.Enclave.Claim.{Claim, verify_claim, nonce_equal}
use go_iroh_experiments.Enclave.Policy.{check, ask_hook, check_fields, among, excludes, has_bit}
use go_iroh_experiments.Enclave.Handshake.{
  run_handshake, lacks_signer, recv_hello, my_hello, with_hello, check_hello, attest, recv_claim,
  finish, judge, my_verdict, read_claim, recv_verdict, send_claim, session, verify_peer_claim,
  want_role,
}
use go_iroh_experiments.Enclave.Messages.{
  Api, Run, mode_verify, attested, ok, attests, exchange, both, read_frame, write_frame, parse_mode,
  verifies, mode_string,
}
use go_iroh_experiments.Enclave.Handshake.Outcome.{Settled, run_handshake-Settled}
use go_iroh_experiments.Enclave.Tests.{test_api, claim, team_policy}

abbrev dialer_nonce : Bytes
dialer_nonce = codes "0123456789abcdef0123456789abcdef"

abbrev dialer_claim : Claim
dialer_claim = record claim { nonce_self = dialer_nonce; nonce_peer = codes "m" }

-- A hello is its nonce, and any claim and verdict decode to these.
abbrev handshake_api : Api
handshake_api = record {
  claims = test_api;
  base64_encode = λ s. s;
  verify_signature = λ c s. equal s (codes "s");
  marshal_hello = λ h. some h.nonce;
  unmarshal_hello = λ b. some (record { v = 1; nonce = b; mode = codes "prove" });
  marshal_claim = λ c. some c.signature;
  unmarshal_claim = λ b. some (record { claim = dialer_claim; signature = b });
  marshal_verdict = λ v. some v.reason;
  unmarshal_verdict = λ b. some (record { ok = true; reason = b });
  error_text = λ e. codes "refused";
}

abbrev listener : Run ℕ
listener = record {
  cfg = record {
    self_id = codes "self";
    mode = mode_verify;
    signer = none;
    identity = record { cd_hash = []; team_id = []; flags = 0 };
    bundled = false;
    ephemeral_key = false;
    claim_version = 0;
    policy = team_policy;
    allow_unattested = false;
  };
  dialer = false;
  peer_id = codes "peer";
  alpn = codes "x/1";
  nonce = codes "m";
  now = codes "now";
}

abbrev framed : Bytes → Bytes
framed b = big_endian 4 (length b) ++ b

abbrev stream : Bytes
stream = framed dialer_nonce ++ (framed (codes "73") ++ framed [])

listener-accepts :
    (run_handshake handshake_api listener 0 stream).1 ≡ ok (some (attested dialer_claim))
unfolding run_handshake lacks_signer attests exchange both recv_hello read_frame read_word
    big_endian write_frame my_hello with_hello check_hello parse_mode equal attest recv_claim
    verifies nonce_equal verify_claim finish judge mode_string my_verdict read_claim recv_verdict
    send_claim session verify_peer_claim want_role ask_hook check check_fields among excludes
    has_bit hex_decode hex_digit nibble
listener-accepts = refl

run_handshake-Settled_example : Settled handshake_api listener 0 (some (attested dialer_claim))
run_handshake-Settled_example =
    run_handshake-Settled handshake_api listener 0 stream (some (attested dialer_claim))
      listener-accepts
