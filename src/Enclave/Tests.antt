-- ===== src/Enclave/Tests.antt =====
-- The enclaveiroh theorems at one claim, with the identity in place of the packages' texts.
mod Handshakes
use go_iroh_experiments.Base.{
  ◌≡◌, ◌+◌, ◌⊎◌, ◌∷◌, ℕ, refl, true, false, [], none, some, arith, codes, equal, if◌then◌else◌,
}
use go_iroh_experiments.Base.Dict.{lookup}
use go_iroh_experiments.Enclave.Claim.{
  Claim, Api, Session, claim_context, verify_claim, nonce_equal,
}
use go_iroh_experiments.Enclave.Claim.Signed.{IsClaim, signing_bytes-injective}
use go_iroh_experiments.Enclave.Claim.Bound.{verify_claim-one_session}
use go_iroh_experiments.Enclave.Policy.{Policy, PolicyError, check, ask_hook}
use go_iroh_experiments.Enclave.Policy.Decides.{Meets, check-Decides}
use go_iroh_experiments.Enclave.KnownPeers.{pin, pins, pinned, key_changed, pin-first_use}

abbrev pub test_api : Api
test_api = record { base64_decode = λ s. some s; id_string = λ id. id }

abbrev pub claim : Claim
claim = record {
  context = claim_context;
  role = codes "dial";
  local_endpoint = codes "peer";
  remote_endpoint = codes "self";
  alpn = codes "x/1";
  nonce_self = codes "n";
  nonce_peer = codes "m";
  cd_hash = codes "aa";
  team_id = codes "T";
  cs_flags = 256;
  bundled = true;
  ephemeral_key = false;
  attest_key = codes "04";
  time = codes "now";
  claim_version = 3;
}

abbrev session : Session
session = record {
  want_role = codes "dial";
  self = codes "self";
  peer = codes "peer";
  alpn = codes "x/1";
  self_nonce = codes "m";
  peer_nonce = codes "n";
}

claim-verifies : verify_claim test_api claim session ≡ none
unfolding verify_claim nonce_equal equal
claim-verifies = refl

verify_claim-one_session_example : session ≡ session
verify_claim-one_session_example =
    verify_claim-one_session test_api claim session session (λ a b e. e) claim-verifies
      claim-verifies

first-pinned : (pin [] claim (codes "t") true).1 ≡ pinned
unfolding pin lookup
first-pinned = refl

-- A policy with a team, whose hook counts the claims it is asked about.
abbrev pub team_policy : Policy ℕ
team_policy = record {
  require_maximal = false;
  require_bundled = true;
  forbid_ephemeral_key = true;
  min_claim_version = 2;
  allowed_team_ids = codes "T" ∷ [];
  allowed_cd_hashes = [];
  pinned_attest_keys = [];
  pin_peer = some (λ n c. (n + 1, true));
}
