-- ===== src/Enclave/Handshake/Outcome.antt =====
-- What a handshake that succeeds has checked.
use go_iroh_experiments.Base.{
  ◌≡◌, refl, sym, ap, ◌∙◌, subst, Bool, true, false, [], Option, none, some, arith, Bytes,
  Bool-cases, Option-cases, inl, inr,
}
use go_iroh_experiments.Go.Hex.{hex_decode}
use go_iroh_experiments.Enclave.Claim.{verify_claim}
use go_iroh_experiments.Enclave.Policy.{check}
use go_iroh_experiments.Enclave.Handshake.{
  session, my_hello, recv_hello, check_hello, send_claim, verify_peer_claim, judge, read_claim,
  recv_claim, finish, attest, with_hello, run_handshake, lacks_signer,
}
use go_iroh_experiments.Enclave.Messages.{
  Mode, attests, verifies, Hello, WireClaim, HandshakeError, PeerAttestation, attested,
  unattested_peer, ok, Api, Run, Side, exchange, write_frame, read_frame,
}
use go_iroh_experiments.Enclave.Handshake.Kept.{
  Result-cases, Keeps, write-Keeps, exchange-Keeps, both-done, send-Keeps, recv_hello-Keeps,
}

module _ (api : Api) {S : Type 0} (r : Run S) (pins : S) where
  -- How a handshake may succeed, with the attestation that it returns.
  pub data Settled : Option PeerAttestation → Type 0 where
    unasked : verifies r.cfg.mode ≡ false → Settled none
    allowed :
        verifies r.cfg.mode ≡ true → r.cfg.allow_unattested ≡ true → Settled (some unattested_peer)
    accepted :
        (wc : WireClaim) (signature nonce : Bytes)
        → verifies r.cfg.mode ≡ true
        → hex_decode wc.signature ≡ some signature
        → api.verify_signature wc.claim signature ≡ true
        → verify_claim api.claims wc.claim (session api r nonce) ≡ none
        → (check r.cfg.policy pins wc.claim).1 ≡ none
        → Settled (some (attested wc.claim))

  -- Nothing has been judged yet.
  record IsFresh (s : Side S) : Type 0 where
    same_pins : s.pins ≡ pins
    no_att : s.peer_att ≡ none
    no_err : s.verify_err ≡ none

  abbrev IsSettled : Side S → Type 0
  IsSettled s = s.verify_err ≡ none → Settled s.peer_att

  IsFresh-Keeps : (s t : Side S) → IsFresh s → Keeps s t → IsFresh t
  IsFresh-Keeps s t fresh kept = record {
    same_pins = kept.pins_kept ∙ fresh.same_pins;
    no_att = kept.att_kept ∙ fresh.no_att;
    no_err = kept.err_kept ∙ fresh.no_err;
  }

  IsSettled-Keeps : (s t : Side S) → IsSettled s → Keeps s t → IsSettled t
  IsSettled-Keeps s t settled kept none_wrong =
      subst Settled (sym kept.att_kept) (settled (sym kept.err_kept ∙ none_wrong))

  judge-IsSettled :
      (nonce : Bytes) (s : Side S) (wc : WireClaim)
      → s.pins ≡ pins
      → verifies r.cfg.mode ≡ true
      → IsSettled (judge api r nonce s wc)
  unfolding judge verify_peer_claim
  judge-IsSettled nonce s wc same asked none_wrong = elim (Option-cases (hex_decode wc.signature)) [
    | inl bad ↦ absurd (ground arith)
    | inr (sig, decoded) ↦ elim (Bool-cases (api.verify_signature wc.claim sig)) [
      | inr bad ↦ absurd (ground arith)
      | inl signed ↦ elim (Option-cases (verify_claim api.claims wc.claim (session api r nonce))) [
        | inr (e, bad) ↦ absurd (ground arith)
        | inl bound ↦ elim (Option-cases (check r.cfg.policy s.pins wc.claim).1) [
          | inr (e, bad) ↦ absurd (ground arith)
          | inl passed ↦
              let judged : (judge api r nonce s wc).peer_att ≡ some (attested wc.claim) =
                ground arith in
              subst Settled (sym judged) (
                accepted wc sig nonce asked decoded signed bound
                  (ap (λ (p : S). (check r.cfg.policy p wc.claim).1) (sym same) ∙ passed))
        ]
      ]
    ]
  ]

  read_claim-IsSettled :
      (nonce : Bytes) (s : Side S)
      → IsFresh s
      → verifies r.cfg.mode ≡ true
      → (read_claim api r nonce s).1 ≡ none
      → IsSettled (read_claim api r nonce s).0
  unfolding read_claim
  read_claim-IsSettled nonce s fresh asked done = elim (Result-cases (read_frame s.input)) [
    | inr (e, failed) ↦ absurd (ground arith)
    | inl ((b, rest), read) ↦ elim (Option-cases (api.unmarshal_claim b)) [
      | inl bad ↦ absurd (ground arith)
      | inr (wc, decoded) ↦
          let judged : (read_claim api r nonce s).0
              ≡ judge api r nonce (record s { input = rest }) wc =
            ground arith in
          subst IsSettled (sym judged) (judge-IsSettled nonce _ wc fresh.same_pins asked)
    ]
  ]

  recv-IsSettled :
      (mode : Mode) (nonce : Bytes) (s : Side S)
      → IsFresh s
      → (recv_claim api r mode nonce s).1 ≡ none
      → IsSettled (recv_claim api r mode nonce s).0
  unfolding recv_claim
  recv-IsSettled mode nonce s fresh done = elim (Bool-cases (verifies r.cfg.mode)) [
    | inr unasked_for ↦ λ none_wrong.
        let same : (recv_claim api r mode nonce s).0.peer_att ≡ none =
          ground (arith, fresh.no_att) in
        subst Settled (sym same) (unasked unasked_for)
    | inl asked ↦ elim (Bool-cases (attests mode)) [
      | inl sends ↦
          let same : recv_claim api r mode nonce s ≡ read_claim api r nonce s = ground arith in
          subst (λ (p : Side S × Option HandshakeError). IsSettled p.0) (sym same)
            (read_claim-IsSettled nonce s fresh asked
              (ap (λ (p : Side S × Option HandshakeError). p.1) (sym same) ∙ done))
      | inr mute ↦ elim (Bool-cases r.cfg.allow_unattested) [
        | inl free ↦ λ none_wrong.
            let same : (recv_claim api r mode nonce s).0.peer_att ≡ some unattested_peer =
              ground arith in
            subst Settled (sym same) (allowed asked free)
        | inr strict ↦ λ none_wrong. absurd (ground arith)
      ]
    ]
  ]

  exchange-IsSettled :
      (mode : Mode) (nonce : Bytes) (s : Side S) (dialer : Bool)
      → IsFresh s
      → (exchange dialer (send_claim api r nonce) (recv_claim api r mode nonce) s).1 ≡ none
      → IsSettled (exchange dialer (send_claim api r nonce) (recv_claim api r mode nonce) s).0
  unfolding exchange
  exchange-IsSettled mode nonce s true fresh done =
      let (sent, got, same) = both-done _ _ s done in
      subst IsSettled (sym same)
        (recv-IsSettled mode nonce _ (IsFresh-Keeps s _ fresh (send-Keeps api r nonce s)) got)
  exchange-IsSettled mode nonce s false fresh done =
      let (got, sent, same) = both-done _ _ s done in
      subst IsSettled (sym same)
        (IsSettled-Keeps _ _ (recv-IsSettled mode nonce s fresh got) (send-Keeps api r nonce _))

  finish-Settled :
      (s : Side S) (a : Option PeerAttestation)
      → IsSettled s
      → (finish api r s).1 ≡ ok a
      → Settled a
  unfolding finish
  finish-Settled s a settled h = elim (Option-cases s.verify_err) [
    | inr (e, wrong) ↦ absurd (ground arith)
    | inl right ↦ subst Settled (ground arith) (settled right)
  ]

  attest-Settled :
      (mode : Mode) (nonce : Bytes) (s : Side S) (a : Option PeerAttestation)
      → IsFresh s
      → (attest api r mode nonce s).1 ≡ ok a
      → Settled a
  unfolding attest
  attest-Settled mode nonce s a fresh h =
      let ex = exchange r.dialer (send_claim api r nonce) (recv_claim api r mode nonce) s in
      elim (Option-cases ex.1) [
        | inr (e, failed) ↦ absurd (ground arith)
        | inl done ↦
            finish-Settled ex.0 a (exchange-IsSettled mode nonce s r.dialer fresh done)
              (ground arith)
      ]

  with_hello-Settled :
      (s : Side S) (o : Option Hello) (a : Option PeerAttestation)
      → IsFresh s
      → (with_hello api r s o).1 ≡ ok a
      → Settled a
  unfolding with_hello
  with_hello-Settled s none a fresh h = absurd (ground arith)
  with_hello-Settled s (some hello) a fresh h = elim (Result-cases (check_hello api r hello)) [
    | inr (e, failed) ↦ absurd (ground arith)
    | inl ((mode, nonce), checked) ↦ attest-Settled mode nonce s a fresh (ground arith)
  ]

  -- A handshake that succeeds returns an attestation that it may return: none where this side does
  -- not verify, the explicit unattested result only where the policy allows it, and otherwise a
  -- claim with a valid signature, that was checked against this side's view of the session and
  -- that the policy accepted with the pins the handshake began with.
  pub run_handshake-Settled :
      (input : Bytes) (a : Option PeerAttestation)
      → (run_handshake api r pins input).1 ≡ ok a
      → Settled a
  unfolding run_handshake
  run_handshake-Settled input a h =
      let start : Side S = record {
        input = input;
        output = [];
        pins = pins;
        peer_hello = none;
        peer_att = none;
        verify_err = none;
      } in
      let begun : IsFresh start = record { same_pins = refl; no_att = refl; no_err = refl } in
      let send = write_frame (api.marshal_hello (my_hello api r)) in
      let ex = exchange r.dialer send (recv_hello api r) start in
      let kept =
        exchange-Keeps r.dialer send (recv_hello api r) (write-Keeps _) (recv_hello-Keeps api r)
          start in
      elim (Bool-cases (lacks_signer api r)) [
        | inl lacks ↦ absurd (ground arith)
        | inr has ↦ elim (Option-cases ex.1) [
          | inr (e, failed) ↦ absurd (ground arith)
          | inl done ↦
              with_hello-Settled ex.0 ex.0.peer_hello a (IsFresh-Keeps start ex.0 begun kept)
                (ground arith)
        ]
      ]
