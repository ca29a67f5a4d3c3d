-- ===== src/Enclave/Handshake/Kept.antt =====
-- What the callbacks that do not judge the peer leave as it is.
use go_iroh_experiments.Base.{
  ◌≡◌, refl, sym, ◌∙◌, subst, Bool, true, false, Option, none, some, ltb, arith, length, Bytes,
  Bool-cases, Option-cases, inl, inr, ◌⊎◌,
}
use go_iroh_experiments.Go.Hex.{hex_encode}
use go_iroh_experiments.Enclave.Claim.{signing_bytes}
use go_iroh_experiments.Enclave.Handshake.{recv_hello, send_signed, send_claim, build_claim}
use go_iroh_experiments.Enclave.Messages.{
  attests, Signer, HandshakeError, Result, ok, err, Api, Run, Side, Callback, both, exchange,
  write_frame, read_frame, max_frame_size,
}

pub Result-cases {ℓ} :
    {A : Type ℓ} (r : Result A) → ((a : A) × (r ≡ ok a)) ⊎ ((e : HandshakeError) × (r ≡ err e))
Result-cases (ok a) = inl (a, refl)
Result-cases (err e) = inr (e, refl)

module _ {S : Type 0} where
  -- What is kept by the callbacks that do not judge.
  pub record Keeps (s t : Side S) : Type 0 where
    pub pins_kept : t.pins ≡ s.pins
    pub att_kept : t.peer_att ≡ s.peer_att
    pub err_kept : t.verify_err ≡ s.verify_err

  pub self-Keeps : (s : Side S) → Keeps s s
  self-Keeps s = record { pins_kept = refl; att_kept = refl; err_kept = refl }

  pub write-Keeps : (o : Option Bytes) (s : Side S) → Keeps s (write_frame o s).0
  unfolding write_frame
  write-Keeps none s = self-Keeps s
  write-Keeps (some b) s = elim (Bool-cases (ltb max_frame_size (length b))) [
    | inl large ↦ rw large (self-Keeps s)
    | inr small ↦ rw small (record { pins_kept = refl; att_kept = refl; err_kept = refl })
  ]

  pub to-Keeps : (s t u : Side S) → u ≡ t → Keeps s t → Keeps s u
  to-Keeps s t u e kept = subst (Keeps s) (sym e) kept

  pub both-Keeps :
      (f g : Callback S)
      → ((s : Side S) → Keeps s (f s).0)
      → ((s : Side S) → Keeps s (g s).0)
      → (s : Side S) → Keeps s (both f g s).0
  unfolding both
  both-Keeps f g f_keeps g_keeps s = elim (Option-cases (f s).1) [
    | inr (e, failed) ↦ to-Keeps s (f s).0 _ (ground arith) (f_keeps s)
    | inl done ↦
        let a = f_keeps s in
        let b = g_keeps (f s).0 in
        to-Keeps s (g (f s).0).0 _ (ground arith) (record {
          pins_kept = b.pins_kept ∙ a.pins_kept;
          att_kept = b.att_kept ∙ a.att_kept;
          err_kept = b.err_kept ∙ a.err_kept;
        })
  ]

  pub exchange-Keeps :
      (dialer : Bool) (f g : Callback S)
      → ((s : Side S) → Keeps s (f s).0)
      → ((s : Side S) → Keeps s (g s).0)
      → (s : Side S) → Keeps s (exchange dialer f g s).0
  unfolding exchange
  exchange-Keeps true f g f_keeps g_keeps s = both-Keeps f g f_keeps g_keeps s
  exchange-Keeps false f g f_keeps g_keeps s = both-Keeps g f g_keeps f_keeps s

  pub both-done :
      (f g : Callback S) (s : Side S)
      → (both f g s).1 ≡ none
      → ((f s).1 ≡ none) × ((g (f s).0).1 ≡ none) × ((both f g s).0 ≡ (g (f s).0).0)
  unfolding both
  both-done f g s done = elim (Option-cases (f s).1) [
    | inr (e, failed) ↦ absurd (ground arith)
    | inl first ↦ (first, ground arith, ground arith)
  ]

module _ (api : Api) {S : Type 0} (r : Run S) where
  pub send_signed-Keeps :
      (nonce : Bytes) (g : Signer) (s : Side S) → Keeps s (send_signed api r nonce g s).0
  unfolding send_signed
  send_signed-Keeps nonce g s = elim (Option-cases g.public_key) [
    | inl no_key ↦ to-Keeps s s _ (ground arith) (self-Keeps s)
    | inr (key, found) ↦
        let claim = build_claim api r key nonce in
        elim (Option-cases (g.sign (signing_bytes claim))) [
          | inl unsigned ↦ to-Keeps s s _ (ground arith) (self-Keeps s)
          | inr (sig, signed) ↦
              let sent =
                write_frame
                  (api.marshal_claim (record { claim = claim; signature = hex_encode sig })) s in
              to-Keeps s sent.0 _ (rw (send_signed, found, signed) refl) (write-Keeps _ s)
        ]
  ]

  pub send-Keeps : (nonce : Bytes) (s : Side S) → Keeps s (send_claim api r nonce s).0
  unfolding send_claim
  send-Keeps nonce s = elim (Bool-cases (attests r.cfg.mode)) [
    | inr mute ↦ to-Keeps s s _ (ground arith) (self-Keeps s)
    | inl attesting ↦ elim (Option-cases r.cfg.signer) [
      | inl no_key ↦ to-Keeps s s _ (ground arith) (self-Keeps s)
      | inr (g, found) ↦
          to-Keeps s (send_signed api r nonce g s).0 _ (ground arith) (send_signed-Keeps nonce g s)
    ]
  ]

  pub recv_hello-Keeps : (s : Side S) → Keeps s (recv_hello api r s).0
  unfolding recv_hello
  recv_hello-Keeps s = elim (Result-cases (read_frame s.input)) [
    | inr (e, failed) ↦ to-Keeps s s _ (ground arith) (self-Keeps s)
    | inl ((b, rest), read) ↦ elim (Option-cases (api.unmarshal_hello b)) [
      | inl bad ↦ record {
        pins_kept = ground arith;
        att_kept = ground arith;
        err_kept = ground arith;
      }
      | inr (h, decoded) ↦ record {
        pins_kept = ground arith;
        att_kept = ground arith;
        err_kept = ground arith;
      }
    ]
  ]
