-- ===== src/Enclave/Claim/Bound.antt =====
-- A claim that verifies is bound to one session.
use go_iroh_experiments.Base.{
  ◌≡◌, sym, ◌∙◌, inl, inr, true, none, some, arith, Bytes, equal_iff, Option-cases, some-injective,
}
use go_iroh_experiments.Enclave.Claim.{
  Claim, Api, Session, claim_context, nonce_equal, verify_claim,
}

module _ (api : Api) where
  -- What a claim has when `VerifyClaim` finds nothing wrong.
  pub record Binds (c : Claim) (s : Session) : Type 0 where
    pub context_is : c.context ≡ claim_context
    pub role_is : c.role ≡ s.want_role
    pub local_is : c.local_endpoint ≡ api.id_string s.peer
    pub remote_is : c.remote_endpoint ≡ api.id_string s.self
    pub alpn_is : c.alpn ≡ s.alpn
    pub answers : api.base64_decode c.nonce_peer ≡ some s.self_nonce
    pub announces : api.base64_decode c.nonce_self ≡ some s.peer_nonce

  nonce_equal-decodes :
      (field want : Bytes) → nonce_equal api field want ≡ true → api.base64_decode field ≡ some want
  unfolding nonce_equal
  nonce_equal-decodes field want h = elim (Option-cases (api.base64_decode field)) [
    | inl e ↦ absurd (ground (arith, e))
    | inr (got, e) ↦ ground (arith, e, equal_iff got want)
  ]

  verify_claim-Binds : (c : Claim) (s : Session) → verify_claim api c s ≡ none → Binds c s
  unfolding verify_claim
  verify_claim-Binds c s h = record {
    context_is = ground (arith, equal_iff c.context claim_context);
    role_is = ground (arith, equal_iff c.role s.want_role);
    local_is = ground (arith, equal_iff c.local_endpoint (api.id_string s.peer));
    remote_is = ground (arith, equal_iff c.remote_endpoint (api.id_string s.self));
    alpn_is = ground (arith, equal_iff c.alpn s.alpn);
    answers = nonce_equal-decodes c.nonce_peer s.self_nonce (ground arith);
    announces = nonce_equal-decodes c.nonce_self s.peer_nonce (ground arith);
  }

-- A claim cannot be replayed: where endpoint texts are different for different endpoints, a claim
-- that verifies in two sessions shows that they have the same role, endpoints, ALPN and nonces.
pub verify_claim-one_session :
    (api : Api) (c : Claim) (s t : Session)
    → ((a b : Bytes) → api.id_string a ≡ api.id_string b → a ≡ b)
    → verify_claim api c s ≡ none
    → verify_claim api c t ≡ none
    → s ≡ t
verify_claim-one_session api c s t ids hs ht =
    let a = verify_claim-Binds api c s hs in
    let b = verify_claim-Binds api c t ht in
    let peers = ids s.peer t.peer (sym a.local_is ∙ b.local_is) in
    let selves = ids s.self t.self (sym a.remote_is ∙ b.remote_is) in
    let mine = some-injective (sym a.answers ∙ b.answers) in
    let theirs = some-injective (sym a.announces ∙ b.announces) in
    ground (arith, peers, selves, mine, theirs, a.role_is, b.role_is, a.alpn_is, b.alpn_is)
