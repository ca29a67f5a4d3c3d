-- ===== src/Enclave/Claim/Signed.antt =====
-- The signed bytes of a claim determine the claim.
use go_iroh_experiments.Base.{
  ℕ, ◌^◌, ◌<◌, ◌≡◌, refl, sym, ap, ap₂, ◌∙◌, Bool, List, [], ◌∷◌, ◌++◌, arith, length, All, Bytes,
  some-injective,
}
use go_iroh_experiments.Go.BigEndian.{big_endian, read_word, read-big_endian}
use go_iroh_experiments.Go.Uvarint.{
  uvarint, get_uvarint, get-uvarint, put_field, get_field, get-put_field,
}
use go_iroh_experiments.Enclave.Claim.{Claim, bool_byte, put_claim_fields, signing_bytes}

abbrev pub AreShort : List Bytes → Type 0
AreShort = All (λ f. length f < 2 ^ 64)

put_field-injective :
    (f g r s : Bytes)
    → length f < 2 ^ 64
    → length g < 2 ^ 64
    → put_field f ++ r ≡ put_field g ++ s
    → (f ≡ g) × (r ≡ s)
put_field-injective f g r s hf hg e =
    let same =
      some-injective (sym (get-put_field f r hf) ∙ ap get_field e ∙ get-put_field g s hg) in
    (ap (λ (p : Bytes × Bytes). p.0) same, ap (λ (p : Bytes × Bytes). p.1) same)

big_endian-injective :
    (m n : ℕ) (r s : Bytes)
    → m < 2 ^ 32
    → n < 2 ^ 32
    → big_endian 4 m ++ r ≡ big_endian 4 n ++ s
    → (m ≡ n) × (r ≡ s)
big_endian-injective m n r s hm hn e =
    let same = some-injective (
      sym (read-big_endian 4 m r (omega arith))
      ∙ ap (read_word 4 0) e
      ∙ read-big_endian 4 n s (omega arith)) in
    (ap (λ (p : ℕ × Bytes). p.0) same, ap (λ (p : ℕ × Bytes). p.1) same)

uvarint-injective : (m n : ℕ) → m < 2 ^ 64 → n < 2 ^ 64 → uvarint m ≡ uvarint n → m ≡ n
uvarint-injective m n hm hn e =
    let same = some-injective (
      sym (get-uvarint m [] hm)
      ∙ ap (λ (b : Bytes). get_uvarint (b ++ [])) e
      ∙ get-uvarint n [] hn) in
    ap (λ (p : ℕ × Bytes). p.0) same

bool_byte-injective : (b c : Bool) → bool_byte b ≡ bool_byte c → b ≡ c
unfolding bool_byte
bool_byte-injective b c e = ground arith

cons-injective : (x y : ℕ) (r s : Bytes) → x ∷ r ≡ y ∷ s → (x ≡ y) × (r ≡ s)
cons-injective x y r s e = (ground arith, ground arith)

fields-injective :
    (fs gs : List Bytes) (r s : Bytes)
    → length fs ≡ length gs
    → AreShort fs
    → AreShort gs
    → put_claim_fields fs r ≡ put_claim_fields gs s
    → (fs ≡ gs) × (r ≡ s)
unfolding put_claim_fields
fields-injective [] [] r s n hf hg e = (refl, e)
fields-injective [] (g ∷ gs) r s n hf hg e = absurd (omega arith)
fields-injective (f ∷ fs) [] r s n hf hg e = absurd (omega arith)
fields-injective (f ∷ fs) (g ∷ gs) r s n hf hg e =
    let (head, rest) =
      put_field-injective f g (put_claim_fields fs r) (put_claim_fields gs s) hf.0 hg.0 e in
    let (tail, last) = fields-injective fs gs r s (omega arith) hf.1 hg.1 rest in
    (ap₂ ◌∷◌ head tail, last)

-- The fields up to the team, the fields behind the flags, and what the machine integers hold.
abbrev pub first_fields : Claim → List Bytes
first_fields c =
    c.context ∷ c.role ∷ c.local_endpoint ∷ c.remote_endpoint ∷ c.alpn ∷ c.nonce_self ∷ c.nonce_peer
    ∷ c.cd_hash ∷ c.team_id ∷ []

pub record IsClaim (c : Claim) : Type 0 where
  pub first_short : AreShort (first_fields c)
  pub last_short : AreShort (c.attest_key ∷ c.time ∷ [])
  pub flags_small : c.cs_flags < 2 ^ 32
  pub version_small : c.claim_version < 2 ^ 64

-- Two claims, with fields shorter than 2 ^ 64 bytes and machine integers, that have the same signed
-- bytes are equal: no field can borrow bytes of its neighbour.
pub signing_bytes-injective :
    (c d : Claim) → IsClaim c → IsClaim d → signing_bytes c ≡ signing_bytes d → c ≡ d
unfolding signing_bytes
signing_bytes-injective c d vc vd e =
    let (first, r1) =
      fields-injective (first_fields c) (first_fields d) _ _ refl vc.first_short vd.first_short e in
    let (flags, r2) =
      big_endian-injective c.cs_flags d.cs_flags _ _ vc.flags_small vd.flags_small r1 in
    let (bundled, r3) = cons-injective _ _ _ _ r2 in
    let (ephemeral, r4) = cons-injective _ _ _ _ r3 in
    let (last, r5) =
      fields-injective (c.attest_key ∷ c.time ∷ []) (d.attest_key ∷ d.time ∷ []) _ _ refl
        vc.last_short vd.last_short r4 in
    let version =
      uvarint-injective c.claim_version d.claim_version vc.version_small vd.version_small r5 in
    let b = bool_byte-injective c.bundled d.bundled bundled in
    let k = bool_byte-injective c.ephemeral_key d.ephemeral_key ephemeral in
    ground (arith, first, flags, b, k, last, version)
