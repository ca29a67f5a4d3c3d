-- ===== src/X402/Scheme/Signed.antt =====
-- The signed bytes determine the authorization, and a signature made here verifies.
use mathlib.Core.List.{append_assoc, append-nil}
use go_iroh_experiments.Base.{
  ◌^◌, ◌<◌, ◌≡◌, refl, sym, ap, ◌∙◌, List, [], ◌∷◌, ◌++◌, Option, some, arith, length, All, Bytes,
}
use go_iroh_experiments.Go.Uvarint.{put_field, uvarint, get_field, get-put_field}
use go_iroh_experiments.Go.Hex.{hex_encode, hex_decode-hex_encode}
use go_iroh_experiments.Go.Strings.{trim_0x}
use go_iroh_experiments.X402.Api.{Api, IsLawful, Authorization}
use go_iroh_experiments.X402.Scheme.{
  append_fields, signed_fields, signing_message, sign_authorization, signed_by,
  verify_authorization,
}

-- The fields with no accumulator.
abbrev put_fields : List Bytes → Bytes
put_fields [] = []
put_fields (f ∷ fs) = put_field f ++ put_fields fs

append_fields-put_fields : (fs : List Bytes) (b : Bytes) → append_fields b fs ≡ b ++ put_fields fs
unfolding append_fields put_field
append_fields-put_fields [] b = sym (append-nil b)
append_fields-put_fields (f ∷ fs) b =
    append_fields-put_fields fs ((b ++ uvarint (length f)) ++ f) ∙ simp append_assoc

abbrev AreShort : List Bytes → Type 0
AreShort = All (λ f. length f < 2 ^ 64)

put_fields-injective :
    (fs gs : List Bytes)
    → AreShort fs
    → AreShort gs
    → length fs ≡ length gs
    → put_fields fs ≡ put_fields gs
    → fs ≡ gs
put_fields-injective [] [] hf hg n e = refl
put_fields-injective [] (g ∷ gs) hf hg n e = absurd (omega arith)
put_fields-injective (f ∷ fs) [] hf hg n e = absurd (omega arith)
put_fields-injective (f ∷ fs) (g ∷ gs) hf hg n e =
    let same : ◌≡◌ {A = Option (Bytes × Bytes)} (some (f, put_fields fs))
        (some (g, put_fields gs)) =
      sym (get-put_field f (put_fields fs) hf.0)
      ∙ ap get_field e
      ∙ get-put_field g (put_fields gs) hg.0 in
    ground (arith, put_fields-injective fs gs hf.1 hg.1)

-- No field can borrow bytes of its neighbour: if two networks and authorizations, with fields that
-- are shorter than 2 ^ 64 bytes, have the same signing message, they are equal.
pub signing_message-injective :
    (net net' : Bytes) (a b : Authorization)
    → AreShort (signed_fields net a)
    → AreShort (signed_fields net' b)
    → signing_message net a ≡ signing_message net' b
    → (net ≡ net') × (a ≡ b)
unfolding signing_message
signing_message-injective net net' a b ha hb e =
    let fields : signed_fields net a ≡ signed_fields net' b = put_fields-injective _ _ ha hb refl (
      sym (append_fields-put_fields _ [])
      ∙ e
      ∙ append_fields-put_fields (signed_fields net' b) []) in
    ground arith

trim_0x-prefixed : (s : Bytes) → trim_0x (b'0' ∷ b'x' ∷ s) ≡ s
unfolding trim_0x
trim_0x-prefixed s = refl

-- A payload that `SignAuthorization` signed with the secret key, of 32 bytes, of its `From` endpoint verifies as that
-- endpoint's.
pub verify-sign_authorization :
    (api : Api) (sk net : Bytes) (a : Authorization)
    → IsLawful api
    → length sk ≡ 32
    → a.from ≡ api.id_string (api.public_id sk)
    → verify_authorization api net
        (record { signature = sign_authorization api sk net a; authorization = a })
      ≡ signed_by (api.public_id sk)
unfolding verify_authorization sign_authorization
verify-sign_authorization api sk net a law size e = ground (
  arith,
  law.parse-public sk size,
  trim_0x-prefixed (hex_encode (api.sign sk (signing_message net a))),
  hex_decode-hex_encode (api.sign sk (signing_message net a))
      (law.sign-AreBytes sk (signing_message net a) size),
  law.from-sign sk (signing_message net a) size,
  law.verify-sign sk (signing_message net a) size,
)
