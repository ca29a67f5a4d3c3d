-- ===== src/Dagsync/Protocol/RoundTrip.antt =====
-- What the receiver of a request selects is what its sender selected.
use mathlib.Core.List.{append_assoc}
use go_iroh_experiments.Base.{
  ℕ, ◌<◌, ◌≡◌, refl, ap, ◌∙◌, subst, Bool, true, false, List, [], ◌∷◌, ◌++◌, Option, none, some,
  arith, Bytes,
}
use go_iroh_experiments.Dagsync.Api.{Api, IsPostcard}
use go_iroh_experiments.Dagsync.Protocol.{
  TraversalFilter, encode_filter, decode_filter, filter_of_tag, include_cid,
}

-- A list of codecs to exclude is not an empty slice, which reads back as postcard chooses.
abbrev pub IsNonempty : Option (List ℕ) → Type 0
IsNonempty none = Unit
IsNonempty (some []) = ⊥
IsNonempty (some (n ∷ ns)) = Unit

module _ (api : Api) (p : IsPostcard api) where
  decode_filter-tag :
      (tag : ℕ) (rest : Bytes)
      → tag < 128
      → decode_filter api (api.put_uint tag ++ rest) ≡ filter_of_tag api tag rest
  unfolding decode_filter
  decode_filter-tag tag rest h = rw (p.get-put_uint tag rest (omega arith)) refl

  decode_filter-exclude :
      (n : ℕ) (ns : List ℕ) (rest : Bytes)
      → decode_filter api ((api.put_uint 3 ++ api.put_uints (n ∷ ns)) ++ rest)
        ≡ some (
          record { all = false; no_raw = false; just_raw = false; exclude = some (n ∷ ns) },
          rest,
        )
  unfolding filter_of_tag
  decode_filter-exclude n ns rest =
      ap (decode_filter api) (append_assoc (api.put_uint 3) (api.put_uints (n ∷ ns)) rest)
      ∙ decode_filter-tag 3 (api.put_uints (n ∷ ns) ++ rest) (omega arith)
      ∙ rw (p.get-put_uints n ns rest) refl

  some-injective : (b c : Bytes) → ◌≡◌ {A = Option Bytes} (some b) (some c) → b ≡ c
  some-injective b c h = ground arith

  abbrev ReadsAs : TraversalFilter → Bytes → Bytes → Type 0
  ReadsAs f b rest =
      (g : TraversalFilter) × (decode_filter api (b ++ rest) ≡ some (g, rest))
      × ((c : Bytes) → include_cid api g c ≡ include_cid api f c)

  fields-ReadsAs :
      (all no_raw just_raw : Bool) (exclude : Option (List ℕ)) (b rest : Bytes)
      → IsNonempty exclude
      → encode_filter api
          (record { all = all; no_raw = no_raw; just_raw = just_raw; exclude = exclude })
        ≡ some b
      → ReadsAs
          (record { all = all; no_raw = no_raw; just_raw = just_raw; exclude = exclude })
          b
          rest
  unfolding encode_filter filter_of_tag include_cid
  fields-ReadsAs true n j x b rest h e =
      subst
        (λ (t : Bytes).
          ReadsAs (record { all = true; no_raw = n; just_raw = j; exclude = x }) t rest)
        (some-injective _ b e) (_, decode_filter-tag 0 rest (omega arith), λ c. refl)
  fields-ReadsAs false true j x b rest h e =
      subst
        (λ (t : Bytes).
          ReadsAs (record { all = false; no_raw = true; just_raw = j; exclude = x }) t rest)
        (some-injective _ b e) (_, decode_filter-tag 1 rest (omega arith), λ c. refl)
  fields-ReadsAs false false true x b rest h e =
      subst
        (λ (t : Bytes).
          ReadsAs (record { all = false; no_raw = false; just_raw = true; exclude = x }) t rest)
        (some-injective _ b e) (_, decode_filter-tag 2 rest (omega arith), λ c. refl)
  fields-ReadsAs false false false none b rest h e = absurd (ground arith)
  fields-ReadsAs false false false (some []) b rest h e = absurd h
  fields-ReadsAs false false false (some (n ∷ ns)) b rest h e =
      subst
        (λ (t : Bytes).
          ReadsAs
            (record { all = false; no_raw = false; just_raw = false; exclude = some (n ∷ ns) }) t
            rest)
        (some-injective _ b e) (_, decode_filter-exclude n ns rest, λ c. refl)

  -- A filter that encodes decodes, the rest of the bytes is left, and the decoded filter
  -- includes the same CIDs.
  pub decode-encode_filter :
      (f : TraversalFilter) (b rest : Bytes)
      → IsNonempty f.exclude
      → encode_filter api f ≡ some b
      → (g : TraversalFilter) × (decode_filter api (b ++ rest) ≡ some (g, rest))
        × ((c : Bytes) → include_cid api g c ≡ include_cid api f c)
  decode-encode_filter f b rest h e = fields-ReadsAs f.all f.no_raw f.just_raw f.exclude b rest h e
