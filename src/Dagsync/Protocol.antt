-- ===== src/Dagsync/Protocol.antt =====
-- dagsync/protocol.go: the options of a request and the header of a response on the wire.
pub mod RoundTrip
use go_iroh_experiments.Base.{
  ℕ, ◌+◌, Bool, true, false, not, ◌&&◌, ◌||◌, List, [], ◌∷◌, ◌++◌, Option, none, some, ltb, leb,
  ◌==◌, if◌then◌else◌, ◌>>=◌, length, take, drop, Bytes,
}
use go_iroh_experiments.Dagsync.Api.{Api}

-- `exclude` is `none` for a nil slice.
pub record TraversalFilter : Type 0 where
  pub all : Bool
  pub no_raw : Bool
  pub just_raw : Bool
  pub exclude : Option (List ℕ)

pub record InlineOpts : Type 0 where
  pub all : Bool
  pub no_raw : Bool
  pub exclude : Option (List ℕ)
  pub none_inline : Bool

abbrev pub empty_filter : TraversalFilter
empty_filter = record { all = false; no_raw = false; just_raw = false; exclude = none }

abbrev pub filter_all : TraversalFilter
filter_all = record { all = true; no_raw = false; just_raw = false; exclude = none }

abbrev pub empty_inline : InlineOpts
empty_inline = record { all = false; no_raw = false; exclude = none; none_inline = false }

pub record SyncResponseHeader : Type 0 where
  pub hash : Option Bytes
  pub data_hash : Option Bytes

-- Is the codec one of the list?
unfoldable pub is_codec : ℕ → List ℕ → Bool
is_codec t [] = false
is_codec t (codec ∷ codecs) = if t == codec then true else is_codec t codecs

module _ (api : Api) where
  unfoldable pub encode_filter : TraversalFilter → Option Bytes
  encode_filter f =
      if f.all
      then some (api.put_uint 0)
      else if f.no_raw
      then some (api.put_uint 1)
      else if f.just_raw
      then some (api.put_uint 2)
      else elim f.exclude [
        | none ↦ none
        | some codecs ↦ some (api.put_uint 3 ++ api.put_uints codecs)
      ]

  unfoldable pub filter_of_tag : ℕ → Bytes → Option (TraversalFilter × Bytes)
  filter_of_tag tag rest =
      if tag == 0
      then some (filter_all, rest)
      else if tag == 1
      then some (record { all = false; no_raw = true; just_raw = false; exclude = none }, rest)
      else if tag == 2
      then some (record { all = false; no_raw = false; just_raw = true; exclude = none }, rest)
      else if tag == 3
      then elim (api.get_uints rest) [
        | none ↦ none
        | some (codecs, rest2) ↦
            some (record { all = false; no_raw = false; just_raw = false; exclude = codecs }, rest2)
      ]
      else none

  unfoldable pub decode_filter : Bytes → Option (TraversalFilter × Bytes)
  decode_filter s = do (tag, rest) ← api.get_uint s; filter_of_tag tag rest

  unfoldable pub encode_inline : InlineOpts → Option Bytes
  encode_inline i =
      if i.all
      then some (api.put_uint 0)
      else if i.no_raw
      then some (api.put_uint 1)
      else elim i.exclude [
        | none ↦ if i.none_inline then some (api.put_uint 3) else none
        | some codecs ↦ some (api.put_uint 2 ++ api.put_uints codecs)
      ]

  unfoldable pub inline_of_tag : ℕ → Bytes → Option (InlineOpts × Bytes)
  inline_of_tag tag rest =
      if tag == 0
      then some (record { all = true; no_raw = false; exclude = none; none_inline = false }, rest)
      else if tag == 1
      then some (record { all = false; no_raw = true; exclude = none; none_inline = false }, rest)
      else if tag == 2
      then elim (api.get_uints rest) [
        | none ↦ none
        | some (codecs, rest2) ↦
            some
              (record { all = false; no_raw = false; exclude = codecs; none_inline = false }, rest2)
      ]
      else if tag == 3
      then some (record { all = false; no_raw = false; exclude = none; none_inline = true }, rest)
      else none

  unfoldable pub decode_inline : Bytes → Option (InlineOpts × Bytes)
  decode_inline s = do (tag, rest) ← api.get_uint s; inline_of_tag tag rest

  unfoldable pub encode_header : SyncResponseHeader → Option Bytes
  encode_header h = elim h.hash [
    | some x ↦ some (api.put_uint 0 ++ x)
    | none ↦ elim h.data_hash [ none ↦ none | some x ↦ some (api.put_uint 1 ++ x) ]
  ]

  unfoldable pub header_of_tag : ℕ → Bytes → Option SyncResponseHeader
  header_of_tag tag hash =
      if tag == 0
      then some (record { hash = some hash; data_hash = none })
      else if tag == 1
      then some (record { hash = none; data_hash = some hash })
      else none

  -- `decodeHeader`: the tag, the 32 bytes of the hash, and nothing behind them.
  unfoldable pub decode_header : Bytes → Option SyncResponseHeader
  decode_header s = do
    (tag, rest) ← api.get_uint s
    if length rest == 32 then header_of_tag tag rest else none

  -- `SyncResponseHeader.Bytes`
  unfoldable pub header_bytes : SyncResponseHeader → Option Bytes
  header_bytes h = do b ← encode_header h; if length b == 33 then some b else none

  -- `inlinePredicate`
  unfoldable pub inline_predicate : InlineOpts → Bytes → Bool
  inline_predicate opts c =
      if opts.all
      then true
      else if opts.no_raw
      then not (api.cid_type c == api.raw)
      else elim opts.exclude [ none ↦ false | some codecs ↦ not (is_codec (api.cid_type c) codecs) ]

  -- `includeCID`
  unfoldable pub include_cid : TraversalFilter → Bytes → Bool
  include_cid filter c =
      if filter.all
      then true
      else if filter.no_raw
      then not (api.cid_type c == api.raw)
      else if filter.just_raw
      then api.cid_type c == api.raw
      else elim filter.exclude [
        | none ↦ true
        | some codecs ↦ not (is_codec (api.cid_type c) codecs)
      ]
