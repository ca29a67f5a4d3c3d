-- ===== src/Dtrain/Frame/RoundTrip.antt =====
-- A frame on a stream reads back.
use mathlib.Core.List.{append_assoc}
use go_iroh_experiments.Base.{
  ℕ, ◌^◌, ◌≤◌, ◌<◌, ◌≡◌, refl, sym, some-injective, ap, ◌∙◌, true, List, [], ◌∷◌, ◌++◌, some, arith,
  length, length-append, take_append, drop_append, All, Bytes,
}
use go_iroh_experiments.Go.BigEndian.{big_endian, read-big_endian}
use go_iroh_experiments.Dtrain.Api.{Api, IsJson}
use go_iroh_experiments.Dtrain.Frame.{
  AllReduceFrame, ok, write_values, read_values, read_full, read_frame, read_vector, read_header,
  read_all_reduce, write_all_reduce, header_of, to_uint64, max_all_reduce_header,
  max_all_reduce_values,
}

read-write_values :
    (vs : List ℕ) (rest : Bytes)
    → All (λ v. v < 2 ^ 32) vs
    → read_values (length vs) (write_values vs ++ rest) ≡ ok (vs, rest)
unfolding read_values write_values
read-write_values [] rest h = refl
read-write_values (v ∷ vs) rest h =
    rw
      (
        append_assoc,
        read-big_endian 4 v (write_values vs ++ rest) (omega arith),
        read-write_values vs rest h.1,
      )
      refl

read_full-append : (h rest : Bytes) → read_full (length h) (h ++ rest) ≡ ok (h, rest)
unfolding read_full
read_full-append h rest =
    ground (arith, take_append h rest, drop_append h rest, length-append h rest)

-- What the writer of a frame keeps to: texts that JSON keeps, machine words, and the reader's bounds.
pub record IsFrame (api : Api) (f : AllReduceFrame) : Type 0 where
  pub group_text : api.is_utf8 f.group ≡ true
  pub from_text : api.is_utf8 f.from ≡ true
  pub seq_word : f.seq < 2 ^ 64
  pub op_byte : f.op < 256
  pub values_words : All (λ v. v < 2 ^ 32) f.values
  pub values_few : length f.values ≤ max_all_reduce_values

module _ (api : Api) (j : IsJson api) where
  read_vector-values :
      (f : AllReduceFrame) (rest : Bytes)
      → IsFrame api f
      → read_vector api
          (header_of api f)
          (big_endian 8 (length f.values) ++ (write_values f.values ++ rest))
        ≡ ok (f, rest)
  unfolding read_vector read_frame header_of to_uint64
  read_vector-values f rest v =
      rw
        (
          read-big_endian 8 (length f.values) (write_values f.values ++ rest)
              (omega (arith, v.values_few)),
          read_vector,
        )
        (ground (arith, v.values_few, read-write_values f.values rest v.values_words))

  read_header-marshal :
      (f : AllReduceFrame) (h rest : Bytes)
      → IsFrame api f
      → api.marshal_header (header_of api f) ≡ some h
      → read_header api
          (length h)
          (h ++ (big_endian 8 (length f.values) ++ (write_values f.values ++ rest)))
        ≡ ok (f, rest)
  unfolding read_header header_of
  read_header-marshal f h rest v e =
      rw
        (
          read_full-append h (big_endian 8 (length f.values) ++ (write_values f.values ++ rest)),
          read_header,
          j.unmarshal-header (header_of api f) h v.group_text v.from_text v.seq_word v.op_byte e,
        )
        (read_vector-values f rest v)

  write_all_reduce_lem :
      (f : AllReduceFrame) (h : Bytes)
      → api.marshal_header (header_of api f) ≡ some h
      → length h ≤ max_all_reduce_header
      → write_all_reduce api f
        ≡ some (
            big_endian 4 (length h)
            ++ (h ++ (big_endian 8 (length f.values) ++ write_values f.values)))
  unfolding write_all_reduce
  write_all_reduce_lem f h e small = rw (write_all_reduce, e) (ground arith)

  frame-append :
      (a h c d rest : Bytes) → (a ++ (h ++ (c ++ d))) ++ rest ≡ a ++ (h ++ (c ++ (d ++ rest)))
  frame-append a h c d rest = simp append_assoc

  read_all_reduce-frame :
      (f : AllReduceFrame) (h rest : Bytes)
      → IsFrame api f
      → api.marshal_header (header_of api f) ≡ some h
      → length h ≤ max_all_reduce_header
      → read_all_reduce api (
          big_endian 4 (length h)
          ++ (h ++ (big_endian 8 (length f.values) ++ (write_values f.values ++ rest))))
        ≡ ok (f, rest)
  unfolding read_all_reduce
  read_all_reduce-frame f h rest v e small =
      rw
        (
          read-big_endian 4 (length h)
              (h ++ (big_endian 8 (length f.values) ++ (write_values f.values ++ rest)))
              (omega arith),
          read_all_reduce,
        )
        (ground (arith, read_header-marshal f h rest v e))

  -- What `writeAllReduce` writes of a frame reads back as that frame, with what follows it left, if
  -- the header takes at most 64 KiB, the texts are valid UTF-8, the numbers fit their types, and
  -- the vector has at most 64 Mi values.
  pub read-write_all_reduce :
      (f : AllReduceFrame) (h b rest : Bytes)
      → IsFrame api f
      → api.marshal_header (header_of api f) ≡ some h
      → length h ≤ max_all_reduce_header
      → write_all_reduce api f ≡ some b
      → read_all_reduce api (b ++ rest) ≡ ok (f, rest)
  read-write_all_reduce f h b rest v e small w =
      let same = some-injective (sym w ∙ write_all_reduce_lem f h e small) in
      ap (λ (t : Bytes). read_all_reduce api (t ++ rest)) same
      ∙ ap (read_all_reduce api) (
          frame-append (big_endian 4 (length h)) h (big_endian 8 (length f.values))
            (write_values f.values) rest)
      ∙ read_all_reduce-frame f h rest v e small
