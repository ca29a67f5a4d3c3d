-- ===== src/Dtrain/Tests.antt =====
-- The dtrain theorems at small groups, with small functions in place of the packages.
pub mod Groups
mod Streams
use mathlib.Core.List.{append_assoc, append-nil}
use go_iroh_experiments.Base.{
  ℕ, zero, suc, ◌+◌, ◌*◌, ◌/◌, ◌%◌, ◌^◌, ◌≤◌, ◌<◌, ◌≡◌, refl, sym, ap, ◌∙◌, Bool, true, false, ◌&&◌,
  List, [], ◌∷◌, ◌++◌, Option, none, some, some-injective, inl, inr, ltb, arith, if◌then◌else◌,
  length, Bytes, Bool-cases, codes, equal,
}
use go_iroh_experiments.Base.Dict.{lookup, insert}
use go_iroh_experiments.Go.BigEndian.{big_endian, read_word}
use go_iroh_experiments.Go.Int.{ℤ, pos, negsuc}
use go_iroh_experiments.Go.Strings.{str_ltb}
use go_iroh_experiments.Go.Uvarint.{
  uvarint, put_uvarint, get_uvarint, read_uvarint, put_field, get_field, get-uvarint, get-put_field,
}
use go_iroh_experiments.Dtrain.Api.{Api, AllReduceHeader, Announcement, IsJson}
use go_iroh_experiments.Dtrain.Frame.{
  AllReduceFrame, ok, err, write_all_reduce, read_all_reduce, header_of, write_values, to_uint64,
  read_header, read_vector, read_frame, read_full, read_values,
}
use go_iroh_experiments.Dtrain.Frame.RoundTrip.{IsFrame, read-write_all_reduce}
use go_iroh_experiments.Dtrain.Frame.Bounds.{Reads, read_all_reduce-Reads}

abbrev pub put_header : AllReduceHeader → ℕ → Bytes
put_header h n =
    put_field h.group ++ (uvarint h.seq ++ (uvarint h.op ++ (put_field h.from ++ uvarint n)))

-- A header whose number and texts fit 64 bits.
abbrev pub marshal_header : AllReduceHeader → Option Bytes
marshal_header h = elim h.n [
  | negsuc n ↦ none
  | pos n ↦
      if ltb n (2 ^ 64) && (ltb (length h.group) (2 ^ 64) && ltb (length h.from) (2 ^ 64))
      then some (put_header h n)
      else none
]

abbrev pub from_fields : Bytes → Option AllReduceHeader
from_fields s = elim (get_field s) [
  | none ↦ none
  | some (group, s1) ↦ elim (get_uvarint s1) [
    | none ↦ none
    | some (seq, s2) ↦ elim (get_uvarint s2) [
      | none ↦ none
      | some (op, s3) ↦ elim (get_field s3) [
        | none ↦ none
        | some (from, s4) ↦ elim (get_uvarint s4) [
          | none ↦ none
          | some (n, s5) ↦
              some (record { group = group; seq = seq; op = op; from = from; n = pos n })
        ]
      ]
    ]
  ]
]

abbrev pub unmarshal_join : Bytes → Option Announcement
unmarshal_join [] = none
unmarshal_join (c ∷ id) = some (record { type = codes "dtrain.join"; id = id; addrs = [] })

abbrev pub test_api : Api
test_api = record {
  id_string = λ id. id;
  parse_id = λ s. some s;
  is_zero = λ id. equal id [];
  new_addr = λ id. id;
  addr_is_empty = λ a. equal a [];
  addr_strings = λ a. a ∷ [];
  parse_transport = λ s. some s;
  with_addr = λ a t. a ++ t;
  add = λ a b. a + b;
  quotient = λ a b. a / b;
  gt = λ a b. ltb b a;
  of_int = λ n. n;
  to_int = λ n. pos n;
  marshal_announcement = λ a. some (b'j' ∷ a.id);
  unmarshal_announcement = unmarshal_join;
  marshal_broadcast = λ b. some b.payload;
  unmarshal_broadcast = λ s. none;
  marshal_header = marshal_header;
  unmarshal_header = from_fields;
  is_utf8 = λ s. true;
}

fields-read :
    (h : AllReduceHeader) (n : ℕ)
    → length h.group < 2 ^ 64
    → length h.from < 2 ^ 64
    → h.seq < 2 ^ 64
    → h.op < 256
    → n < 2 ^ 64
    → from_fields (put_header h n)
      ≡ some (record { group = h.group; seq = h.seq; op = h.op; from = h.from; n = pos n })
fields-read h n g f s o small =
    let last : get_uvarint (uvarint n) ≡ some (n, []) =
      ap get_uvarint (sym (append-nil (uvarint n))) ∙ get-uvarint n [] small in
    rw
      (
        from_fields,
        get-put_field h.group (uvarint h.seq ++ (uvarint h.op ++ (put_field h.from ++ uvarint n)))
            g,
        get-uvarint h.seq (uvarint h.op ++ (put_field h.from ++ uvarint n)) s,
        get-uvarint h.op (put_field h.from ++ uvarint n) (omega (arith, o)),
        get-put_field h.from (uvarint n) f,
        last,
      )
      refl

marshaled-reads :
    (group from : Bytes) (seq op : ℕ) (n : ℤ) (b : Bytes)
    → seq < 2 ^ 64
    → op < 256
    → marshal_header (record { group = group; seq = seq; op = op; from = from; n = n }) ≡ some b
    → from_fields b ≡ some (record { group = group; seq = seq; op = op; from = from; n = n })
marshaled-reads group from seq op (negsuc n) b s o e = absurd (ground arith)
marshaled-reads group from seq op (pos n) b s o e =
    let h : AllReduceHeader = record {
      group = group;
      seq = seq;
      op = op;
      from = from;
      n = pos n;
    } in
    elim (Bool-cases
      (ltb n (2 ^ 64) && (ltb (length group) (2 ^ 64) && ltb (length from) (2 ^ 64)))) [
        | inr large ↦ absurd (ground arith)
        | inl small ↦
            let same : put_header h n ≡ b = some-injective (rw (small, marshal_header) at e) in
            ap from_fields (sym same)
            ∙ fields-read h n (ground arith) (ground arith) s o (ground arith)
      ]

test_api-IsJson : IsJson test_api
test_api-IsJson = record {
  unmarshal-header = λ h b g f s o e. marshaled-reads h.group h.from h.seq h.op h.n b s o e;
}

abbrev pub frame : ℕ → Bytes → List ℕ → AllReduceFrame
frame seq from values = record {
  group = codes "g";
  seq = seq;
  op = 0;
  from = from;
  values = values;
}

abbrev pub written : Bytes → List ℕ → Bytes
written from values = elim (write_all_reduce test_api (frame 1 from values)) [
  | none ↦ []
  | some b ↦ b
]

frame-IsFrame : IsFrame test_api (frame 1 (codes "b") (3 ∷ 4 ∷ []))
frame-IsFrame = record {
  group_text = refl;
  from_text = refl;
  seq_word = omega arith;
  op_byte = omega arith;
  values_words = omega arith;
  values_few = omega arith;
}

frame_read :
    read_all_reduce test_api (written (codes "b") (3 ∷ 4 ∷ []) ++ (7 ∷ []))
    ≡ ok (frame 1 (codes "b") (3 ∷ 4 ∷ []), 7 ∷ [])
unfolding read_all_reduce read_header read_vector read_frame read_full read_values write_all_reduce
    header_of put_field get_field uvarint put_uvarint get_uvarint read_uvarint big_endian read_word
    write_values to_uint64
frame_read = refl

read-write_all_reduce_example :
    read_all_reduce test_api (written (codes "b") (3 ∷ 4 ∷ []) ++ (7 ∷ []))
    ≡ ok (frame 1 (codes "b") (3 ∷ 4 ∷ []), 7 ∷ [])
unfolding write_all_reduce header_of put_field uvarint put_uvarint big_endian write_values
read-write_all_reduce_example =
    read-write_all_reduce test_api test_api-IsJson (frame 1 (codes "b") (3 ∷ 4 ∷ []))
      (put_header (header_of test_api (frame 1 (codes "b") (3 ∷ 4 ∷ []))) 2)
      (written (codes "b") (3 ∷ 4 ∷ [])) (7 ∷ []) frame-IsFrame refl (omega arith) refl

read_all_reduce-Reads_example :
    Reads test_api
      (written (codes "b") (3 ∷ 4 ∷ []) ++ (7 ∷ []))
      (read_all_reduce test_api (written (codes "b") (3 ∷ 4 ∷ []) ++ (7 ∷ [])))
read_all_reduce-Reads_example =
    read_all_reduce-Reads test_api (written (codes "b") (3 ∷ 4 ∷ []) ++ (7 ∷ []))
