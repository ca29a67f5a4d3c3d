-- ===== src/Dtrain/Frame/Bounds.antt =====
-- What `readAllReduce` makes of a stream: its declared sizes are not trusted.
use go_iroh_experiments.Base.{
  ℕ, zero, suc, ◌+◌, ◌*◌, ◌≤◌, ◌<◌, ◌≡◌, ◌≢◌, inl, inr, refl, sym, ap, ◌∙◌, List, [], ◌∷◌, none,
  some, ltb, leb, ◌==◌, ==_iff, arith, length, take, drop, Bytes, Bool-cases, Option-cases,
}
use go_iroh_experiments.Go.BigEndian.{read_word}
use go_iroh_experiments.Dtrain.Api.{Api, AllReduceHeader}
use go_iroh_experiments.Dtrain.Frame.{
  AllReduceFrame, FrameError, Result, ok, err, ◌>>=◌, read_values, read_full, read_frame,
  read_vector, read_header, read_all_reduce, to_uint64, max_all_reduce_header,
  max_all_reduce_values, short_read, header_too_large, length_mismatch, vector_too_large,
  bad_header,
}

-- The stream starts with the length of a header that is not too long, and the header is there.
pub record HasHeader (s : Bytes) (header_bytes rest : Bytes) : Type 0 where
  pub n : ℕ
  pub behind : Bytes
  pub length_is : read_word 4 0 s ≡ some (n, behind)
  pub small : n ≤ max_all_reduce_header
  pub there : n ≤ length behind
  pub header_is : header_bytes ≡ take n behind
  pub rest_is : rest ≡ drop n behind

-- What is read of a stream, and where the reading stops.
pub data Reads (api : Api) (s : Bytes) : Result FrameError (AllReduceFrame × Bytes) → Type 0 where
  no_length : read_word 4 0 s ≡ none → Reads api s (err short_read)
  long_header :
      (n : ℕ) (behind : Bytes)
      → read_word 4 0 s ≡ some (n, behind)
      → max_all_reduce_header < n
      → Reads api s (err header_too_large)
  short_header :
      (n : ℕ) (behind : Bytes)
      → read_word 4 0 s ≡ some (n, behind)
      → n ≤ max_all_reduce_header
      → length behind < n
      → Reads api s (err short_read)
  unparsed :
      (h rest : Bytes)
      → HasHeader s h rest
      → api.unmarshal_header h ≡ none
      → Reads api s (err bad_header)
  no_vector_length :
      (h rest : Bytes) (header : AllReduceHeader)
      → HasHeader s h rest
      → api.unmarshal_header h ≡ some header
      → read_word 8 0 rest ≡ none
      → Reads api s (err short_read)
  mismatched :
      (h rest : Bytes) (header : AllReduceHeader) (n : ℕ) (behind : Bytes)
      → HasHeader s h rest
      → api.unmarshal_header h ≡ some header
      → read_word 8 0 rest ≡ some (n, behind)
      → n ≢ to_uint64 header.n
      → Reads api s (err length_mismatch)
  long_vector :
      (h rest : Bytes) (header : AllReduceHeader) (n : ℕ) (behind : Bytes)
      → HasHeader s h rest
      → api.unmarshal_header h ≡ some header
      → read_word 8 0 rest ≡ some (n, behind)
      → n ≡ to_uint64 header.n
      → max_all_reduce_values < n
      → Reads api s (err vector_too_large)
  short_vector :
      (h rest : Bytes) (header : AllReduceHeader) (n : ℕ) (behind : Bytes)
      → HasHeader s h rest
      → api.unmarshal_header h ≡ some header
      → read_word 8 0 rest ≡ some (n, behind)
      → n ≡ to_uint64 header.n
      → n ≤ max_all_reduce_values
      → length behind < 4 * n
      → Reads api s (err short_read)
  whole :
      (h rest : Bytes) (header : AllReduceHeader) (values : List ℕ) (behind left : Bytes)
      → HasHeader s h rest
      → api.unmarshal_header h ≡ some header
      → read_word 8 0 rest ≡ some (length values, behind)
      → length values ≡ to_uint64 header.n
      → length values ≤ max_all_reduce_values
      → length behind ≡ 4 * length values + length left
      → Reads api s (
          ok (
            record {
              group = header.group;
              seq = header.seq;
              op = header.op;
              from = header.from;
              values = values;
            },
            left,
          ))

length-read_word :
    (w acc : ℕ) (s : Bytes) {n : ℕ} {rest : Bytes}
    → read_word w acc s ≡ some (n, rest)
    → length s ≡ w + length rest
unfolding read_word
length-read_word zero acc s h = ground arith
length-read_word (suc w) acc [] h = cc
length-read_word (suc w) acc (b ∷ s) h = omega (arith, length-read_word w (acc * 256 + b) s h)

read_word-none : (w acc : ℕ) (s : Bytes) → read_word w acc s ≡ none → length s < w
unfolding read_word
read_word-none zero acc s h = absurd (ground arith)
read_word-none (suc w) acc [] h = omega arith
read_word-none (suc w) acc (b ∷ s) h = omega (arith, read_word-none w (acc * 256 + b) s h)

-- The values are all there, or the stream is too short for them.
data ReadsValues (n : ℕ) (s : Bytes) : Result FrameError (List ℕ × Bytes) → Type 0 where
  all_read :
      (vs : List ℕ) (left : Bytes)
      → length vs ≡ n
      → length s ≡ 4 * n + length left
      → ReadsValues n s (ok (vs, left))
  cut : length s < 4 * n → ReadsValues n s (err short_read)

next_value :
    (n bits : ℕ) (s rest : Bytes) {r : Result FrameError (List ℕ × Bytes)}
    → length s ≡ 4 + length rest
    → ReadsValues n rest r
    → ReadsValues (suc n) s (r >>= (λ (vs, left). ok (bits ∷ vs, left)))
next_value n bits s rest taken (all_read vs left count size) =
    all_read (bits ∷ vs) left (omega arith) (omega arith)
next_value n bits s rest taken (cut few) = cut (omega arith)

read_values-ReadsValues : (n : ℕ) (s : Bytes) → ReadsValues n s (read_values n s)
unfolding read_values
read_values-ReadsValues zero s = all_read [] s refl (omega arith)
read_values-ReadsValues (suc n) s = elim (Option-cases (read_word 4 0 s)) [
  | inl e ↦ rw (e, read_values) (cut (omega (arith, read_word-none 4 0 s e)))
  | inr ((bits, rest), e) ↦
      rw (e, read_values)
        (next_value n bits s rest (length-read_word 4 0 s e) (read_values-ReadsValues n rest))
]

module _ (api : Api) (s : Bytes) where
  module _ (h rest : Bytes) (header : AllReduceHeader) (there : HasHeader s h rest)
      (parsed : api.unmarshal_header h ≡ some header) where
    frame-Reads :
        (n : ℕ) (behind : Bytes) {r : Result FrameError (List ℕ × Bytes)}
        → read_word 8 0 rest ≡ some (n, behind)
        → n ≡ to_uint64 header.n
        → n ≤ max_all_reduce_values
        → ReadsValues n behind r
        → Reads api s (
            r >>= (λ (values, left). ok (
              record {
                group = header.group;
                seq = header.seq;
                op = header.op;
                from = header.from;
                values = values;
              },
              left,
            )))
    frame-Reads n behind word same few (all_read vs left count size) =
        whole h rest header vs behind left there parsed
          (word ∙ ap (λ (k : ℕ). some (k, behind)) (sym count)) (count ∙ same) (omega arith)
          (omega arith)
    frame-Reads n behind word same few (cut short) =
        short_vector h rest header n behind there parsed word same few short

    vector-Reads : Reads api s (read_vector api header rest)
    unfolding read_vector read_frame
    vector-Reads = elim (Option-cases (read_word 8 0 rest)) [
      | inl e ↦ rw (e, read_vector) (no_vector_length h rest header there parsed e)
      | inr ((n, behind), e) ↦ elim (Bool-cases (n == to_uint64 header.n)) [
        | inr other ↦
            rw (e, read_vector, other)
              (mismatched h rest header n behind there parsed e
                (λ t. ground (arith, ==_iff n (to_uint64 header.n))))
        | inl same ↦
            let is : n ≡ to_uint64 header.n = (==_iff n (to_uint64 header.n)).0 same in
            elim (Bool-cases (ltb max_all_reduce_values n)) [
              | inl more ↦
                  rw (e, read_vector, same, more)
                    (long_vector h rest header n behind there parsed e is (ground arith))
              | inr few ↦
                  rw (e, read_vector, same, few)
                    (frame-Reads n behind e is (ground arith) (read_values-ReadsValues n behind))
            ]
      ]
    ]

  header-Reads :
      (n : ℕ) (behind : Bytes)
      → read_word 4 0 s ≡ some (n, behind)
      → n ≤ max_all_reduce_header
      → Reads api s (read_header api n behind)
  unfolding read_header read_full
  header-Reads n behind e small = elim (Bool-cases (leb n (length behind))) [
    | inr short ↦ rw (read_header, short) (short_header n behind e small (ground arith))
    | inl long ↦
        let there : HasHeader s (take n behind) (drop n behind) = record {
          n = n;
          behind = behind;
          length_is = e;
          small = small;
          there = ground arith;
          header_is = refl;
          rest_is = refl;
        } in
        elim (Option-cases (api.unmarshal_header (take n behind))) [
          | inl p ↦ rw (read_header, long, p) (unparsed (take n behind) (drop n behind) there p)
          | inr (header, p) ↦
              rw (read_header, long, p)
                (vector-Reads (take n behind) (drop n behind) header there p)
        ]
  ]

  -- What `readAllReduce` makes of any stream. A header that is declared longer than 64 KiB is refused
  -- by its length alone, and a vector of more than 64 Mi values by its length alone, whatever
  -- follows in the stream or is missing there; a vector whose length is not the header's is
  -- refused too. A stream that ends before what it declares is short. Otherwise the frame is read, with
  -- the fields of its header and as many values as declared, and the stream is left 4 bytes for each
  -- value behind the vector's length.
  pub read_all_reduce-Reads : Reads api s (read_all_reduce api s)
  unfolding read_all_reduce
  read_all_reduce-Reads = elim (Option-cases (read_word 4 0 s)) [
    | inl e ↦ rw (e, read_all_reduce) (no_length e)
    | inr ((n, behind), e) ↦ elim (Bool-cases (ltb max_all_reduce_header n)) [
      | inl more ↦ rw (e, read_all_reduce, more) (long_header n behind e (ground arith))
      | inr few ↦ rw (e, read_all_reduce, few) (header-Reads n behind e (ground arith))
    ]
  ]
