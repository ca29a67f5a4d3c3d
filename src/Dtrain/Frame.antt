-- ===== src/Dtrain/Frame.antt =====
-- dtrain/group.go: the frames of a collective on a stream, writeAllReduce and readAllReduce.
pub mod RoundTrip
pub mod Bounds
use go_iroh_experiments.Base.{
  ℕ, zero, suc, ◌+◌, ◌-◌, ◌*◌, ◌^◌, ◌≡◌, ◌⊎◌, refl, inl, inr, not, List, [], ◌∷◌, ◌++◌, Option,
  none, some, ltb, leb, ◌==◌, if◌then◌else◌, length, take, drop, Bytes,
}
use go_iroh_experiments.Go.BigEndian.{big_endian, read_word}
use go_iroh_experiments.Go.Int.{ℤ, pos, negsuc}
use go_iroh_experiments.Dtrain.Api.{Api, AllReduceHeader}

-- `allReduceFrame`; a value is the bits of a float32.
pub record AllReduceFrame : Type 0 where
  pub group : Bytes
  pub seq : ℕ
  pub op : ℕ
  pub from : Bytes
  pub values : List ℕ

pub data FrameError : Type 0 where
  short_read header_too_large bad_header length_mismatch vector_too_large : FrameError

pub data Result {ℓ} (E : Type 0) (A : Type ℓ) : Type ℓ where
  ok : A → Result E A
  err : E → Result E A

infixl 5 ◌>>=◌
abbrev pub ◌>>=◌ {ℓ κ} :
    {E : Type 0} {A : Type ℓ} {B : Type κ} → Result E A → (A → Result E B) → Result E B
ok a >>= f = f a
err e >>= f = err e

pub Result-cases {ℓ} :
    {E : Type 0} {A : Type ℓ} (r : Result E A) → ((a : A) × (r ≡ ok a)) ⊎ ((e : E) × (r ≡ err e))
Result-cases (ok a) = inl (a, refl)
Result-cases (err e) = inr (e, refl)

abbrev pub from_option {ℓ} : {E : Type 0} {A : Type ℓ} → E → Option A → Result E A
from_option e none = err e
from_option e (some a) = ok a

abbrev pub max_all_reduce_header : ℕ
max_all_reduce_header = 65536

abbrev pub max_all_reduce_values : ℕ
max_all_reduce_values = 67108864

-- `uint64(n)` of an int
unfoldable pub to_uint64 : ℤ → ℕ
to_uint64 (pos n) = n
to_uint64 (negsuc n) = 2 ^ 64 - 1 - n

unfoldable pub write_values : List ℕ → Bytes
write_values [] = []
write_values (v ∷ vs) = big_endian 4 v ++ write_values vs

unfoldable pub read_values : ℕ → Bytes → Result FrameError (List ℕ × Bytes)
read_values zero s = ok ([], s)
read_values (suc n) s = do
  (bits, s1) ← from_option short_read (read_word 4 0 s)
  (vs, s2) ← read_values n s1
  ok (bits ∷ vs, s2)

-- `io.ReadFull` into `n` bytes
unfoldable pub read_full : ℕ → Bytes → Result FrameError (Bytes × Bytes)
read_full n s = if leb n (length s) then ok (take n s, drop n s) else err short_read

module _ (api : Api) where
  -- `allReduceHeader` of a frame
  unfoldable pub header_of : AllReduceFrame → AllReduceHeader
  header_of f = record {
    group = f.group;
    seq = f.seq;
    op = f.op;
    from = f.from;
    n = pos (length f.values);
  }

  -- The bytes written; `none` where the header cannot be encoded.
  unfoldable pub write_all_reduce : AllReduceFrame → Option Bytes
  unfolding header_of
  write_all_reduce f = elim (api.marshal_header (header_of f)) [
    | none ↦ none
    | some h ↦
        if ltb (2 ^ 32 - 1) (length h)
        then none
        else some (
            big_endian 4 (length h)
            ++ (h ++ (big_endian 8 (length f.values) ++ write_values f.values)))
  ]

  -- The values, and the frame of a header with them.
  unfoldable pub read_frame :
      AllReduceHeader → ℕ → Bytes → Result FrameError (AllReduceFrame × Bytes)
  read_frame header vector_len s = do
    (values, s2) ← read_values vector_len s
    ok (
      record {
        group = header.group;
        seq = header.seq;
        op = header.op;
        from = header.from;
        values = values;
      },
      s2,
    )

  -- The part behind the header.
  unfoldable pub read_vector : AllReduceHeader → Bytes → Result FrameError (AllReduceFrame × Bytes)
  read_vector header s = do
    (vector_len, s1) ← from_option short_read (read_word 8 0 s)
    if not (vector_len == to_uint64 header.n)
        then err length_mismatch
        else if ltb max_all_reduce_values vector_len
        then err vector_too_large
        else read_frame header vector_len s1

  -- The header of `n` bytes, and what follows it.
  unfoldable pub read_header : ℕ → Bytes → Result FrameError (AllReduceFrame × Bytes)
  read_header n s = do
    (h, s2) ← read_full n s
    header ← from_option bad_header (api.unmarshal_header h)
    read_vector header s2

  unfoldable pub read_all_reduce : Bytes → Result FrameError (AllReduceFrame × Bytes)
  read_all_reduce s = do
    (n, s1) ← from_option short_read (read_word 4 0 s)
    if ltb max_all_reduce_header n then err header_too_large else read_header n s1
