-- ===== src/Discovery/Protocol.antt =====
-- contentdiscovery/protocol.go: the announce and its wire form.
use mathlib.Core.List.{append_assoc}
use go_iroh_experiments.Base.{
  ℕ, ◌%◌, ◌^◌, ◌<◌, ◌≡◌, refl, ap, ◌∙◌, subst, Bool, ◌++◌, Option, none, some, leb, if◌then◌else◌,
  ◌>>=◌, arith, length, take, drop, take_append, drop_append, length-append, Bytes,
}
use go_iroh_experiments.Discovery.Api.{Content, Api, IsPostcard}

-- `kind` is a uint32, `timestamp` a uint64 of microseconds.
pub record Announce : Type 0 where
  pub host : Bytes
  pub content : Content
  pub kind : ℕ
  pub timestamp : ℕ

abbrev pub announce_complete : ℕ
announce_complete = 1

pub record SignedAnnounce : Type 0 where
  pub announce : Announce
  pub signature : Bytes

pub record QueryFlags : Type 0 where
  pub complete : Bool
  pub verified : Bool

pub record Query : Type 0 where
  pub content : Content
  pub flags : QueryFlags

module _ (api : Api) where
  -- `Announce.EncodePostcard`
  unfoldable pub encode_announce : Announce → Bytes
  encode_announce a =
      a.host ++ (api.put_content a.content ++ (api.put_uint a.kind ++ api.put_uint a.timestamp))

  unfoldable pub raw_host : Bytes → Option (Bytes × Bytes)
  raw_host s = if leb 32 (length s) then some (take 32 s, drop 32 s) else none

  -- `Announce.DecodePostcard`; the kind keeps its low 32 bits.
  unfoldable pub decode_announce : Bytes → Option (Announce × Bytes)
  decode_announce s = do
    (key, s1) ← raw_host s
    host ← api.public_key key
    (content, s2) ← api.get_content s1
    (kind, s3) ← api.get_uint s2
    (timestamp, s4) ← api.get_uint s3
    some
        (record { host = host; content = content; kind = kind % 2 ^ 32; timestamp = timestamp }, s4)

  -- What an announce's fields hold: a public key of 32 bytes, and machine integers.
  pub record IsAnnounce (a : Announce) : Type 0 where
    pub host_size : length a.host ≡ 32
    pub host_key : api.public_key a.host ≡ some a.host
    pub kind_small : a.kind < 2 ^ 32
    pub timestamp_small : a.timestamp < 2 ^ 64

  raw_host-append : (h rest : Bytes) → length h ≡ 32 → raw_host (h ++ rest) ≡ some (h, rest)
  unfolding raw_host
  raw_host-append h rest size =
      let t = subst (λ n. take n (h ++ rest) ≡ h) size (take_append h rest) in
      let d = subst (λ n. drop n (h ++ rest) ≡ rest) size (drop_append h rest) in
      ground (arith, size, t, d, length-append h rest)

  kind_of : (k : ℕ) → k < 2 ^ 32 → k % 2 ^ 32 ≡ k
  kind_of k small = omega arith

  encoded-append :
      (a : Announce) (rest : Bytes)
      → encode_announce a ++ rest
        ≡ a.host
          ++ (api.put_content a.content
              ++ (api.put_uint a.kind ++ (api.put_uint a.timestamp ++ rest)))
  unfolding encode_announce
  encoded-append a rest =
      append_assoc a.host _ rest
      ∙ ap (◌++◌ a.host) (
          append_assoc (api.put_content a.content) _ rest
          ∙ ap (◌++◌ (api.put_content a.content)) (append_assoc (api.put_uint a.kind) _ rest))

  -- An announce on the wire reads back as it was, with what follows it left.
  pub decode-encode_announce :
      (p : IsPostcard api) (a : Announce) (rest : Bytes)
      → IsAnnounce a
      → decode_announce (encode_announce a ++ rest) ≡ some (a, rest)
  unfolding decode_announce
  decode-encode_announce p a rest v =
      ap decode_announce (encoded-append a rest)
      ∙ rw
          (
            decode_announce,
            raw_host-append a.host
                (api.put_content a.content
                  ++ (api.put_uint a.kind ++ (api.put_uint a.timestamp ++ rest)))
                v.host_size,
            v.host_key,
            p.get-put_content a.content (api.put_uint a.kind ++ (api.put_uint a.timestamp ++ rest)),
            p.get-put_uint a.kind (api.put_uint a.timestamp ++ rest) (omega (arith, v.kind_small)),
            p.get-put_uint a.timestamp rest v.timestamp_small,
            kind_of a.kind v.kind_small,
          )
          refl
