-- ===== src/Discovery/Api.antt =====
-- What contentdiscovery takes from go-iroh's key, blobs and postcard packages. Each function is
-- a parameter. Hosts, hashes and signatures are bytes.
use go_iroh_experiments.Base.{ℕ, ◌^◌, ◌<◌, ◌≡◌, Bool, ◌++◌, Option, some, Bytes}

-- blobs.HashAndFormat
pub record Content : Type 0 where
  pub hash : Bytes
  pub format : ℕ

pub record Api : Type 0 where
  -- key.PublicKeyFromSlice with PublicKey.EndpointID, and Host.PublicKey().Verify(msg, sig) == nil
  pub public_key : Bytes → Option Bytes
  pub verify : Bytes → Bytes → Bytes → Bool
  -- Host.Compare(other) < 0
  pub host_ltb : Bytes → Bytes → Bool
  -- postcard: Uint of the encoder and the decoder, and a blobs.HashAndFormat
  pub put_uint : ℕ → Bytes
  pub get_uint : Bytes → Option (ℕ × Bytes)
  pub put_content : Content → Bytes
  pub get_content : Bytes → Option (Content × Bytes)

-- What those packages document: what is written reads back.
pub record IsPostcard (a : Api) : Type 0 where
  pub get-put_uint :
      (n : ℕ) (rest : Bytes) → n < 2 ^ 64 → a.get_uint (a.put_uint n ++ rest) ≡ some (n, rest)
  pub get-put_content :
      (c : Content) (rest : Bytes) → a.get_content (a.put_content c ++ rest) ≡ some (c, rest)
