-- ===== src/Dtrain/Api.antt =====
-- What dtrain takes from go-iroh's key, netaddr and iroh packages, from encoding/json and from the
-- float32 arithmetic of the machine. Each function is a parameter. An endpoint ID is its 32 bytes,
-- an address is opaque, and a float32 is its bits.
use go_iroh_experiments.Base.{ℕ, ◌≡◌, ◌^◌, ◌<◌, Bool, true, List, Option, some, Bytes}
use go_iroh_experiments.Go.Int.{ℤ}

pub data EventKind : Type 0 where
  join leave membership : EventKind

pub record Announcement : Type 0 where
  pub type : Bytes
  pub id : Bytes
  pub addrs : List Bytes

pub record BroadcastMessage : Type 0 where
  pub type : Bytes
  pub seq : ℕ
  pub payload : Bytes

-- `op` is a uint8; `n` is an int.
pub record AllReduceHeader : Type 0 where
  pub group : Bytes
  pub seq : ℕ
  pub op : ℕ
  pub from : Bytes
  pub n : ℤ

pub record Api : Type 0 where
  -- key.EndpointID.String, key.ParseEndpointID, EndpointID.IsZero
  pub id_string : Bytes → Bytes
  pub parse_id : Bytes → Option Bytes
  pub is_zero : Bytes → Bool
  -- netaddr.NewEndpointAddr, EndpointAddr.IsEmpty, the texts of EndpointAddr.Addrs,
  -- netaddr.ParseTransportAddr and EndpointAddr.WithAddrs
  pub new_addr : Bytes → Bytes
  pub addr_is_empty : Bytes → Bool
  pub addr_strings : Bytes → List Bytes
  pub parse_transport : Bytes → Option Bytes
  pub with_addr : Bytes → Bytes → Bytes
  -- float32: +, /, >, the conversion of an int, and the conversion to an int
  pub add : ℕ → ℕ → ℕ
  pub quotient : ℕ → ℕ → ℕ
  pub gt : ℕ → ℕ → Bool
  pub of_int : ℕ → ℕ
  pub to_int : ℕ → ℤ
  -- encoding/json
  pub marshal_announcement : Announcement → Option Bytes
  pub unmarshal_announcement : Bytes → Option Announcement
  pub marshal_broadcast : BroadcastMessage → Option Bytes
  pub unmarshal_broadcast : Bytes → Option BroadcastMessage
  pub marshal_header : AllReduceHeader → Option Bytes
  pub unmarshal_header : Bytes → Option AllReduceHeader
  -- utf8.ValidString: other bytes are replaced when a string is marshaled
  pub is_utf8 : Bytes → Bool

-- What encoding/json documents: a header of valid texts reads back.
pub record IsJson (api : Api) : Type 0 where
  pub unmarshal-header :
      (h : AllReduceHeader) (b : Bytes)
      → api.is_utf8 h.group ≡ true
      → api.is_utf8 h.from ≡ true
      → h.seq < 2 ^ 64
      → h.op < 256
      → api.marshal_header h ≡ some b
      → api.unmarshal_header b ≡ some h
