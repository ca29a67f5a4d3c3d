-- ===== src/Stores/Http.antt =====
-- What both stores use of net/http, net/url, io and bytes, and of the bao package: a client is a
-- function from requests to responses, and `encode` is the outboard and the root of bao.EncodeBuf.
use go_iroh_experiments.Base.{
  ℕ, ◌-◌, Bool, [], Option, none, some, ltb, leb, ◌==◌, if◌then◌else◌, length, take, drop, Bytes,
}
use go_iroh_experiments.Go.Int.{ℤ, pos, negsuc}

pub data Method : Type 0 where
  head get : Method

-- A request with its Range, as first and last byte, and its Authorization; "" is no such header.
pub record Request : Type 0 where
  pub method : Method
  pub url : Bytes
  pub range : Option (ℕ × ℕ)
  pub authorization : Bytes

-- `body` is what can be read, and `body_ok` tells whether it ends without an error.
pub record Response : Type 0 where
  pub status : ℕ
  pub content_length : ℤ
  pub linked_size : Bytes
  pub accept_ranges : Bytes
  pub content_range : Bytes
  pub body : Bytes
  pub body_ok : Bool

-- http.Client.Do
abbrev pub Client : Type 0
Client = Request → Option Response

-- url.URL as far as it is looked at.
pub record Url : Type 0 where
  pub scheme : Bytes
  pub host : Bytes
  pub path : Bytes

pub record Api : Type 0 where
  -- bao.EncodeBuf(data, 4, true)
  pub encode : Bytes → Bytes × Bytes
  -- url.Parse, and URL.String: of a base whose query and fragment are cleared, or of what was parsed
  pub parse_url : Bytes → Option Url
  pub url_string : Url → Bytes
  -- http.NewRequest accepts the URL
  pub is_request : Bytes → Bool
  -- strings.EqualFold
  pub equal_fold : Bytes → Bytes → Bool

pub data ReadError : Type 0 where
  negative_offset eof unexpected_eof bad_request failed bad_status broken_body : ReadError

-- What a ReadAt put into its buffer, and its error.
abbrev pub Read : Type 0
Read = Bytes × Option ReadError

-- `io.ReadFull` of `n` bytes
unfoldable pub read_full : ℕ → Response → Read
read_full n r =
    if leb n (length r.body)
    then (take n r.body, none)
    else if r.body_ok
    then (r.body, some (if length r.body == 0 then eof else unexpected_eof))
    else (r.body, some broken_body)

-- `bytes.Reader.ReadAt` into `n` bytes
unfoldable pub read_bytes : Bytes → ℕ → ℤ → Read
read_bytes content n (negsuc k) = ([], some negative_offset)
read_bytes content n (pos off) =
    if leb (length content) off
    then ([], some eof)
    else if ltb (length content - off) n
    then (take n (drop off content), some eof)
    else (take n (drop off content), none)
