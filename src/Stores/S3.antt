-- ===== src/Stores/S3.antt =====
-- s3baostore/store.go. Contexts are not cancelled; a nil store is not modelled.
use go_iroh_experiments.Base.{
  ℕ, ◌+◌, ◌-◌, not, [], Option, none, some, ltb, leb, ◌==◌, if◌then◌else◌, length, Bytes, equal,
}
use go_iroh_experiments.Base.Dict.{Map, lookup, insert}
use go_iroh_experiments.Go.Int.{ℤ, pos, negsuc}
use go_iroh_experiments.Stores.Http.{
  Api, Client, get, negative_offset, eof, bad_request, failed, bad_status, Read, read_full,
  read_bytes,
}

-- `dataSource`; `url` is "" for inline data.
pub record DataSource : Type 0 where
  pub inline : Bytes
  pub url : Bytes
  pub client : Client

pub record Entry : Type 0 where
  pub hash : Bytes
  pub size : ℕ
  pub source : DataSource
  pub outboard : Bytes

pub record Store : Type 0 where
  pub entries : Map Entry
  pub client : Client

pub data ImportError : Type 0 where
  bad_url bad_get get_failed get_status read_failed : ImportError

pub data Result {ℓ} (A : Type ℓ) : Type ℓ where
  ok : A → Result A
  err : ImportError → Result A

-- `httpReaderAt`
pub record HttpReaderAt : Type 0 where
  pub url : Bytes
  pub size : ℕ
  pub client : Client

-- `put`
unfoldable pub put : Store → Entry → Store
put s e = record s { entries = insert e.hash e s.entries }

-- `Open`
unfoldable pub open_blob : Store → Bytes → Option Entry
open_blob s hash = lookup hash s.entries

-- The last byte of a range of `n` bytes from `start` on; `start + n` is below 2 ^ 64.
unfoldable pub last_byte : ℕ → ℕ → ℕ → ℕ
last_byte size n start = if leb size (start + n - 1) then size - 1 else start + n - 1

module _ (api : Api) where
  -- An inline entry has no client in the source; here it has the store's, which is not used.
  unfoldable pub new_entry_from_bytes : Client → Bytes → Entry
  new_entry_from_bytes client content = record {
    hash = (api.encode content).1;
    size = length content;
    source = record { inline = content; url = []; client = client };
    outboard = (api.encode content).0;
  }

  unfoldable pub new_entry_from_remote : Bytes → Bytes → Client → Entry
  new_entry_from_remote u content client = record {
    hash = (api.encode content).1;
    size = length content;
    source = record { inline = []; url = u; client = client };
    outboard = (api.encode content).0;
  }

  -- `ImportBytes`
  unfoldable pub import_bytes : Store → Bytes → Store × Bytes
  import_bytes s content = let e = new_entry_from_bytes s.client content in (put s e, e.hash)

  -- The content that `ImportURL` reads behind a parsed URL.
  unfoldable pub get_url : Store → Bytes → Result Bytes
  get_url s u =
      if not (api.is_request u)
      then err bad_get
      else elim (s.client (record { method = get; url = u; range = none; authorization = [] })) [
        | none ↦ err get_failed
        | some r ↦
            if not (r.status == 200)
            then err get_status
            else if r.body_ok
            then ok r.body
            else err read_failed
      ]

  unfoldable pub import_url : Store → Bytes → Store × Result Bytes
  import_url s url = elim (api.parse_url url) [
    | none ↦ (s, err bad_url)
    | some parsed ↦
        let u = api.url_string parsed in
        elim (get_url s u) [
          | err e ↦ (s, err e)
          | ok content ↦ let e = new_entry_from_remote u content s.client in (put s e, ok e.hash)
        ]
  ]

  -- The end of `ReadAt` on what was read into the buffer of `n` bytes.
  unfoldable pub finished : ℕ → Read → Read
  finished n (got, some e) = (got, some e)
  finished n (got, none) = if ltb (length got) n then (got, some eof) else (got, none)

  -- `httpReaderAt.ReadAt` into `n` bytes
  unfoldable pub read_range : HttpReaderAt → ℕ → ℕ → Read
  read_range r n start =
      let end = last_byte r.size n start in
      if not (api.is_request r.url)
      then ([], some bad_request)
      else elim (r.client
          (record { method = get; url = r.url; range = some (start, end); authorization = [] })) [
            | none ↦ ([], some failed)
            | some resp ↦
                if not (resp.status == 206)
                then ([], some bad_status)
                else finished n (read_full (end - start + 1) resp)
          ]

  unfoldable pub read_at : HttpReaderAt → ℕ → ℤ → Read
  read_at r n (negsuc k) = ([], some negative_offset)
  read_at r n (pos off) =
      if n == 0 then ([], none) else if leb r.size off then ([], some eof) else read_range r n off

  -- `DataReader` and a ReadAt of what it returns.
  unfoldable pub read_entry : Entry → ℕ → ℤ → Read
  read_entry e n off =
      if equal e.source.url []
      then read_bytes e.source.inline n off
      else read_at (record { url = e.source.url; size = e.size; client = e.source.client }) n off
