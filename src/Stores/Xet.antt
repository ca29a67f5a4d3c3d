-- ===== src/Stores/Xet.antt =====
-- xetstore/store.go. Contexts are not cancelled; a nil store is not modelled.
use go_iroh_experiments.Base.{
  ℕ, ◌+◌, ◌-◌, Bool, false, not, ◌&&◌, ◌||◌, List, [], ◌∷◌, ◌++◌, Option, none, some, ltb, leb,
  ◌==◌, if◌then◌else◌, length, Bytes, codes, equal,
}
use go_iroh_experiments.Base.Dict.{Map, lookup, insert}
use go_iroh_experiments.Go.Int.{ℤ, pos, negsuc}
use go_iroh_experiments.Stores.Http.{
  Api, Client, head, get, Response, negative_offset, eof, bad_request, failed, bad_status, Read,
  read_full, read_bytes,
}
use go_iroh_experiments.Stores.Texts.{
  trim_left, trim_right, split_slash, nonempty, join_slash, authorization, parse_content_range_size,
  response_size,
}

pub record File : Type 0 where
  pub repo : Bytes
  pub revision : Bytes
  pub path : Bytes

-- `dataSource`; `url` is "" for inline data.
pub record DataSource : Type 0 where
  pub inline : Bytes
  pub url : Bytes
  pub client : Client
  pub token : Bytes

pub record Entry : Type 0 where
  pub hash : Bytes
  pub size : ℕ
  pub source : DataSource
  pub outboard : Bytes

pub record Store : Type 0 where
  pub entries : Map Entry
  pub client : Client
  pub token : Bytes
  pub endpoint : Bytes

pub data ImportError : Type 0 where
  empty_repo empty_path bad_endpoint not_absolute : ImportError
  bad_head head_failed head_status bad_get get_failed get_status read_failed size_mismatch :
      ImportError

pub data Result {ℓ} (A : Type ℓ) : Type ℓ where
  ok : A → Result A
  err : ImportError → Result A

unfoldable pub file_segments : File → List Bytes
file_segments f =
    let rev = if equal f.revision [] then codes "main" else f.revision in
    nonempty (split_slash (trim_left (trim_right f.repo)))
    ++ (nonempty (split_slash (codes "resolve"))
        ++ (nonempty (split_slash rev) ++ nonempty (split_slash (trim_left f.path))))

-- `httpReaderAt`
pub record HttpReaderAt : Type 0 where
  pub url : Bytes
  pub size : ℕ
  pub client : Client
  pub token : Bytes

-- The last byte of a range of `n` bytes from `start` on; `start + n` is below 2 ^ 64.
unfoldable pub last_byte : ℕ → ℕ → ℕ → ℕ
last_byte size n start = if leb size (start + n - 1) then size - 1 else start + n - 1

-- `put`
unfoldable pub put : Store → Entry → Store
put s e = record s { entries = insert e.hash e s.entries }

-- `Open`
unfoldable pub open_blob : Store → Bytes → Option Entry
open_blob s hash = lookup hash s.entries

module _ (api : Api) where
  unfoldable pub resolve_url : Store → File → Result Bytes
  resolve_url s f =
      if equal f.repo []
      then err empty_repo
      else if equal f.path []
      then err empty_path
      else elim (api.parse_url s.endpoint) [
        | none ↦ err bad_endpoint
        | some base ↦
            if equal base.scheme [] || equal base.host []
            then err not_absolute
            else ok (
                api.url_string (record base {
                  path = trim_right base.path ++ (b'/' ∷ join_slash (file_segments f));
                }))
      ]

  -- `probeRangeSize`
  unfoldable pub probe_range_size : Store → Bytes → ℕ × Bool
  probe_range_size s u =
      if not (api.is_request u)
      then (0, false)
      else elim (s.client (record {
        method = get;
        url = u;
        range = some (0, 0);
        authorization = authorization s.token;
      })) [
        | none ↦ (0, false)
        | some r ↦ if r.status == 206 then parse_content_range_size r.content_range else (0, false)
      ]

  -- What `probe` returns behind its request: a size, and whether ranges are served and the size is
  -- known. Where it is not known, the size is the one that came with the failure.
  unfoldable pub probed : Store → Bytes → Response → ℕ × Bool
  probed s u r =
      let ranged = api.equal_fold r.accept_ranges (codes "bytes") in
      let (size, known) = response_size r in
      let (size', known') = if ranged && not known then probe_range_size s u else (size, known) in
      (size', ranged && known')

  unfoldable pub probe : Store → Bytes → Result (ℕ × Bool)
  probe s u =
      if not (api.is_request u)
      then err bad_head
      else elim (s.client (record {
        method = head;
        url = u;
        range = none;
        authorization = authorization s.token;
      })) [
        | none ↦ err head_failed
        | some r ↦ if r.status == 200 then ok (probed s u r) else err head_status
      ]

  unfoldable pub get_all : Store → Bytes → Result Bytes
  get_all s u =
      if not (api.is_request u)
      then err bad_get
      else elim (s.client
          (record { method = get; url = u; range = none; authorization = authorization s.token })) [
            | none ↦ err get_failed
            | some r ↦
                if not (r.status == 200)
                then err get_status
                else if r.body_ok
                then ok r.body
                else err read_failed
          ]

  -- An inline entry has no client in the source; here it has the store's, which is not used.
  unfoldable pub new_entry_from_bytes : Client → Bytes → Entry
  new_entry_from_bytes client content = record {
    hash = (api.encode content).1;
    size = length content;
    source = record { inline = content; url = []; client = client; token = [] };
    outboard = (api.encode content).0;
  }

  unfoldable pub new_entry_from_remote : Bytes → Bytes → Client → Bytes → Entry
  new_entry_from_remote u content client token = record {
    hash = (api.encode content).1;
    size = length content;
    source = record { inline = []; url = u; client = client; token = token };
    outboard = (api.encode content).0;
  }

  -- `ImportBytes`
  unfoldable pub import_bytes : Store → Bytes → Store × Bytes
  import_bytes s content = let e = new_entry_from_bytes s.client content in (put s e, e.hash)

  -- The entry that `ImportFile` makes of what it read.
  unfoldable pub imported : Store → Bytes → ℕ × Bool → Bytes → Result Entry
  imported s u (size, ranged) content =
      if not (size == 0) && not (size == length content)
      then err size_mismatch
      else ok (
          if ranged
          then new_entry_from_remote u content s.client s.token
          else new_entry_from_bytes s.client content)

  unfoldable pub import_url : Store → Bytes → Result Entry
  import_url s u = elim (probe s u) [
    | err e ↦ err e
    | ok found ↦ elim (get_all s u) [ err e ↦ err e | ok content ↦ imported s u found content ]
  ]

  unfoldable pub import_file : Store → File → Store × Result Bytes
  import_file s f = elim (resolve_url s f) [
    | err e ↦ (s, err e)
    | ok u ↦ elim (import_url s u) [ err e ↦ (s, err e) | ok e ↦ (put s e, ok e.hash) ]
  ]

  -- The end of `ReadAt` on what was read into the buffer of `n` bytes.
  unfoldable pub finished : ℕ → Read → Read
  finished n (got, some e) = (got, some e)
  finished n (got, none) = if ltb (length got) n then (got, some eof) else (got, none)

  -- `httpReaderAt.ReadAt` into `n` bytes
  unfoldable pub read_range : HttpReaderAt → ℕ → ℕ → Read
  read_range r n start =
      let end = last_byte r.size n start in
      if not (api.is_request r.url)
      then ([], some bad_request)
      else elim (r.client (record {
        method = get;
        url = r.url;
        range = some (start, end);
        authorization = authorization r.token;
      })) [
        | none ↦ ([], some failed)
        | some resp ↦
            if not (resp.status == 206)
            then ([], some bad_status)
            else finished n (read_full (end - start + 1) resp)
      ]

  unfoldable pub read_at : HttpReaderAt → ℕ → ℤ → Read
  read_at r n (negsuc k) = ([], some negative_offset)
  read_at r n (pos off) =
      if n == 0 then ([], none) else if leb r.size off then ([], some eof) else read_range r n off

  -- `DataReader` and a ReadAt of what it returns.
  unfoldable pub read_entry : Entry → ℕ → ℤ → Read
  read_entry e n off =
      if equal e.source.url []
      then read_bytes e.source.inline n off
      else read_at
          (record {
            url = e.source.url;
            size = e.size;
            client = e.source.client;
            token = e.source.token;
          })
          n off
