-- ===== src/Stores/Urls.antt =====
-- What is behind the hash that the import of an s3 URL returns.
use go_iroh_experiments.Base.{
  ℕ, ◌<◌, ◌≡◌, ◌≢◌, refl, ap, ◌∙◌, true, false, [], none, some, inl, inr, leb, ◌==◌, if◌then◌else◌,
  arith, length, Bytes, Bool-cases, equal, equal_iff,
}
use go_iroh_experiments.Base.Dict.{lookup, lookup-insert, lookup-insert_self}
use go_iroh_experiments.Go.Int.{ℤ, pos, negsuc}
use go_iroh_experiments.Stores.Http.{Api, Client, Read, eof, Url, read_bytes}
use go_iroh_experiments.Stores.Xet
use go_iroh_experiments.Stores.Texts.{authorization}
use go_iroh_experiments.Stores.S3.{
  HttpReaderAt, Entry, Store, Result, ok, last_byte, finished, read_range, read_at, read_entry,
  get_url, import_url, new_entry_from_remote, put, open_blob,
}
use go_iroh_experiments.Stores.Reads.{ServesRanges, read_at-content}

-- The reader of xetstore without a token.
abbrev as_xet : HttpReaderAt → Xet.HttpReaderAt
as_xet r = record { url = r.url; size = r.size; client = r.client; token = [] }

module _ (api : Api) where
  read_range-same :
      (r : HttpReaderAt) (n start : ℕ)
      → read_range api r n start ≡ Xet.read_range api (as_xet r) n start
  unfolding read_range Xet.read_range last_byte Xet.last_byte authorization equal finished
      Xet.finished
  read_range-same r n start = refl

  read_at-same :
      (r : HttpReaderAt) (n : ℕ) (off : ℤ) → read_at api r n off ≡ Xet.read_at api (as_xet r) n off
  unfolding read_at Xet.read_at
  read_at-same r n (negsuc k) = refl
  read_at-same r n (pos off) =
      ap (λ (x : Read). if n == 0 then ([], none) else if leb r.size off then ([], some eof) else x)
        (read_range-same r n off)

  -- An entry of the content whose reads are those of the content in memory.
  pub record Holds (e : Entry) (content : Bytes) : Type 0 where
    pub root : e.hash ≡ (api.encode content).1
    pub outboard : e.outboard ≡ (api.encode content).0
    pub size : e.size ≡ length content
    pub reads : (n : ℕ) (off : ℤ) → 0 < n → read_entry api e n off ≡ read_bytes content n off

  remote-Holds :
      (u content : Bytes) (client : Client)
      → u ≢ []
      → api.is_request u ≡ true
      → ServesRanges client u [] content
      → Holds (new_entry_from_remote api u content client) content
  unfolding new_entry_from_remote read_entry
  remote-Holds u content client named request serves = record {
    root = refl;
    outboard = refl;
    size = refl;
    reads = λ n off h.
        let apart : equal u [] ≡ false = elim (Bool-cases (equal u [])) [
          | inl e ↦ absurd (named ((equal_iff u []).0 e))
          | inr e ↦ e
        ] in
        rw apart (read_at-same _ n off ∙ read_at-content api _ content n off refl request serves h);
  }

  get_url-request :
      (s : Store) (u content : Bytes) → get_url api s u ≡ ok content → api.is_request u ≡ true
  unfolding get_url
  get_url-request s u content h = ground arith

  -- When the import of a URL that parses has read a content and the URL's server answers ranges of
  -- it, ImportURL returns the root of the content, and Open finds under it an entry with the
  -- content's outboard and size whose reads are those of the content in memory; what other hashes
  -- open is as before.
  pub import_url-Holds :
      (s : Store) (url : Bytes) (parsed : Url) (content : Bytes)
      → api.parse_url url ≡ some parsed
      → get_url api s (api.url_string parsed) ≡ ok content
      → api.url_string parsed ≢ []
      → ServesRanges s.client (api.url_string parsed) [] content
      → ((import_url api s url).1 ≡ ok (api.encode content).1)
        × ((e : Entry) × (open_blob (import_url api s url).0 (api.encode content).1 ≡ some e)
            × Holds e content)
        × ((other : Bytes)
            → equal (api.encode content).1 other ≡ false
            → open_blob (import_url api s url).0 other ≡ open_blob s other)
  unfolding import_url open_blob put new_entry_from_remote
  import_url-Holds s url parsed content parses got named serves =
      let u = api.url_string parsed in
      let e = new_entry_from_remote api u content s.client in
      let after : import_url api s url ≡ (put s e, ok e.hash) = rw (import_url, parses, got) refl in
      (
        ap (λ (x : Store × Result Bytes). x.1) after,
        (
          e,
          ap (λ (x : Store × Result Bytes). lookup (api.encode content).1 x.0.entries) after
              ∙ lookup-insert_self (api.encode content).1 e s.entries,
          remote-Holds u content s.client named (get_url-request s u content got) serves,
        ),
        λ other apart.
            ap (λ (x : Store × Result Bytes). lookup other x.0.entries) after
            ∙ rw (lookup-insert (api.encode content).1 other e s.entries, apart) refl,
      )
