-- ===== src/Stores/Imports.antt =====
-- What is behind the hash that an import returns.
use go_iroh_experiments.Base.{
  ℕ, ◌<◌, ◌≡◌, ◌≢◌, ◌⊎◌, refl, subst, sym, ap, ◌∙◌, Bool, true, false, [], some, inl, inr, arith,
  length, Bytes, Bool-cases, equal, equal_iff,
}
use go_iroh_experiments.Base.Dict.{lookup, insert, lookup-insert, lookup-insert_self}
use go_iroh_experiments.Go.Int.{ℤ}
use go_iroh_experiments.Stores.Http
use go_iroh_experiments.Stores.Http.{Api, get, Request, Response, read_bytes}
use go_iroh_experiments.Stores.Xet
use go_iroh_experiments.Stores.Xet.{Store, File, Entry}
use go_iroh_experiments.Stores.Reads.{ServesRanges, read_at-content}

Result-cases {ℓ} :
    {A : Type ℓ} (r : Xet.Result A)
    → ((a : A) × (r ≡ Xet.ok a)) ⊎ ((e : Xet.ImportError) × (r ≡ Xet.err e))
Result-cases (Xet.ok a) = inl (a, refl)
Result-cases (Xet.err e) = inr (e, refl)

put-open :
    (s : Store) (e : Entry) (hash : Bytes)
    → e.hash ≡ hash
    → Xet.open_blob (Xet.put s e) hash ≡ some e
unfolding Xet.open_blob Xet.put
put-open s e hash same =
    ap (λ (b : Bytes). lookup b (insert e.hash e s.entries)) (sym same)
    ∙ lookup-insert_self e.hash e s.entries

put-other :
    (s : Store) (e : Entry) (other : Bytes)
    → equal e.hash other ≡ false
    → Xet.open_blob (Xet.put s e) other ≡ Xet.open_blob s other
unfolding Xet.open_blob Xet.put
put-other s e other apart = rw (lookup-insert e.hash other e s.entries, apart) refl

module _ (api : Api) where
  -- An entry of the content whose reads are those of the content in memory.
  pub record Holds (e : Xet.Entry) (content : Bytes) : Type 0 where
    pub root : e.hash ≡ (api.encode content).1
    pub outboard : e.outboard ≡ (api.encode content).0
    pub size : e.size ≡ length content
    pub reads : (n : ℕ) (off : ℤ) → 0 < n → Xet.read_entry api e n off ≡ read_bytes content n off

  bytes-Holds :
      (client : Http.Client) (content : Bytes)
      → Holds (Xet.new_entry_from_bytes api client content) content
  unfolding Xet.new_entry_from_bytes Xet.read_entry equal
  bytes-Holds client content = record {
    root = refl;
    outboard = refl;
    size = refl;
    reads = λ n off h. refl;
  }

  remote-Holds :
      (u content token : Bytes) (client : Http.Client)
      → u ≢ []
      → api.is_request u ≡ true
      → ServesRanges client u token content
      → Holds (Xet.new_entry_from_remote api u content client token) content
  unfolding Xet.new_entry_from_remote Xet.read_entry
  remote-Holds u content token client named request serves = record {
    root = refl;
    outboard = refl;
    size = refl;
    reads = λ n off h.
        let apart : equal u [] ≡ false = elim (Bool-cases (equal u [])) [
          | inl e ↦ absurd (named ((equal_iff u []).0 e))
          | inr e ↦ e
        ] in
        rw apart (read_at-content api _ content n off refl request serves h);
  }

  get_all-request :
      (s : Store) (u content : Bytes)
      → Xet.get_all api s u ≡ Xet.ok content
      → api.is_request u ≡ true
  unfolding Xet.get_all
  get_all-request s u content h = ground arith

  imported-Holds :
      (s : Store) (u content : Bytes) (size : ℕ) (ranged : Bool) (e : Entry)
      → Xet.imported api s u (size, ranged) content ≡ Xet.ok e
      → u ≢ []
      → api.is_request u ≡ true
      → ServesRanges s.client u s.token content
      → Holds e content
  unfolding Xet.imported
  imported-Holds s u content size true e h named request serves =
      subst (λ (x : Entry). Holds x content) (ground arith)
        (remote-Holds u content s.token s.client named request serves)
  imported-Holds s u content size false e h named request serves =
      subst (λ (x : Entry). Holds x content) (ground arith) (bytes-Holds s.client content)

  import_url-Holds :
      (s : Store) (u content : Bytes) (e : Entry)
      → Xet.import_url api s u ≡ Xet.ok e
      → Xet.get_all api s u ≡ Xet.ok content
      → u ≢ []
      → ServesRanges s.client u s.token content
      → Holds e content
  unfolding Xet.import_url
  import_url-Holds s u content e h got named serves = elim (Result-cases (Xet.probe api s u)) [
    | inr (x, failed) ↦ absurd (ground arith)
    | inl ((size, ranged), probed) ↦
        imported-Holds s u content size ranged e (rw (probed, Xet.import_url, got) at h) named
          (get_all-request s u content got) serves
  ]

  -- When ImportFile returns a hash, and the server of the resolved URL answers ranges of the
  -- content that it sent, Open finds under the hash an entry with the root, the outboard and the
  -- size of that content, whose reads are those of the content in memory, whether it was kept or
  -- stays behind the URL; what other hashes open is as before.
  pub import_file-Holds :
      (s : Store) (f : File) (u content hash : Bytes)
      → (Xet.import_file api s f).1 ≡ Xet.ok hash
      → Xet.resolve_url api s f ≡ Xet.ok u
      → Xet.get_all api s u ≡ Xet.ok content
      → u ≢ []
      → ServesRanges s.client u s.token content
      → ((e : Entry) × (Xet.open_blob (Xet.import_file api s f).0 hash ≡ some e) × Holds e content)
        × ((other : Bytes)
            → equal hash other ≡ false
            → Xet.open_blob (Xet.import_file api s f).0 other ≡ Xet.open_blob s other)
  unfolding Xet.import_file
  import_file-Holds s f u content hash h resolved got named serves =
      elim (Result-cases (Xet.import_url api s u)) [
        | inr (x, failed) ↦ absurd (ground arith)
        | inl (e, found) ↦
            let same : e.hash ≡ hash = ground arith in
            let after : (Xet.import_file api s f).0 ≡ Xet.put s e = ground arith in
            (
              (
                e,
                ap (λ (t : Store). Xet.open_blob t hash) after ∙ put-open s e hash same,
                import_url-Holds s u content e found got named serves,
              ),
              λ other apart.
                  ap (λ (t : Store). Xet.open_blob t other) after
                  ∙ put-other s e other (ap (λ (b : Bytes). equal b other) same ∙ apart),
            )
      ]
