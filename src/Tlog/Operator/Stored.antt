-- ===== src/Tlog/Operator/Stored.antt =====
-- What the stores of an operator keep, and that a key is not lost.
use go_iroh_experiments.Base.{
  ℕ, ◌^◌, ◌<◌, ◌≡◌, refl, sym, ap, ◌∙◌, subst, true, false, List, [], ◌∷◌, ◌++◌, Option, none, some,
  inl, inr, ◌==◌, arith, length, Bytes, codes, equal, equal_self, Option-cases, Bool-cases,
  if◌then◌else◌,
}
use go_iroh_experiments.Tlog.Source.{
  Source, Entry, is_own, find_entry, get_exact, blob, has_prefix, entry_key, padded,
  entry_key_prefix, checkpoint_key,
}
use go_iroh_experiments.Tlog.Source.Order.{length-padded, padded_order}
use go_iroh_experiments.Tlog.Operator.{
  Stores, Operator, Tile, source, store, put_timeline, tile_key,
}

pub has_prefix_self : (s : Bytes) → has_prefix s s ≡ true
unfolding has_prefix
has_prefix_self [] = refl
has_prefix_self (c ∷ s) = ground (arith, has_prefix_self s)

pub has_prefix_trans :
    (s k p : Bytes) → has_prefix s k ≡ true → has_prefix k p ≡ true → has_prefix s p ≡ true
unfolding has_prefix
has_prefix_trans s k [] a b = refl
has_prefix_trans s [] (x ∷ p) a b = absurd (ground arith)
has_prefix_trans [] (c ∷ k) (x ∷ p) a b = absurd (ground arith)
has_prefix_trans (d ∷ s) (c ∷ k) (x ∷ p) a b = ground (arith, has_prefix_trans s k p)

has_prefix_long : (s p : Bytes) → length s ≡ length p → has_prefix s p ≡ equal s p
unfolding has_prefix equal
has_prefix_long [] [] n = refl
has_prefix_long [] (x ∷ p) n = absurd (omega arith)
has_prefix_long (c ∷ s) [] n = absurd (omega arith)
has_prefix_long (c ∷ s) (x ∷ p) n = ground (arith, has_prefix_long s p (omega arith))

has_prefix_drop : (q s p : Bytes) → has_prefix (q ++ s) (q ++ p) ≡ has_prefix s p
unfolding has_prefix
has_prefix_drop [] s p = refl
has_prefix_drop (c ∷ q) s p = ground (arith, has_prefix_drop q s p)

-- The keys of two entries are no prefix of each other.
pub entry_keys_apart :
    (i j : ℕ)
    → i < 10 ^ 20
    → j < 10 ^ 20
    → (i == j) ≡ false
    → has_prefix (entry_key i) (entry_key j) ≡ false
unfolding entry_key
entry_keys_apart i j hi hj apart =
    has_prefix_drop entry_key_prefix (padded 20 i) (padded 20 j)
    ∙ has_prefix_long (padded 20 i) (padded 20 j) (length-padded 20 i ∙ sym (length-padded 20 j))
    ∙ (padded_order 20 i j (omega arith) (omega arith)).1
    ∙ apart

pub checkpoint_key_apart : (i n : ℕ) → has_prefix (entry_key i) (checkpoint_key n) ≡ false
unfolding entry_key checkpoint_key has_prefix
checkpoint_key_apart i n = refl

-- What a source can read of the content: nothing, if it is empty.
abbrev pub unless_empty : Option Bytes → Option Bytes
unless_empty none = none
unless_empty (some content) = if length content == 0 then none else some content

-- What blobs and docs document: a blob that is added can be read and stays, and Put stores an entry
-- where no key of the author is a prefix of its own, and removes only keys that extend it.
pub record KeepsBlobs {Blobs : Type 0} (stores : Stores Blobs) : Type 0 where
  pub read-add :
      (b b' : Blobs) (content hash : Bytes)
      → stores.add b content ≡ some (b', hash)
      → stores.read b' hash ≡ some content
  pub read_kept :
      (b b' : Blobs) (content hash other old : Bytes)
      → stores.add b content ≡ some (b', hash)
      → stores.read b other ≡ some old
      → stores.read b' other ≡ some old
  pub found-put :
      (s : Source) (doc : List Entry) (e : Entry)
      → is_own s e ≡ true
      → ((k : Bytes) → has_prefix e.key k ≡ true → find_entry s doc k ≡ none)
      → find_entry s (stores.put doc e) e.key ≡ some e
  pub found_kept :
      (s : Source) (doc : List Entry) (e : Entry) (k : Bytes)
      → is_own s e ≡ true
      → has_prefix k e.key ≡ false
      → find_entry s (stores.put doc e) k ≡ find_entry s doc k
  pub tile_path_head : (t : Tile) → (rest : Bytes) × (stores.tile_path t ≡ codes "tile/" ++ rest)

find_entry_same :
    (s t : Source) (es : List Entry) (k : Bytes)
    → s.namespace ≡ t.namespace
    → s.author ≡ t.author
    → find_entry s es k ≡ find_entry t es k
unfolding find_entry
find_entry_same s t [] k n a = refl
find_entry_same s t (e ∷ es) k n a = rw (find_entry, n, a, find_entry_same s t es k n a) refl

module _ {Blobs : Type 0} (stores : Stores Blobs) where
  abbrev pub found : Operator Blobs → Bytes → Option Entry
  found o k = find_entry (source stores o) o.doc k

  -- The timeline entry of an index is there, and names the blob of the content.
  pub record Stored (o : Operator Blobs) (i : ℕ) (content : Bytes) : Type 0 where
    pub hash : Bytes
    pub entry_is :
        found o (entry_key i)
        ≡ some (record {
          namespace = o.namespace;
          author = o.author;
          key = entry_key i;
          hash = hash;
          len = length content;
        })
    pub blob_is : stores.read o.blobs hash ≡ some content

  -- No key of the timeline is a prefix of the entry's.
  abbrev pub IsFree : Operator Blobs → ℕ → Type 0
  IsFree o i = (k : Bytes) → has_prefix (entry_key i) k ≡ true → found o k ≡ none

  pub Stored-blob :
      (o : Operator Blobs) (i : ℕ) (content : Bytes)
      → Stored o i content
      → blob (source stores o) (entry_key i) ≡ unless_empty (some content)
  unfolding blob source get_exact
  Stored-blob o i content s =
      let same : (length content == length content) ≡ true = ground arith in
      elim (Bool-cases (length content == 0)) [
        | inl none_left ↦ rw (blob, get_exact, s.entry_is, none_left) refl
        | inr some_left ↦ rw (blob, get_exact, s.entry_is, some_left, s.blob_is, same) refl
      ]

  pub IsFree-blob :
      (o : Operator Blobs) (i : ℕ) → IsFree o i → blob (source stores o) (entry_key i) ≡ none
  unfolding blob source get_exact
  IsFree-blob o i free =
      rw (blob, get_exact, free (entry_key i) (has_prefix_self (entry_key i))) refl

  store-eq :
      (o : Operator Blobs) (key content : Bytes) (p : Operator Blobs)
      → store stores o key content ≡ some p
      → (b : Blobs) × (hash : Bytes) × (stores.add o.blobs content ≡ some (b, hash))
        × (p ≡ put_timeline stores (record o { blobs = b }) key hash (length content))
  unfolding store
  store-eq o key content p h = elim (Option-cases (stores.add o.blobs content)) [
    | inl failed ↦ absurd (ground arith)
    | inr ((b, hash), added) ↦ (b, hash, added, ground arith)
  ]

  pub store_same :
      (o : Operator Blobs) (key content : Bytes) (p : Operator Blobs)
      → store stores o key content ≡ some p
      → p.size ≡ o.size
  unfolding put_timeline
  store_same o key content p h =
      let (b, hash, added, same) = store-eq o key content p h in
      ap (λ (q : Operator Blobs). q.size) same

  module _ (kept : KeepsBlobs stores) where
    -- A key that is not extended finds what it found.
    put-found :
        (o : Operator Blobs) (b : Blobs) (key hash : Bytes) (len : ℕ) (k : Bytes)
        → has_prefix k key ≡ false
        → found (put_timeline stores (record o { blobs = b }) key hash len) k ≡ found o k
    unfolding put_timeline source
    put-found o b key hash len k apart =
        kept.found_kept _ o.doc _ k (ground (arith, equal_self o.namespace, equal_self o.author))
          apart
        ∙ find_entry_same _ (source stores o) o.doc k refl refl

    -- A store under a key that is no prefix of an entry's keeps the entry, and keeps its place free.
    pub store-Stored :
        (o : Operator Blobs) (key content : Bytes) (p : Operator Blobs) (i : ℕ) (old : Bytes)
        → store stores o key content ≡ some p
        → has_prefix (entry_key i) key ≡ false
        → Stored o i old
        → Stored p i old
    unfolding put_timeline source
    store-Stored o key content p i old h apart s =
        let (b, hash, added, same) = store-eq o key content p h in
        subst (λ (q : Operator Blobs). Stored q i old) (sym same)
          (record {
            hash = s.hash;
            entry_is = put-found o b key hash (length content) (entry_key i) apart ∙ s.entry_is;
            blob_is = kept.read_kept o.blobs b content hash s.hash old added s.blob_is;
          })

    pub store-IsFree :
        (o : Operator Blobs) (key content : Bytes) (p : Operator Blobs) (i : ℕ)
        → store stores o key content ≡ some p
        → has_prefix (entry_key i) key ≡ false
        → IsFree o i
        → IsFree p i
    store-IsFree o key content p i h apart free =
        let (b, hash, added, same) = store-eq o key content p h in
        subst (λ (q : Operator Blobs). IsFree q i) (sym same)
          (λ k prefix.
            let other : has_prefix k key ≡ false =
              ground (arith, has_prefix_trans (entry_key i) k key) in
            put-found o b key hash (length content) k other ∙ free k prefix)

    pub store-entry :
        (o : Operator Blobs) (content : Bytes) (p : Operator Blobs) (i : ℕ)
        → store stores o (entry_key i) content ≡ some p
        → IsFree o i
        → Stored p i content
    unfolding put_timeline source
    store-entry o content p i h free =
        let (b, hash, added, same) = store-eq o (entry_key i) content p h in
        subst (λ (q : Operator Blobs). Stored q i content) (sym same)
          (record {
            hash = hash;
            entry_is =
                kept.found-put _ o.doc _
                  (ground (arith, equal_self o.namespace, equal_self o.author))
                  (λ k prefix.
                    find_entry_same _ (source stores o) o.doc k refl refl ∙ free k prefix);
            blob_is = kept.read-add o.blobs b content hash added;
          })

    pub tile_key_apart : (i : ℕ) (t : Tile) → has_prefix (entry_key i) (tile_key stores t) ≡ false
    unfolding tile_key entry_key has_prefix
    tile_key_apart i t = let (rest, e) = kept.tile_path_head (record t { w = 2 ^ t.h }) in rw e refl
