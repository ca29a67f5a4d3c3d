-- ===== src/Tlog/Operator/Extends.antt =====
-- What a step that appends nothing keeps: a store under another key, and Publish.
use go_iroh_experiments.Base.{
  ℕ, ◌≡◌, refl, sym, ◌∙◌, subst, false, List, [], ◌∷◌, Option, some, inl, inr, arith, Bytes,
  Bool-cases, Option-cases,
}
use go_iroh_experiments.Tlog.Api.{Api}
use go_iroh_experiments.Tlog.Source.{entry_key, checkpoint_key, has_prefix}
use go_iroh_experiments.Tlog.Operator.{
  Stores, Operator, Tile, hash_reader, source, store, tile_key, publish_tiles, signed_checkpoint,
  publish_checkpoint, publish,
}
use go_iroh_experiments.Tlog.Operator.Stored.{
  KeepsBlobs, Stored, IsFree, store-Stored, store-IsFree, store_same, tile_key_apart,
  checkpoint_key_apart,
}

module _ {Blobs : Type 0} (stores : Stores Blobs) where
  -- A step that appends nothing.
  pub record Extends (o p : Operator Blobs) : Type 0 where
    pub same_size : p.size ≡ o.size
    pub keeps : (i : ℕ) (e : Bytes) → Stored stores o i e → Stored stores p i e
    pub keeps_free : (i : ℕ) → IsFree stores o i → IsFree stores p i

  self-Extends : (o : Operator Blobs) → Extends o o
  self-Extends o = record { same_size = refl; keeps = λ i e s. s; keeps_free = λ i f. f }

  trans-Extends : (o p q : Operator Blobs) → Extends o p → Extends p q → Extends o q
  trans-Extends o p q a b = record {
    same_size = b.same_size ∙ a.same_size;
    keeps = λ i e s. b.keeps i e (a.keeps i e s);
    keeps_free = λ i f. b.keeps_free i (a.keeps_free i f);
  }

  to-Extends : (o p q : Operator Blobs) → q ≡ p → Extends o p → Extends o q
  to-Extends o p q e x = subst (Extends o) (sym e) x

  -- The stores are as before.
  abbrev pub with_rest : Operator Blobs → List Bytes → ℕ → ℕ → Option Bytes → Operator Blobs
  with_rest o hashes size published checkpoint = record o {
    hashes = hashes;
    size = size;
    published = published;
    checkpoint = checkpoint;
  }

  pub rest-Stored :
      (o : Operator Blobs) (hs : List Bytes) (n k : ℕ) (c : Option Bytes) (i : ℕ) (e : Bytes)
      → Stored stores o i e
      → Stored stores (with_rest o hs n k c) i e
  unfolding source
  rest-Stored o hs n k c i e s = record {
    hash = s.hash;
    entry_is = s.entry_is;
    blob_is = s.blob_is;
  }

  pub rest-IsFree :
      (o : Operator Blobs) (hs : List Bytes) (n k : ℕ) (c : Option Bytes) (i : ℕ)
      → IsFree stores o i
      → IsFree stores (with_rest o hs n k c) i
  unfolding source
  rest-IsFree o hs n k c i f = f

  module _ (kept : KeepsBlobs stores) where
    store-Extends :
        (o : Operator Blobs) (key content : Bytes) (p : Operator Blobs)
        → store stores o key content ≡ some p
        → ((i : ℕ) → has_prefix (entry_key i) key ≡ false)
        → Extends o p
    store-Extends o key content p h apart = record {
      same_size = store_same stores o key content p h;
      keeps = λ i e s. store-Stored stores kept o key content p i e h (apart i) s;
      keeps_free = λ i f. store-IsFree stores kept o key content p i h (apart i) f;
    }

    publish_tiles-Extends :
        (o : Operator Blobs) (ts : List Tile) → Extends o (publish_tiles stores o ts).0
    unfolding publish_tiles
    publish_tiles-Extends o [] = self-Extends o
    publish_tiles-Extends o (t ∷ ts) =
        elim (Option-cases (stores.read_tile_data t (hash_reader o.hashes))) [
          | inl failed ↦ to-Extends o o _ (ground arith) (self-Extends o)
          | inr (content, read) ↦ elim (Option-cases (store stores o (tile_key stores t) content)) [
            | inl failed ↦ to-Extends o o _ (ground arith) (self-Extends o)
            | inr (p, put) ↦ to-Extends o (publish_tiles stores p ts).0 _ (ground arith) (
                trans-Extends o p _
                  (store-Extends o _ content p put (λ i. tile_key_apart stores kept i t))
                  (publish_tiles-Extends p ts))
          ]
        ]

    publish_checkpoint-Extends :
        (api : Api) (o : Operator Blobs) → Extends o (publish_checkpoint stores api o).0
    unfolding publish_checkpoint
    publish_checkpoint-Extends api o = elim (Option-cases (signed_checkpoint stores api o)) [
      | inl failed ↦ to-Extends o o _ (ground arith) (self-Extends o)
      | inr (msg, signed) ↦ elim (Option-cases (store stores o (checkpoint_key o.size) msg)) [
        | inl failed ↦ to-Extends o o _ (ground arith) (self-Extends o)
        | inr (p, put) ↦
            to-Extends o (with_rest p p.hashes p.size o.size (some msg)) _ (ground arith) (
              trans-Extends o p _ (store-Extends o _ msg p put (λ i. checkpoint_key_apart i o.size))
                (record {
                  same_size = refl;
                  keeps = rest-Stored p p.hashes p.size o.size (some msg);
                  keeps_free = rest-IsFree p p.hashes p.size o.size (some msg);
                }))
      ]
    ]

    pub publish-Extends : (api : Api) (o : Operator Blobs) → Extends o (publish stores api o).0
    unfolding publish
    publish-Extends api o =
        let tiles = publish_tiles stores o (stores.new_tiles o.published o.size) in
        let first = publish_tiles-Extends o (stores.new_tiles o.published o.size) in
        elim (Bool-cases tiles.1) [
          | inr ended ↦ to-Extends o tiles.0 _ (ground arith) first
          | inl going ↦
              to-Extends o (publish_checkpoint stores api tiles.0).0 _ (ground arith)
                (trans-Extends o tiles.0 _ first (publish_checkpoint-Extends api tiles.0))
        ]
