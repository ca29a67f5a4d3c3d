-- ===== src/Tlog/Tests/Operators.antt =====
-- An operator over stores whose hash is the identity and whose Put adds to the front.
use go_iroh_experiments.Base.{
  ℕ, ◌^◌, ◌<◌, ◌≡◌, refl, sym, ap, ◌∙◌, false, List, [], ◌∷◌, ◌++◌, Option, none, some, inl, inr,
  if◌then◌else◌, arith, length, get_elem?, Bytes, codes, equal, equal_iff, equal_self, Bool-cases,
  some-injective,
}
use go_iroh_experiments.Go.Strings.{has_newline}
use go_iroh_experiments.Tlog.Checkpoint.{is_bad_origin}
use go_iroh_experiments.Tlog.Source.{find_entry, blob, has_prefix, entry_key, padded}
use go_iroh_experiments.Tlog.Operator.{
  Stores, Operator, source, new_operator, append, store, put_timeline,
}
use go_iroh_experiments.Tlog.Operator.Stored.{KeepsBlobs, unless_empty, has_prefix_self}
use go_iroh_experiments.Tlog.Operator.Log.{Call, appends, publishes, call, calls, calls-Reads}
use go_iroh_experiments.Tlog.Tests.{test_api}

abbrev read_blob : List Bytes → Bytes → Option Bytes
read_blob [] h = none
read_blob (x ∷ b) h = if equal x h then some h else read_blob b h

abbrev test_stores : Stores (List Bytes)
test_stores = record {
  add = λ b x. some (x ∷ b, x);
  read = read_blob;
  put = λ doc e. e ∷ doc;
  stored_hashes = λ n e r. some (e ∷ []);
  new_tiles = λ old new. record { h = 8; l = 0; n = 0; w = new } ∷ [];
  read_tile_data = λ t r. elim (r (0 ∷ [])) [ none ↦ none | some hs ↦ some (codes "tile") ];
  tree_hash = λ n r. some (codes "root");
  tile_path = λ t. codes "tile/" ++ padded 3 t.n;
}

read_blob-same : (b : List Bytes) (h x : Bytes) → read_blob b h ≡ some x → x ≡ h
read_blob-same [] h x e = absurd (ground arith)
read_blob-same (y ∷ b) h x e = ground (arith, read_blob-same b h x)

keeps_old : (b : List Bytes) (y h x : Bytes) → read_blob b h ≡ some x → read_blob (y ∷ b) h ≡ some x
keeps_old b y h x e = ground (arith, read_blob-same b h x e)

key_apart : (k p : Bytes) → has_prefix k p ≡ false → equal p k ≡ false
key_apart k p h = elim (Bool-cases (equal p k)) [
  | inr e ↦ e
  | inl e ↦
      let same : p ≡ k = (equal_iff p k).0 e in
      absurd (ground (arith, ap (has_prefix k) same, has_prefix_self k))
]

test_stores-KeepsBlobs : KeepsBlobs test_stores
unfolding find_entry
test_stores-KeepsBlobs = record {
  read-add = λ b b' content hash e.
      let both : (content ∷ b, content) ≡ (b', hash) = some-injective e in
      let self = equal_self content in
      ap (λ (p : List Bytes × Bytes). read_blob p.0 p.1) (sym both) ∙ ground arith;
  read_kept = λ b b' content hash other old e found.
      let both : (content ∷ b, content) ≡ (b', hash) = some-injective e in
      ap (λ (p : List Bytes × Bytes). read_blob p.0 other) (sym both)
      ∙ keeps_old b content other old found;
  found-put = λ s doc e own free. ground (arith, own, equal_self e.key);
  found_kept = λ s doc e k own apart. ground (arith, own, key_apart k e.key apart);
  tile_path_head = λ t. (padded 3 t.n, refl);
}

abbrev fresh : Operator (List Bytes)
fresh = record {
  origin = codes "log";
  signer = codes "key";
  blobs = [];
  doc = [];
  namespace = codes "n";
  author = codes "a";
  hashes = [];
  size = 0;
  published = 0;
  checkpoint = none;
}

fresh-made :
    new_operator test_stores (codes "log") (codes "key") [] (codes "n") (codes "a") ≡ some fresh
unfolding new_operator is_bad_origin has_newline
fresh-made = refl

abbrev script : List Call
script = appends (codes "x") ∷ publishes ∷ appends [] ∷ []

script-entries : (calls test_stores test_api (fresh, []) script).1 ≡ codes "x" ∷ [] ∷ []
unfolding calls call append store put_timeline
script-entries = refl

calls-Reads_example :
    ((e : Bytes) (i : ℕ)
      → (append test_stores (calls test_stores test_api (fresh, []) script).0 e).1 ≡ some i
      → i ≡ length (calls test_stores test_api (fresh, []) script).1)
    × ((i : ℕ)
        → i < 10 ^ 20
        → blob (source test_stores (calls test_stores test_api (fresh, []) script).0) (entry_key i)
          ≡ unless_empty (get_elem? (calls test_stores test_api (fresh, []) script).1 i))
calls-Reads_example =
    calls-Reads test_stores test_stores-KeepsBlobs test_api (codes "log") (codes "key") (codes "n")
      (codes "a") [] fresh script fresh-made (omega arith)
