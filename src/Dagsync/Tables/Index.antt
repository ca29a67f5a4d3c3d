-- ===== src/Dagsync/Tables/Index.antt =====
-- The tables' index from blob hashes back to CIDs.
use go_iroh_experiments.Base.{
  ◌≡◌, refl, sym, ap, ◌∙◌, inl, inr, true, false, ◌||◌, List, [], ◌∷◌, ◌++◌, some, arith,
  if◌then◌else◌, Bytes, equal, equal_iff, Bool-cases, some-injective,
}
use go_iroh_experiments.Base.Dict.{lookup, lookup-insert}
use go_iroh_experiments.Dagsync.Tables.{
  Tables, new_tables, has_cid, append_unique_cid, list_at, put, blob_hash, cids_for_hash,
}

-- No CID twice.
abbrev pub AreUnique : List Bytes → Type 0
AreUnique [] = Unit
AreUnique (c ∷ cids) = (has_cid cids c ≡ false) × AreUnique cids

has_cid-snoc :
    (cids : List Bytes) (c x : Bytes) → has_cid (cids ++ c ∷ []) x ≡ (has_cid cids x || equal c x)
unfolding has_cid
has_cid-snoc [] c x = ground arith
has_cid-snoc (d ∷ cids) c x = ground (arith, has_cid-snoc cids c x)

AreUnique-snoc :
    (cids : List Bytes) (c : Bytes)
    → has_cid cids c ≡ false
    → AreUnique cids
    → AreUnique (cids ++ c ∷ [])
unfolding has_cid
AreUnique-snoc [] c new u = (refl, tt)
AreUnique-snoc (d ∷ cids) c new u = (
  ground (arith, has_cid-snoc cids c d, u.0, equal_iff c d, equal_iff d c),
  AreUnique-snoc cids c (ground arith) u.1,
)

has_cid-append_unique_cid :
    (cids : List Bytes) (c x : Bytes)
    → has_cid (append_unique_cid cids c) x ≡ (has_cid cids x || equal c x)
unfolding append_unique_cid
has_cid-append_unique_cid cids c x = elim (Bool-cases (has_cid cids c)) [
  | inl old ↦
      rw (append_unique_cid, old)
        (elim (Bool-cases (equal c x)) [
          | inl same ↦
              let moved = ap (has_cid cids) ((equal_iff c x).0 same) in ground (arith, moved)
          | inr other ↦ ground arith
        ])
  | inr new ↦ rw (append_unique_cid, new) (has_cid-snoc cids c x)
]

append_unique_cid-AreUnique :
    (cids : List Bytes) (c : Bytes) → AreUnique cids → AreUnique (append_unique_cid cids c)
unfolding append_unique_cid
append_unique_cid-AreUnique cids c u = elim (Bool-cases (has_cid cids c)) [
  | inl old ↦ rw (append_unique_cid, old) u
  | inr new ↦ rw (append_unique_cid, new) (AreUnique-snoc cids c new u)
]

-- Each CID with a blob hash is listed under the hash, and no list has a CID twice.
pub record IsIndexed (t : Tables) : Type 0 where
  pub listed : (c h : Bytes) → blob_hash t c ≡ some h → has_cid (cids_for_hash t h) c ≡ true
  pub unique : (h : Bytes) → AreUnique (cids_for_hash t h)

cids_for_hash-put :
    (t : Tables) (c h : Bytes) (links : List Bytes) (g : Bytes)
    → cids_for_hash (put t c h links) g
      ≡ (if equal h g then append_unique_cid (cids_for_hash t h) c else cids_for_hash t g)
unfolding cids_for_hash put list_at
cids_for_hash-put t c h links g = elim (Bool-cases (equal h g)) [
  | inl same ↦
      rw
        (
          cids_for_hash,
          list_at,
          lookup-insert h g (append_unique_cid (list_at h t.rev_links) c) t.rev_links,
          same,
        )
        refl
  | inr other ↦
      rw
        (
          cids_for_hash,
          list_at,
          lookup-insert h g (append_unique_cid (list_at h t.rev_links) c) t.rev_links,
          other,
        )
        refl
]

blob_hash-put :
    (t : Tables) (c h : Bytes) (links : List Bytes) (x : Bytes)
    → blob_hash (put t c h links) x ≡ (if equal c x then some h else blob_hash t x)
unfolding blob_hash put
blob_hash-put t c h links x = lookup-insert c x h t.hashes

put-listed :
    (t : Tables) (c h : Bytes) (links : List Bytes)
    → IsIndexed t
    → (x g : Bytes) → blob_hash (put t c h links) x ≡ some g
    → has_cid (cids_for_hash (put t c h links) g) x ≡ true
put-listed t c h links i x g e = elim (Bool-cases (equal c x)) [
  | inl same ↦
      let put_at : blob_hash (put t c h links) x ≡ some h =
        blob_hash-put t c h links x ∙ rw same refl in
      let now = sym put_at ∙ e in
      let h_is = (equal_iff h g).1 (some-injective now) in
      rw (cids_for_hash-put t c h links g, h_is)
        (ground (arith, has_cid-append_unique_cid (cids_for_hash t h) c x))
  | inr other ↦
      let kept : blob_hash (put t c h links) x ≡ blob_hash t x =
        blob_hash-put t c h links x ∙ rw other refl in
      let before = sym kept ∙ e in
      let listed = i.listed x g before in
      elim (Bool-cases (equal h g)) [
        | inl same ↦
            let moved = ap (λ k. has_cid (cids_for_hash t k) x) ((equal_iff h g).0 same) in
            rw (cids_for_hash-put t c h links g, same)
              (ground (arith, moved, has_cid-append_unique_cid (cids_for_hash t h) c x))
        | inr apart ↦ rw (cids_for_hash-put t c h links g, apart) listed
      ]
]

put_unique :
    (t : Tables) (c h : Bytes) (links : List Bytes)
    → IsIndexed t
    → (g : Bytes) → AreUnique (cids_for_hash (put t c h links) g)
put_unique t c h links i g = elim (Bool-cases (equal h g)) [
  | inl same ↦
      rw (cids_for_hash-put t c h links g, same)
        (append_unique_cid-AreUnique (cids_for_hash t h) c (i.unique h))
  | inr apart ↦ rw (cids_for_hash-put t c h links g, apart) (i.unique g)
]

put-IsIndexed :
    (t : Tables) (c h : Bytes) (links : List Bytes) → IsIndexed t → IsIndexed (put t c h links)
put-IsIndexed t c h links i = record {
  listed = put-listed t c h links i;
  unique = put_unique t c h links i;
}

-- The calls of `Put`, from the first to the last.
unfoldable pub puts : Tables → List (Bytes × Bytes × List Bytes) → Tables
puts t [] = t
puts t ((c, h, links) ∷ calls) = puts (put t c h links) calls

puts-keeps :
    (t : Tables) (calls : List (Bytes × Bytes × List Bytes))
    → IsIndexed t
    → IsIndexed (puts t calls)
unfolding puts
puts-keeps t [] i = i
puts-keeps t ((c, h, links) ∷ calls) i =
    puts-keeps (put t c h links) calls (put-IsIndexed t c h links i)

new_tables-IsIndexed : IsIndexed new_tables
unfolding blob_hash cids_for_hash list_at lookup
new_tables-IsIndexed = record { listed = λ c h e. absurd (ground arith); unique = λ h. tt }

-- After any calls of `Put` on new tables, each CID with a blob hash is listed under that hash,
-- and no hash lists a CID twice.
pub puts-IsIndexed : (calls : List (Bytes × Bytes × List Bytes)) → IsIndexed (puts new_tables calls)
puts-IsIndexed calls = puts-keeps new_tables calls new_tables-IsIndexed
