-- ===== src/Dagsync/Sync/Follow.antt =====
-- The receiver's loop on the items of a full traversal keeps step with the server's.
use mathlib.Core.List.{append_assoc}
use go_iroh_experiments.Base.{
  ℕ, zero, suc, ◌≡◌, refl, ap, ◌∙◌, sym, subst, inl, inr, true, false, List, [], ◌∷◌, ◌++◌, Option,
  none, some, arith, All, Bytes, equal, equal_iff, equal_self, Bool-cases, Option-cases,
  some-injective,
}
use go_iroh_experiments.Base.Dict.{lookup, lookup-insert, lookup-insert_self}
use go_iroh_experiments.Dagsync.Api.{Api, IsPostcard}
use go_iroh_experiments.Dagsync.Protocol.{filter_all, include_cid}
use go_iroh_experiments.Dagsync.Tables.{Tables, has_cid, put}
use go_iroh_experiments.Dagsync.Traversal.{pushed, traverse}
use go_iroh_experiments.Dagsync.Traversal.Steps.{traverse-visited, traverse-fresh}
use go_iroh_experiments.Dagsync.Traversal.Paths.{has_cid-cons}
use go_iroh_experiments.Dagsync.Sync.{
  after, then_write, write_cids, Receiver, read_one_response, read_full,
}
use go_iroh_experiments.Dagsync.Sync.Item.{
  IsBlobs, inline_all, Held, delivered, write_item-Held, read_one_response-Held,
}

-- The tables agree on `c`.
abbrev pub Agrees : Bytes → Tables → Tables → Type 0
Agrees c s t = (lookup c s.hashes ≡ lookup c t.hashes) × (lookup c s.links ≡ lookup c t.links)

module _ (api : Api) (p : IsPostcard api) (law : IsBlobs api) (tables : Tables)
    (open_blob : Bytes → Option Bytes) where
  abbrev pub AllHeld : List Bytes → Type 0
  AllHeld = All (Held api p law tables open_blob)

  pub sent : (out : List Bytes) → AllHeld out → Bytes
  sent [] ks = []
  sent (c ∷ out) (k, ks) = ((1 ∷ k.hash) ++ k.enc) ++ sent out ks

  pub write_cids-sent :
      (out : List Bytes) (ks : AllHeld out)
      → write_cids api open_blob inline_all tables out ≡ (sent out ks, none)
  unfolding write_cids sent then_write after
  write_cids-sent [] ks = refl
  write_cids-sent (c ∷ out) (k, ks) =
      rw (write_item-Held api p law tables open_blob c k, write_cids-sent out ks) refl

  -- `c` is at the receiver: its hash, its links, and its block under the hash.
  pub record Arrived (r : Receiver) (c : Bytes) : Type 0 where
    pub agrees : Agrees c r.tables tables
    pub hash : Bytes
    pub content : Bytes
    pub hash_is : lookup c r.tables.hashes ≡ some hash
    pub open_is : open_blob hash ≡ some content
    pub stored : lookup hash r.blobs ≡ some content

  -- The receiver's loop from `r` to `last`.
  pub record Follows (visited out : List Bytes) (r last : Receiver) (rest : Bytes) : Type 0 where
    pub left : last.stream ≡ rest
    pub kept : (c : Bytes) → has_cid visited c ≡ true → Agrees c last.tables r.tables
    pub kept_blobs :
        (content h enc : Bytes)
        → api.encode_blob content ≡ some (h, enc)
        → lookup h r.blobs ≡ some content
        → lookup h last.blobs ≡ some content
    pub arrived : All (Arrived last) out

  abbrev pub Reads : ℕ → List Bytes → List Bytes → List Bytes → Type 0
  Reads fuel visited stack out =
      (ks : AllHeld out) (r : Receiver) (rest : Bytes)
      → r.stream ≡ sent out ks ++ rest
      → (last : Receiver) × (read_full api fuel filter_all visited stack r ≡ some last)
        × Follows visited out r last rest

  pushed-delivered :
      (c : Bytes) (k : Held api p law tables open_blob c) (r : Receiver) (rest : Bytes)
      → pushed api (delivered api p law tables open_blob c k r rest).tables c ≡ pushed api tables c
  unfolding pushed put
  pushed-delivered c k r rest = rw (k.links_is, lookup-insert_self c k.links r.tables.links) refl

  delivered-Agrees :
      (c x : Bytes) (k : Held api p law tables open_blob c) (r : Receiver) (rest : Bytes)
      → equal c x ≡ false
      → Agrees x (delivered api p law tables open_blob c k r rest).tables r.tables
  unfolding put
  delivered-Agrees c x k r rest other = (
    (rw (lookup-insert c x k.hash r.tables.hashes, other) refl),
    (rw (lookup-insert c x k.links r.tables.links, other) refl),
  )

  -- A block with the hash that is written has the same content.
  delivered-blobs :
      (c : Bytes) (k : Held api p law tables open_blob c) (r : Receiver)
      (rest content h enc : Bytes)
      → api.encode_blob content ≡ some (h, enc)
      → lookup h r.blobs ≡ some content
      → lookup h (delivered api p law tables open_blob c k r rest).blobs ≡ some content
  delivered-blobs c k r rest content h enc e s = elim (Bool-cases (equal k.hash h)) [
    | inl same ↦
        let h_is = (equal_iff k.hash h).0 same in
        let k_encode =
          subst (λ (x : Bytes). api.encode_blob k.content ≡ some (x, k.enc)) h_is k.encode_is in
        rw (lookup-insert k.hash h k.content r.blobs, same)
          (ap some (law.hash-injective k.content content h k.enc enc k_encode e))
    | inr other ↦ rw (lookup-insert k.hash h k.content r.blobs, other) s
  ]

  Reads-done : (fuel : ℕ) (visited : List Bytes) → Reads fuel visited [] []
  unfolding read_full sent
  Reads-done fuel visited ks r rest s = (
    r,
    refl,
    record {
      left = s;
      kept = λ c v. (refl, refl);
      kept_blobs = λ content h enc e l. l;
      arrived = tt;
    },
  )

  Reads-visited :
      (fuel : ℕ) (visited stack out : List Bytes) (c : Bytes)
      → has_cid visited c ≡ true
      → Reads fuel visited stack out
      → Reads (suc fuel) visited (c ∷ stack) out
  unfolding read_full
  Reads-visited fuel visited stack out c old ih ks r rest s =
      let (last, e, f) = ih ks r rest s in (last, rw (read_full, old, e) refl, f)

  read_full-fresh :
      (fuel : ℕ) (visited stack : List Bytes) (c : Bytes) (r r2 last : Receiver)
      → has_cid visited c ≡ false
      → read_one_response api r c ≡ some r2
      → pushed api r2.tables c ≡ pushed api tables c
      → read_full api fuel filter_all (c ∷ visited) (pushed api tables c ++ stack) r2 ≡ some last
      → read_full api (suc fuel) filter_all visited (c ∷ stack) r ≡ some last
  unfolding read_full include_cid
  read_full-fresh fuel visited stack c r r2 last new e1 e2 e3 = rw (read_full, new, e1, e2, e3) refl

  front :
      (h enc s rest : Bytes) → ((((1 ∷ h) ++ enc) ++ s) ++ rest) ≡ 1 ∷ (h ++ (enc ++ (s ++ rest)))
  front h enc s rest =
      ap (λ (t : Bytes). 1 ∷ t) (append_assoc (h ++ enc) s rest ∙ append_assoc h enc (s ++ rest))

  Follows-Arrived :
      (visited out : List Bytes) (c : Bytes) (k : Held api p law tables open_blob c)
      (r last : Receiver) (behind rest : Bytes)
      → Follows (c ∷ visited) out (delivered api p law tables open_blob c k r behind) last rest
      → Arrived last c
  unfolding put
  Follows-Arrived visited out c k r last behind rest f =
      let same = f.kept c (ground (arith, has_cid-cons c visited c, equal_self c)) in
      let hash_is = same.0 ∙ lookup-insert_self c k.hash r.tables.hashes in
      record {
        agrees = (
          hash_is ∙ sym k.hash_is,
          same.1 ∙ lookup-insert_self c k.links r.tables.links ∙ sym k.links_is,
        );
        hash = k.hash;
        content = k.content;
        hash_is = hash_is;
        open_is = k.open_is;
        stored =
            f.kept_blobs k.content k.hash k.enc k.encode_is
              (lookup-insert_self k.hash k.content r.blobs);
      }

  Follows-kept :
      (visited out : List Bytes) (c x : Bytes) (k : Held api p law tables open_blob c)
      (r last : Receiver) (behind rest : Bytes)
      → has_cid visited c ≡ false
      → has_cid visited x ≡ true
      → Follows (c ∷ visited) out (delivered api p law tables open_blob c k r behind) last rest
      → Agrees x last.tables r.tables
  Follows-kept visited out c x k r last behind rest new old f =
      let other : equal c x ≡ false = elim (Bool-cases (equal c x)) [
        | inl same ↦
            let clash = ap (has_cid visited) ((equal_iff c x).0 same) in
            absurd (ground (arith, clash))
        | inr n ↦ n
      ] in
      let same = f.kept x (ground (arith, has_cid-cons c visited x)) in
      let before = delivered-Agrees c x k r behind other in (same.0 ∙ before.0, same.1 ∙ before.1)

  Reads-fresh :
      (fuel : ℕ) (visited stack out : List Bytes) (c : Bytes)
      → has_cid visited c ≡ false
      → Reads fuel (c ∷ visited) (pushed api tables c ++ stack) out
      → Reads (suc fuel) visited (c ∷ stack) (c ∷ out)
  unfolding sent
  Reads-fresh fuel visited stack out c new ih (k, ks) r rest s =
      let behind = sent out ks ++ rest in
      let r2 = delivered api p law tables open_blob c k r behind in
      let (last, e, f) = ih ks r2 rest refl in
      (
        last,
        read_full-fresh fuel visited stack c r r2 last new
            (read_one_response-Held api p law tables open_blob c k r behind
              (s ∙ front k.hash k.enc (sent out ks) rest))
            (pushed-delivered c k r behind) e,
        record {
          left = f.left;
          kept = λ x v. Follows-kept visited out c x k r last behind rest new v f;
          kept_blobs = λ content h enc en l.
              f.kept_blobs content h enc en (delivered-blobs c k r behind content h enc en l);
          arrived = (Follows-Arrived visited out c k r last behind rest f, f.arrived);
        },
      )

  stops :
      (fuel : ℕ) (visited stack : List Bytes) (c : Bytes)
      → has_cid visited c ≡ false
      → traverse api fuel filter_all tables (c ∷ visited) (pushed api tables c ++ stack) ≡ none
      → traverse api (suc fuel) filter_all tables visited (c ∷ stack) ≡ none
  unfolding traverse
  stops fuel visited stack c new e = rw (traverse, new, e) refl

  -- The receiver's loop keeps step with the server's.
  pub read_full-Reads :
      (fuel : ℕ) (visited stack out : List Bytes)
      → traverse api fuel filter_all tables visited stack ≡ some out
      → Reads fuel visited stack out
  unfolding traverse include_cid
  read_full-Reads fuel visited [] out e =
      subst (Reads fuel visited []) (some-injective e) (Reads-done fuel visited)
  read_full-Reads zero visited (c ∷ stack) out e = absurd (ground arith)
  read_full-Reads (suc fuel) visited (c ∷ stack) out e = elim (Bool-cases (has_cid visited c)) [
    | inl old ↦ Reads-visited fuel visited stack out c old (
        read_full-Reads fuel visited stack out
          (sym (traverse-visited api filter_all tables fuel visited c stack old) ∙ e))
    | inr new ↦
        elim (Option-cases
          (traverse api fuel filter_all tables (c ∷ visited) (pushed api tables c ++ stack))) [
            | inl stuck ↦ absurd (ground (arith, stops fuel visited stack c new stuck))
            | inr (rest, t) ↦
                subst (Reads (suc fuel) visited (c ∷ stack))
                  (some-injective (
                    sym (traverse-fresh api filter_all tables fuel visited c stack rest new t) ∙ e))
                  (Reads-fresh fuel visited stack rest c new
                    (read_full-Reads fuel (c ∷ visited) (pushed api tables c ++ stack) rest t))
          ]
  ]
