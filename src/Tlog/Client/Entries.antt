-- ===== src/Tlog/Client/Entries.antt =====
-- An entry that is returned is proved to be in the head's tree.
use go_iroh_experiments.Base.{
  ◌≡◌, ap, ◌∙◌, true, false, List, some, arith, inl, inr, Option-cases, Bytes,
}
use go_iroh_experiments.Go.Int.{ℤ, is_neg, ltb_ℤ}
use go_iroh_experiments.Tlog.Witness.{Head}
use go_iroh_experiments.Tlog.Client.{Client, ok, Records, prove_entry, read_entry, entry}

-- `content` is the blob of an index within the head's tree, and a proof of it checks.
pub record Included (r : Records) (c : Client) (index : ℤ) (content : Bytes) : Type 0 where
  pub head : Head
  pub proof : List Bytes
  pub head_is : c.head ≡ some head
  pub index_nonneg : is_neg index ≡ false
  pub index_lt : ltb_ℤ index head.checkpoint.tree_n ≡ true
  pub blob_is : r.entry_blob index ≡ some content
  pub proves : r.prove_record head.checkpoint index ≡ some proof
  pub checks :
      r.check_record proof head.checkpoint.tree_n head.checkpoint.tree_hash index
        (r.record_hash content)
      ≡ true

read_entry-Included :
    (r : Records) (c : Client) (h : Head) (index : ℤ) (content : Bytes)
    → c.head ≡ some h
    → read_entry r h.checkpoint index ≡ ok content
    → Included r c index content
unfolding read_entry prove_entry
read_entry-Included r c h index content e ok_entry = elim (Option-cases (r.entry_blob index)) [
  | inl n ↦ absurd (ground arith)
  | inr (blob, b) ↦ elim (Option-cases (r.prove_record h.checkpoint index)) [
    | inl n ↦ absurd (ground arith)
    | inr (proof, p) ↦
        let same : blob ≡ content = ground arith in
        record {
          head = h;
          proof = proof;
          head_is = e;
          index_nonneg = ground arith;
          index_lt = ground arith;
          blob_is = b ∙ ap some same;
          proves = p;
          checks = ground arith;
        }
  ]
]

-- `Entry` returns content only if the client has a head, the index lies in its tree, the content is the
-- source's blob for that index, and an inclusion proof of it checks against the head's root hash.
pub entry-Included :
    (r : Records) (c : Client) (index : ℤ) (content : Bytes)
    → entry r c index ≡ ok content
    → Included r c index content
unfolding entry
entry-Included r c index content e = elim (Option-cases c.head) [
  | inl n ↦ absurd (ground arith)
  | inr (h, some_head) ↦ read_entry-Included r c h index content some_head (ground arith)
]
