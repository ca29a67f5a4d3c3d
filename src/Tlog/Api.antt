-- ===== src/Tlog/Api.antt =====
-- What tlogiroh takes from golang.org/x/mod/sumdb/note and /tlog. Each function is a parameter.
use go_iroh_experiments.Base.{ℕ, ◌≡◌, Bool, false, List, Option, some, Bytes}
use go_iroh_experiments.Go.Int.{ℤ}
use go_iroh_experiments.Go.Strings.{has_newline}

-- checkpoint.go; the tree is tlog.Tree, its hash the 32 bytes of a tlog.Hash.
pub record Checkpoint : Type 0 where
  pub origin : Bytes
  pub tree_n : ℤ
  pub tree_hash : Bytes

-- note.Verifier by its name and key hash; note.Signature
pub record Verifier : Type 0 where
  pub name : Bytes
  pub key_hash : ℕ

pub record Signature : Type 0 where
  pub name : Bytes
  pub hash : ℕ
  pub base64 : Bytes

-- note.Note
pub record Note : Type 0 where
  pub text : Bytes
  pub sigs : List Signature
  pub unverified_sigs : List Signature

pub record Api : Type 0 where
  -- note.Open(msg, note.VerifierList(vs...)) and note.Sign(n, signer)
  pub open_note : List Verifier → Bytes → Option Note
  pub sign_note : Note → Bytes → Option Bytes
  -- tlog.Hash.String and tlog.ParseHash
  pub hash_string : Bytes → Bytes
  pub parse_hash : Bytes → Option Bytes
  -- tlog.CheckTree(proof, t, th, n, h) == nil
  pub check_tree : List Bytes → ℤ → Bytes → ℤ → Bytes → Bool

-- The text of a hash is one line that reads back.
pub record HasHashText (a : Api) : Type 0 where
  pub parse-string : (h : Bytes) → a.parse_hash (a.hash_string h) ≡ some h
  pub one_line : (h : Bytes) → has_newline (a.hash_string h) ≡ false
