-- ===== src/Tlog/Tests/Runs.antt =====
-- The theorems on witnesses, policies, clients and sources at the small log.
use go_iroh_experiments.Base.{
  ℕ, ◌≡◌, ◌↔◌, refl, ap, sym, ◌∙◌, List, [], ◌∷◌, ◌++◌, map, Option, none, some, arith, ◌&&◌, Bytes,
  codes, equal, some-injective,
}
use go_iroh_experiments.Go.Int.{ℤ, pos, parse_int}
use go_iroh_experiments.Go.Strings.{has_newline, trim_newline, split_lines}
use go_iroh_experiments.Go.Decimal.{parse_uint, parse_digits}
use go_iroh_experiments.Go.Hex.{hex_encode, hex_digit}
use go_iroh_experiments.Go.BigEndian.{big_endian}
use go_iroh_experiments.Tlog.Api.{Verifier, Note}
use go_iroh_experiments.Tlog.Checkpoint.{
  is_empty, parse_lines, parse_size, starts_with_zero, is_bad_origin, parse_checkpoint,
}
use go_iroh_experiments.Tlog.Equivocation.{
  Equivocation, Equivocates, verify_equivocation, verify_equivocation_iff,
}
use go_iroh_experiments.Tlog.Policy.{
  Policy, accepts, open_policy, open_with, check_policy, count_cosigned, id_text,
}
use go_iroh_experiments.Tlog.Policy.Threshold.{MeetsPolicy, IsPolicy, open_policy-MeetsPolicy}
use go_iroh_experiments.Tlog.Witness.{
  Witness, Prove, cosign, cosign_note, check_head, sign_and_store, keep_unverified,
}
use go_iroh_experiments.Tlog.Witness.Step.{Cosigns, cosign-Cosigns}
use go_iroh_experiments.Tlog.Witness.Heads.{HeadLe, run, run-HeadLe}
use go_iroh_experiments.Tlog.Witness.Proofs.{KeepsText, Reports, equivocation-verifies}
use go_iroh_experiments.Tlog.Witness.Loop.{Run, arrives, run_events}
use go_iroh_experiments.Tlog.Witness.Loop.Once.{SendsOnce, proofs_of, run_events-SendsOnce}
use go_iroh_experiments.Tlog.Client.{Client, ok, update, Records, entry, read_entry, prove_entry}
use go_iroh_experiments.Tlog.Client
use go_iroh_experiments.Tlog.Client.Accepted.{Updates, updates, update-Updates, calls-HeadLe}
use go_iroh_experiments.Tlog.Client.Entries.{Included, entry-Included}
use go_iroh_experiments.Tlog.Source.{Source, Entry, checkpoint_key, latest_key}
use go_iroh_experiments.Tlog.Source.Latest.{AreSizes, IsLatest, latest_key-IsLatest}
use go_iroh_experiments.Tlog.Notes.{contains, split_note-text, split_note, merge_signed_notes}
use go_iroh_experiments.Tlog.Notes.Merges.{Merges, merge_signed_notes-Merges}
use go_iroh_experiments.Tlog.Tests.{
  signature_of, opened_note, test_api, operator, friend, head_text, message, twelve,
}

abbrev new_witness : Witness
new_witness = record { origin = codes "log"; operator = operator; head = none }

abbrev pub no_proofs : Prove
no_proofs = λ cp n. none

cosign-Cosigns_example :
    Cosigns test_api
      (codes "w")
      no_proofs
      new_witness
      (message (codes "h"))
      (cosign test_api (codes "w") no_proofs new_witness (message (codes "h")))
cosign-Cosigns_example =
    cosign-Cosigns test_api (codes "w") no_proofs new_witness (message (codes "h"))

abbrev calls : List (Prove × Bytes)
calls = (no_proofs, message (codes "h")) ∷ []

run-HeadLe_example : HeadLe none (run test_api (codes "w") new_witness calls).head
run-HeadLe_example = run-HeadLe test_api (codes "w") calls new_witness

from_split :
    (vs : List Verifier) (m m' signer : Bytes) (n : Note) (split : Option (Bytes × Bytes))
    → split_note m ≡ split
    → opened_note vs split ≡ some n
    → test_api.sign_note (keep_unverified n) signer ≡ some m'
    → (n' : Note) × (test_api.open_note vs m' ≡ some n') × (n'.text ≡ n.text)
from_split vs m m' signer n none es o e = absurd (ground arith)
from_split vs m m' signer n (some (t, sigs)) es o e =
    let text : t ≡ n.text = ap (λ (x : Note). x.text) (some-injective o) in
    let m_is : t ++ (b'\n' ∷ signer) ≡ m' =
      ap (λ (x : Bytes). x ++ (b'\n' ∷ signer)) text ∙ some-injective e in
    (
      record { text = t; sigs = map signature_of vs; unverified_sigs = [] },
      ap (opened_note vs) (ap split_note (sym m_is) ∙ split_note-text m t sigs signer es),
      text,
    )

test_api-KeepsText : KeepsText test_api
test_api-KeepsText vs m m' signer n o e = from_split vs m m' signer n (split_note m) refl o e

abbrev record_at : ℕ → Entry
record_at n = record {
  namespace = codes "ns";
  author = codes "a";
  key = checkpoint_key n;
  hash = codes "h";
  len = 1;
}

abbrev log : List Entry
log = record_at 9 ∷ record_at 10 ∷ []

abbrev log_source : Source
log_source = record { doc = log; namespace = codes "ns"; author = codes "a"; get = λ h. none }

log-AreSizes : AreSizes log_source log
log-AreSizes = ((λ _. (9, omega arith, refl)), ((λ _. (10, omega arith, refl)), tt))

latest_key-IsLatest_example : IsLatest log_source log (latest_key log_source [] log)
latest_key-IsLatest_example = latest_key-IsLatest log_source log log-AreSizes

abbrev fork : Equivocation
fork = record { first = message (codes "h"); second = message (codes "k") }

verify_equivocation_iff_example :
    (verify_equivocation test_api fork (codes "log") operator ≡ some (pos 12))
    ↔ Equivocates test_api fork (codes "log") operator (pos 12)
verify_equivocation_iff_example =
    verify_equivocation_iff test_api fork (codes "log") operator (pos 12)

merge_signed_notes-Merges_example :
    (m : Bytes) × (merge_signed_notes
        (message (codes "h"))
        (head_text (codes "h") ++ (b'\n' ∷ codes "w\n"))
      ≡ some m)
    × Merges (head_text (codes "h")) (codes "op\n") (codes "w\n") m
unfolding split_note
merge_signed_notes-Merges_example =
    merge_signed_notes-Merges (message (codes "h")) (head_text (codes "h") ++ (b'\n' ∷ codes "w\n"))
      (head_text (codes "h")) (codes "op\n") (codes "w\n") (codes "op") refl refl refl

abbrev start : Run
start = record { witness = new_witness; pending = []; flooded = []; sent = [] }

start-SendsOnce : SendsOnce start
unfolding proofs_of
start-SendsOnce = record { distinct = tt; sent_are = refl }

run_events-SendsOnce_example :
    SendsOnce (run_events test_api (codes "w") start (arrives no_proofs (codes "x") ∷ []))
run_events-SendsOnce_example =
    run_events-SendsOnce test_api (codes "w") (arrives no_proofs (codes "x") ∷ []) start
      start-SendsOnce

abbrev policy : Policy
policy = record {
  origin = codes "log";
  operator = some operator;
  witnesses = friend ∷ [];
  k = pos 1;
}

abbrev cosigned_first : Witness
cosigned_first = run test_api (codes "w\n") new_witness calls

abbrev second_message : Bytes
second_message = message (codes "k")

fork-Reports :
    Reports
      (cosign test_api (codes "w\n") no_proofs cosigned_first second_message)
      (record { first = head_text (codes "h") ++ (b'\n' ∷ codes "w\n"); second = second_message })
unfolding run cosign cosign_note check_head sign_and_store split_note parse_checkpoint parse_lines
    parse_size starts_with_zero trim_newline split_lines is_empty parse_int parse_uint parse_digits
    equal
fork-Reports = refl

equivocation-verifies_example :
    (n : ℤ) × (verify_equivocation test_api
        (record { first = head_text (codes "h") ++ (b'\n' ∷ codes "w\n"); second = second_message })
        cosigned_first.origin
        cosigned_first.operator
      ≡ some n)
equivocation-verifies_example =
    equivocation-verifies test_api (codes "w\n") calls no_proofs new_witness second_message
      (record { first = head_text (codes "h") ++ (b'\n' ∷ codes "w\n"); second = second_message })
      test_api-KeepsText refl fork-Reports

policy-IsPolicy : IsPolicy policy operator
unfolding contains id_text hex_encode big_endian is_bad_origin has_newline equal
policy-IsPolicy = record {
  operator_is = refl;
  distinct = (refl, tt);
  not_operator = (refl, tt);
  k_nonneg = refl;
  k_le = omega arith;
  origin_good = refl;
}

message-accepted : open_policy test_api policy (message (codes "h")) ≡ accepts twelve
unfolding open_policy open_with check_policy split_note parse_checkpoint parse_lines parse_size
    starts_with_zero contains id_text count_cosigned trim_newline split_lines is_empty parse_int
    parse_uint parse_digits equal hex_encode big_endian hex_digit
message-accepted = refl

open_policy-MeetsPolicy_example : MeetsPolicy test_api policy (message (codes "h")) twelve
open_policy-MeetsPolicy_example =
    open_policy-MeetsPolicy test_api policy operator (message (codes "h")) twelve policy-IsPolicy
      message-accepted

abbrev pub reader : Client
reader = record { policy = policy; head = none }

update-Updates_example :
    Updates test_api reader
      (message (codes "h"))
      (update test_api no_proofs reader (message (codes "h")))
update-Updates_example = update-Updates test_api no_proofs reader (message (codes "h"))

calls-HeadLe_example :
    HeadLe none
      (Client.Accepted.run test_api reader (updates no_proofs (message (codes "h")) ∷ [])).head
calls-HeadLe_example = calls-HeadLe test_api (updates no_proofs (message (codes "h")) ∷ []) reader

abbrev with_tree : Client
with_tree = record {
  policy = policy;
  head = some (record { msg = message (codes "h"); checkpoint = twelve });
}

abbrev records : Records
records = record {
  entry_blob = λ n. some (codes "entry");
  prove_record = λ c n. some (codes "proof" ∷ []);
  check_record = λ proof n root index h. equal root (codes "h") && equal h (codes "entry");
  record_hash = λ content. content;
}

third-read : entry records with_tree (pos 3) ≡ ok (codes "entry")
unfolding entry read_entry prove_entry equal
third-read = refl

entry-Included_example : Included records with_tree (pos 3) (codes "entry")
entry-Included_example = entry-Included records with_tree (pos 3) (codes "entry") third-read
