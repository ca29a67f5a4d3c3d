-- ===== src/Tlog/Tests.antt =====
-- A small log in place of the packages, and the theorems on checkpoints and notes at it.
mod Runs
mod Watches
mod Operators
use go_iroh_experiments.Base.{
  ℕ, ◌+◌, ◌-◌, ◌≡◌, ◌↔◌, refl, ap, ap₂, sym, ◌∙◌, Bool, false, List, [], ◌∷◌, ◌++◌, map, Option,
  none, some, ◌>>=◌, arith, ltb, if◌then◌else◌, ◌||◌, ◌&&◌, Bytes, codes, equal, some-injective,
}
use go_iroh_experiments.Go.Int.{ℤ, pos, parse_int}
use go_iroh_experiments.Go.Strings.{has_newline, trim_newline, split_lines}
use go_iroh_experiments.Go.Decimal.{format_uint, parse_uint, parse_digits}
use go_iroh_experiments.Go.Hex.{hex_encode, hex_digit}
use go_iroh_experiments.Go.BigEndian.{big_endian}
use go_iroh_experiments.Tlog.Api.{Checkpoint, Verifier, Signature, Note, Api, HasHashText}
use go_iroh_experiments.Tlog.Checkpoint.{
  line, is_empty, parse_lines, parse_size, starts_with_zero, is_bad_origin, marshal_text,
  parse_checkpoint,
}
use go_iroh_experiments.Tlog.Checkpoint.RoundTrip.{parse-marshal_text, parse_checkpoint-plus}
use go_iroh_experiments.Tlog.Checkpoint.Sound.{IsWellFormed, parse_checkpoint-IsWellFormed}
use go_iroh_experiments.Tlog.Equivocation.{
  Equivocation, Equivocates, verify_equivocation, verify_equivocation_iff, marshal_binary,
  unmarshal_binary, unmarshal-marshal_binary,
}
use go_iroh_experiments.Tlog.Policy.{
  Policy, accepts, open_policy, open_with, check_policy, count_cosigned, id_text,
}
use go_iroh_experiments.Tlog.Policy.Threshold.{MeetsPolicy, IsPolicy, open_policy-MeetsPolicy}
use go_iroh_experiments.Tlog.Witness.{
  Witness, Prove, cosign, cosign_note, check_head, sign_and_store, keep_unverified,
}
use go_iroh_experiments.Tlog.Witness.Step.{Cosigns, cosign-Cosigns}
use go_iroh_experiments.Tlog.Witness.Heads.{HeadLe, run, run-HeadLe}
use go_iroh_experiments.Tlog.Witness.Proofs.{KeepsText, Reports, equivocation-verifies}
use go_iroh_experiments.Tlog.Witness.Loop.{Run, arrives, run_events}
use go_iroh_experiments.Tlog.Witness.Loop.Once.{SendsOnce, proofs_of, run_events-SendsOnce}
use go_iroh_experiments.Tlog.Client.{Client, ok, update, Records, entry, read_entry, prove_entry}
use go_iroh_experiments.Tlog.Client
use go_iroh_experiments.Tlog.Client.Accepted.{Updates, updates, update-Updates, calls-HeadLe}
use go_iroh_experiments.Tlog.Client.Entries.{Included, entry-Included}
use go_iroh_experiments.Tlog.Source.{Source, Entry, checkpoint_key, str_ltb, latest_key}
use go_iroh_experiments.Tlog.Source.Order.{checkpoint_key_order}
use go_iroh_experiments.Tlog.Source.Latest.{AreSizes, IsLatest, latest_key-IsLatest}
use go_iroh_experiments.Tlog.Notes.{contains, split_note-text, split_note, merge_signed_notes}
use go_iroh_experiments.Tlog.Notes.Merges.{Merges, merge_signed_notes-Merges}

-- A hash's text: each byte moved past the newline.
abbrev shift : Bytes → Bytes
shift [] = []
shift (b ∷ bs) = (b + 11) ∷ shift bs

abbrev unshift : Bytes → Bytes
unshift [] = []
unshift (b ∷ bs) = (b - 11) ∷ unshift bs

unshift-shift : (h : Bytes) → unshift (shift h) ≡ h
unshift-shift [] = refl
unshift-shift (b ∷ bs) = ap₂ ◌∷◌ (omega arith) (unshift-shift bs)

shift-one_line : (h : Bytes) → has_newline (shift h) ≡ false
unfolding has_newline
shift-one_line [] = refl
shift-one_line (b ∷ bs) = ground (arith, shift-one_line bs)

abbrev pub signature_of : Verifier → Signature
signature_of v = record { name = v.name; hash = v.key_hash; base64 = [] }

-- A note that is signed at all is signed by every verifier.
abbrev pub opened_note : List Verifier → Option (Bytes × Bytes) → Option Note
opened_note vs none = none
opened_note vs (some (t, sigs)) =
    some (record { text = t; sigs = map signature_of vs; unverified_sigs = [] })

abbrev pub is_proof : List Bytes → Bytes → Bytes → Bool
is_proof [] th h = false
is_proof (p ∷ ps) th h = equal p (h ++ th)

abbrev pub test_api : Api
test_api = record {
  open_note = λ vs msg. opened_note vs (split_note msg);
  sign_note = λ n signer. some (n.text ++ (b'\n' ∷ signer));
  hash_string = shift;
  parse_hash = λ s. some (unshift s);
  check_tree = λ proof t th n h. is_proof proof th h;
}

test_api-HasHashText : HasHashText test_api
test_api-HasHashText = record {
  parse-string = λ h. ap some (unshift-shift h);
  one_line = shift-one_line;
}

parse-marshal_text_example :
    (marshal_text test_api (record { origin = codes "log"; tree_n = pos 12; tree_hash = codes "h" })
      >>= parse_checkpoint test_api)
    ≡ (if is_bad_origin (codes "log")
        then none
        else some (record { origin = codes "log"; tree_n = pos 12; tree_hash = codes "h" }))
parse-marshal_text_example =
    parse-marshal_text test_api (codes "log") (codes "h") 12 test_api-HasHashText (omega arith)

abbrev pub twelve : Checkpoint
twelve = record { origin = codes "log"; tree_n = pos 12; tree_hash = codes "h" }

abbrev plus_text : Bytes
plus_text = line (codes "log") (line (b'+' ∷ format_uint 12) (line (shift (codes "h")) []))

parse_checkpoint-plus_example :
    (parse_checkpoint test_api plus_text ≡ some twelve)
    × (marshal_text test_api twelve
        ≡ some (line (codes "log") (line (format_uint 12) (line (shift (codes "h")) []))))
unfolding is_bad_origin has_newline
parse_checkpoint-plus_example =
    parse_checkpoint-plus test_api (codes "log") (codes "h") 12 test_api-HasHashText (omega arith)
      refl

abbrev pub operator : Verifier
operator = record { name = codes "op"; key_hash = 1 }

abbrev pub friend : Verifier
friend = record { name = codes "w"; key_hash = 2 }

-- The operator's notes of two trees of one size.
abbrev pub head_text : Bytes → Bytes
head_text h = line (codes "log") (line (codes "12") (line (shift h) []))

abbrev pub message : Bytes → Bytes
message h = head_text h ++ (b'\n' ∷ codes "op\n")
