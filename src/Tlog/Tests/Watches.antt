-- ===== src/Tlog/Tests/Watches.antt =====
-- A watch that sees one checkpoint twice.
use go_iroh_experiments.Base.{◌≡◌, refl, true, List, [], ◌∷◌, codes, equal}
use go_iroh_experiments.Base.Dict.{lookup, remove}
use go_iroh_experiments.Go.Hex.{hex_encode, hex_digit}
use go_iroh_experiments.Go.Strings.{trim_newline, split_lines}
use go_iroh_experiments.Go.Int.{parse_int}
use go_iroh_experiments.Go.Decimal.{parse_uint, parse_digits}
use go_iroh_experiments.Go.BigEndian.{big_endian}
use go_iroh_experiments.Tlog.Checkpoint.{
  parse_checkpoint, parse_lines, parse_size, starts_with_zero, is_empty,
}
use go_iroh_experiments.Tlog.Equivocation.{envelope, env_checkpoint, open_envelope, kind_byte}
use go_iroh_experiments.Tlog.Notes.{split_note, contains}
use go_iroh_experiments.Tlog.Policy.{open_policy, open_with, check_policy, count_cosigned, id_text}
use go_iroh_experiments.Tlog.Client.{update, update_with, update_head}
use go_iroh_experiments.Tlog.Client.Watch.{
  Event, arrives, yields_checkpoint, new_watch, watch, step, received, receive_checkpoint, process,
  processed, accepted, same_checkpoint, yield, unpark, best_message,
}
use go_iroh_experiments.Tlog.Client.Watch.Kept.{checkpoints_of}
use go_iroh_experiments.Tlog.Client.Watch.Rising.{Rises, watch-Rises}
use go_iroh_experiments.Tlog.Tests.{test_api, twelve, message}
use go_iroh_experiments.Tlog.Tests.Runs.{reader, no_proofs}

abbrev announced : List Event
announced =
    arrives no_proofs (envelope env_checkpoint (message (codes "h"))) true
    ∷ arrives no_proofs (envelope env_checkpoint (message (codes "h"))) true
    ∷ []

yields_once : (watch test_api (new_watch reader) announced).yielded ≡ yields_checkpoint twelve ∷ []
unfolding watch new_watch step received receive_checkpoint process processed accepted
    same_checkpoint yield unpark best_message update update_with update_head open_envelope envelope
    kind_byte open_policy open_with check_policy split_note parse_checkpoint parse_lines parse_size
    starts_with_zero contains id_text count_cosigned trim_newline split_lines is_empty parse_int
    parse_uint parse_digits equal hex_encode big_endian hex_digit lookup remove
yields_once = refl

watch-Rises_example : Rises (checkpoints_of (watch test_api (new_watch reader) announced).yielded)
watch-Rises_example = watch-Rises test_api reader announced
