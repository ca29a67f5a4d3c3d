-- ===== src/Dtrain/Tests/Streams.antt =====
-- The theorems on shards, on senders and on the orders of deliveries, in a group of two.
use go_iroh_experiments.Base.{
  ℕ, zero, suc, ◌%◌, ◌<◌, ◌≡◌, refl, List, [], ◌∷◌, none, some, arith, length, codes, equal,
}
use go_iroh_experiments.Base.Dict.{lookup}
use go_iroh_experiments.Go.Uvarint.{
  uvarint, put_uvarint, get_uvarint, read_uvarint, put_field, get_field,
}
use go_iroh_experiments.Go.BigEndian.{big_endian, read_word}
use go_iroh_experiments.Dtrain.Frame.{
  AllReduceFrame, ok, err, write_all_reduce, read_all_reduce, header_of, write_values, to_uint64,
  read_header, read_vector, read_frame, read_full, read_values,
}
use go_iroh_experiments.Dtrain.Group.{Group, rank, find_rank, has_member}
use go_iroh_experiments.Dtrain.Collective.{
  scaled, all_reduce, reduce_scatter, reduced, reduce_members, reduce_into,
}
use go_iroh_experiments.Dtrain.Exchange.{
  Session, sum, hear, wait_inbound_frame, exchange, exchange_on, read_response, request,
  publish_local, clear_local, deadline,
}
use go_iroh_experiments.Dtrain.Collective.Shards.{concat_ranks, reduce_scatter-covers}
use go_iroh_experiments.Dtrain.Collective.Reduced.{session, fold, vectors_of}
use go_iroh_experiments.Dtrain.Handler.{
  Handler, admit, admit_frame, is_from, wait_local, reply, response, deliver_inbound,
}
use go_iroh_experiments.Dtrain.Handler.Authentic.{
  IsAuthentic, Answered, admit-IsAuthentic, exchange-Answered,
}
use go_iroh_experiments.Dtrain.Handler.Races.{
  frames_left, served_in_time, late_reply_never, early_frame_blocks,
}
use go_iroh_experiments.Dtrain.Handler.Moves.{
  Move, published, delivered, cleared, moves, frames_for,
}
use go_iroh_experiments.Dtrain.Tests.{test_api, written}
use go_iroh_experiments.Dtrain.Tests.Groups.{a, b, pair_at, dial_a, from_b, vectors}

abbrev member : ℕ → Group
member zero = pair_at (codes "a")
member (suc r) = pair_at (codes "b")

abbrev arrivals : ℕ → List AllReduceFrame
arrivals zero = from_b ∷ []
arrivals (suc r) = []

ranks_of_two : (r : ℕ) → r < 2 → rank (member r) ≡ some r
unfolding rank find_rank equal
ranks_of_two zero h = refl
ranks_of_two (suc zero) h = refl
ranks_of_two (suc (suc r)) h = absurd (omega arith)

sizes_of_two : (r : ℕ) → r < 2 → length (member r).ranked ≡ 2
sizes_of_two zero h = refl
sizes_of_two (suc r) h = refl

whole_of_two : (r : ℕ) → r < 2 → length (vectors r) % 2 ≡ 0
whole_of_two zero h = refl
whole_of_two (suc r) h = refl

-- Both ranks reduce to 4, 6: rank 0 hears the frame of `b`, and rank 1 dials `a`.
sums_of_two :
    (r : ℕ)
    → r < 2
    → (all_reduce test_api (member r) (vectors r) sum dial_a (arrivals r)).1 ≡ ok (4 ∷ 6 ∷ [])
unfolding rank find_rank equal all_reduce reduced reduce_members hear wait_inbound_frame scaled
    reduce_into exchange exchange_on read_response request publish_local read_all_reduce read_header
    read_vector read_frame read_full read_values write_all_reduce header_of put_field get_field
    uvarint put_uvarint get_uvarint read_uvarint big_endian read_word write_values to_uint64
sums_of_two zero h = refl
sums_of_two (suc zero) h = refl
sums_of_two (suc (suc r)) h = absurd (omega arith)

reduce_scatter-covers_example :
    (piece : ℕ → List ℕ) × ((r : ℕ)
      → r < 2
      → (reduce_scatter test_api (member r) (vectors r) sum dial_a (arrivals r)).1 ≡ ok (piece r))
    × ((r : ℕ) → r < 2 → length (piece r) ≡ 1)
    × (concat_ranks 2 piece ≡ 4 ∷ 6 ∷ [])
reduce_scatter-covers_example =
    reduce_scatter-covers test_api 2 member vectors sum (λ r. dial_a) arrivals (4 ∷ 6 ∷ [])
      (omega arith) ranks_of_two sizes_of_two whole_of_two sums_of_two

abbrev served : Handler
served = record { groups = (codes "g", 5) ∷ [] }

admit-IsAuthentic_example :
    IsAuthentic test_api served (λ g. pair_at (codes "a")) (codes "b") 5 from_b
unfolding admit admit_frame is_from has_member lookup equal read_all_reduce read_header read_vector
    read_frame read_full read_values write_all_reduce header_of put_field get_field uvarint
    put_uvarint get_uvarint read_uvarint big_endian read_word write_values to_uint64
admit-IsAuthentic_example =
    admit-IsAuthentic test_api served (λ g. pair_at (codes "a")) (codes "b")
      (written (codes "b") (3 ∷ 4 ∷ [])) 5 from_b refl

abbrev of_b : Session
of_b = session test_api (pair_at (codes "b")) 1 (3 ∷ 4 ∷ []) sum dial_a

exchange-Answered_example : Answered test_api of_b a (1 ∷ 2 ∷ [])
unfolding equal exchange exchange_on read_response request publish_local read_all_reduce read_header
    read_vector read_frame read_full read_values write_all_reduce header_of put_field get_field
    uvarint put_uvarint get_uvarint read_uvarint big_endian read_word write_values to_uint64
exchange-Answered_example = exchange-Answered test_api of_b a (1 ∷ 2 ∷ []) refl

-- A frame with the number of the call, and another call meanwhile.
abbrev meanwhile : List Move
meanwhile = published 2 (9 ∷ []) ∷ delivered from_b ∷ cleared 2 ∷ []

abbrev served_group : Group
served_group =
    moves (session test_api (pair_at (codes "a")) 0 (1 ∷ 2 ∷ []) sum dial_a).group meanwhile

served_in_time_example :
    ((all_reduce test_api
        (pair_at (codes "a"))
        (1 ∷ 2 ∷ [])
        sum
        dial_a
        (frames_left served_group 1)).1
      ≡ ok (
          scaled test_api sum 2
            (fold test_api sum (1 ∷ 2 ∷ []) (vectors_of test_api (frames_for 1 meanwhile)))))
    × ((f : AllReduceFrame)
        → f.seq ≡ 1
        → reply test_api served_group f
          ≡ write_all_reduce test_api (response test_api served_group f (1 ∷ 2 ∷ [])))
unfolding rank find_rank equal
served_in_time_example =
    served_in_time test_api (pair_at (codes "a")) (1 ∷ 2 ∷ []) sum dial_a a (b ∷ []) meanwhile refl
      refl refl refl (refl, tt) (refl, (refl, tt)) refl (refl, tt)

late_reply_never_example :
    reply test_api (moves (clear_local (pair_at (codes "a")) 1) meanwhile) from_b ≡ none
late_reply_never_example =
    late_reply_never test_api (pair_at (codes "a")) from_b meanwhile (refl, (refl, tt))

early_frame_blocks_example :
    (wait_local (publish_local (deliver_inbound (pair_at (codes "a")) from_b) 1 (1 ∷ 2 ∷ [])) 1
      ≡ some (1 ∷ 2 ∷ []))
    × ((all_reduce test_api (pair_at (codes "a")) (1 ∷ 2 ∷ []) sum dial_a (
          frames_left
            (publish_local (deliver_inbound (pair_at (codes "a")) from_b) 1 (1 ∷ 2 ∷ []))
            1)).1
        ≡ err deadline)
unfolding rank find_rank equal
early_frame_blocks_example =
    early_frame_blocks test_api (pair_at (codes "a")) from_b (1 ∷ 2 ∷ []) sum dial_a a b refl refl
      refl refl refl refl
