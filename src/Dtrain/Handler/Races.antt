-- ===== src/Dtrain/Handler/Races.antt =====
-- The orders in which a group's calls and the frames of its peers can meet.
use go_iroh_experiments.Base.{
  ℕ, zero, suc, ◌≤◌, ◌≡◌, refl, sym, ap, ◌∙◌, subst, true, false, ◌==◌, All, List, [], ◌∷◌, Option,
  none, some, ltb, ==_iff, arith, length, take,
}
use go_iroh_experiments.Dtrain.Api.{Api}
use go_iroh_experiments.Dtrain.Frame.{AllReduceFrame, ok, err, ◌>>=◌, write_all_reduce}
use go_iroh_experiments.Dtrain.Group.{Channel, Member, Group, rank}
use go_iroh_experiments.Dtrain.Collective.{all_reduce, reduced, reduce_members, scaled}
use go_iroh_experiments.Dtrain.Exchange.{
  Session, publish_local, clear_local, Dial, deadline, hear, wait_inbound_frame, next_seq,
}
use go_iroh_experiments.Dtrain.Collective.Reduced.{
  session, all_reduce-reduced, Hears, done, itself, peer, vectors_of, fold, reduce_members-Hears,
}
use go_iroh_experiments.Dtrain.Handler.{deliver_inbound, wait_local, reply, response}
use go_iroh_experiments.Dtrain.Handler.Moves.{
  Move, moves, IsOther, frames_for, channel_of, take_none, update_self, deliver-absent,
  pending-moves, inbound-moves,
}

-- What waits in the channel of a number.
abbrev pub frames_left : Group → ℕ → List AllReduceFrame
frames_left g seq = elim (g.inbound seq) [ none ↦ [] | some ch ↦ ch.frames ]

take_all : (k : ℕ) (fs : List AllReduceFrame) → length fs ≤ k → take k fs ≡ fs
take_all zero [] h = refl
take_all zero (f ∷ fs) h = absurd (omega arith)
take_all (suc k) [] h = refl
take_all (suc k) (f ∷ fs) h = ap (◌∷◌ f) (take_all k fs (omega arith))

early_frame_lost :
    (g : Group) (f : AllReduceFrame) (values : List ℕ)
    → g.inbound f.seq ≡ none
    → frames_left (publish_local (deliver_inbound g f) f.seq values) f.seq ≡ []
unfolding publish_local
early_frame_lost g f values absent =
    rw (deliver-absent g f absent, (==_iff f.seq f.seq).1 refl, frames_left) refl

module _ (api : Api) where
  -- Rank 0 waits for all others, and hears the frames in the order in which they came.
  first-Hears :
      (s : Session) (ms : List Member) (frames : List AllReduceFrame)
      → s.rank ≡ 0
      → All (λ m. (m.rank == 0) ≡ false) ms
      → length frames ≡ length ms
      → Hears api s ms frames frames
  unfolding hear wait_inbound_frame
  first-Hears s [] [] first others size = done
  first-Hears s [] (f ∷ fs) first others size = absurd (omega arith)
  first-Hears s (m ∷ ms) [] first others size = absurd (omega arith)
  first-Hears s (m ∷ ms) (f ∷ fs) first others size =
      let waits : ltb m.rank s.rank ≡ false = ground (arith, first) in
      peer (rw first others.0) (rw (hear, waits) refl)
        (first-Hears s ms fs first others.1 (omega arith))

  frames_in_time :
      (g : Group) (seq : ℕ) (values : List ℕ) (ms : List Move)
      → IsOther seq ms
      → length (frames_for seq ms) ≤ length g.ranked
      → frames_left (moves (publish_local g seq values) ms) seq ≡ frames_for seq ms
  unfolding publish_local
  frames_in_time g seq values ms o few =
      let there =
        inbound-moves (publish_local g seq values) ms seq (length g.ranked) []
          (update_self g.inbound seq _
            ∙ ap (λ (fs : List AllReduceFrame). some (channel_of (length g.ranked) fs))
                (sym (take_none (length g.ranked))))
          o in
      ap
        (λ (c : Option Channel). elim c as (λ _. List AllReduceFrame) [
          | none ↦ []
          | some ch ↦ ch.frames
        ])
        there
      ∙ take_all (length g.ranked) (frames_for seq ms) few

  reply_in_time :
      (g : Group) (f : AllReduceFrame) (values : List ℕ) (ms : List Move)
      → IsOther f.seq ms
      → reply api (moves (publish_local g f.seq values) ms) f
        ≡ write_all_reduce api (response api (moves (publish_local g f.seq values) ms) f values)
  unfolding reply wait_local publish_local
  reply_in_time g f values ms o =
      rw
        (
          pending-moves (publish_local g f.seq values) ms f.seq (some values)
              (update_self g.pending f.seq _) o,
          reply,
        )
        refl

  -- While a call of rank 0 is under way, in a group with a handler, as many frames of its number are
  -- delivered as the group has other members, with vectors of the call's length, and between them
  -- any other calls begin and end. If the call then reads what the channel holds, it returns the
  -- vectors of exactly those frames, combined with its own in the order of their arrival; and a
  -- handler that looks meanwhile answers any frame of the call with the call's vector.
  pub served_in_time :
      (g : Group) (values : List ℕ) (op : ℕ) (dial : Dial) (me : Member) (others : List Member)
      (ms : List Move)
      → g.has_handler ≡ true
      → rank g ≡ some 0
      → g.ranked ≡ me ∷ others
      → me.rank ≡ 0
      → All (λ m. (m.rank == 0) ≡ false) others
      → IsOther (next_seq g.seq) ms
      → length (frames_for (next_seq g.seq) ms) ≡ length others
      → All (λ v. length v ≡ length values) (vectors_of api (frames_for (next_seq g.seq) ms))
      → ((all_reduce api g values op dial
            (frames_left (moves (session api g 0 values op dial).group ms) (next_seq g.seq))).1
          ≡ ok (
              scaled api op
                (length g.ranked)
                (fold api op values (vectors_of api (frames_for (next_seq g.seq) ms)))))
        × ((f : AllReduceFrame)
            → f.seq ≡ next_seq g.seq
            → reply api (moves (session api g 0 values op dial).group ms) f
              ≡ write_all_reduce api
                  (response api (moves (session api g 0 values op dial).group ms) f values))
  unfolding reduced publish_local
  served_in_time g values op dial me others ms served ranked all first rest o count sizes =
      let s = session api g 0 values op dial in
      let frames = frames_for s.seq ms in
      let here : Group = record g { seq = s.seq } in
      let left = frames_in_time here s.seq values ms o (omega (arith, ap length all, count)) in
      let heard : Hears api s g.ranked frames frames =
        subst (λ (rs : List Member). Hears api s rs frames frames) (sym all)
          (itself (rw first refl) (first-Hears s others frames refl rest count)) in
      let loop = reduce_members-Hears api s (length values) values heard refl sizes in
      (
        rw left (
            all_reduce-reduced api g 0 values op dial frames served ranked ∙ rw (loop, ◌>>=◌) refl),
        λ f e.
            subst
              (λ seq.
                reply api (moves (publish_local here seq values) ms) f
                ≡ write_all_reduce api
                    (response api (moves (publish_local here seq values) ms) f values))
              e (reply_in_time here f values ms (subst (λ seq. IsOther seq ms) (sym e) o)),
      )

  -- A handler that looks for the vector only when the call has returned never answers, whatever
  -- frames are delivered and whatever other calls begin and end: the call's number does not come
  -- again.
  pub late_reply_never :
      (g : Group) (f : AllReduceFrame) (ms : List Move)
      → IsOther f.seq ms
      → reply api (moves (clear_local g f.seq) ms) f ≡ none
  unfolding reply clear_local wait_local
  late_reply_never g f ms o =
      rw
        (
          pending-moves (clear_local g f.seq) ms f.seq none (update_self g.pending f.seq none) o,
          reply,
        )
        refl

  alone-blocks :
      (s : Session) (first second : Member)
      → s.rank ≡ 0
      → first.rank ≡ 0
      → second.rank ≡ 1
      → reduce_members api s (first ∷ second ∷ []) [] s.values ≡ err deadline
  unfolding reduce_members hear wait_inbound_frame
  alone-blocks s first second one own other = ground arith

  reduced-blocks :
      (s : Session) (first second : Member)
      → s.group.ranked ≡ first ∷ second ∷ []
      → s.rank ≡ 0
      → first.rank ≡ 0
      → second.rank ≡ 1
      → reduced api s [] ≡ err deadline
  unfolding reduced publish_local
  reduced-blocks s first second two one own other =
      let loop : reduce_members api s s.group.ranked [] s.values ≡ err deadline =
        ap (λ (ms : List Member). reduce_members api s ms [] s.values) two
        ∙ alone-blocks s first second one own other in
      rw (loop, ◌>>=◌) refl

  -- A frame that is delivered before the local call has published its vector is lost, though its
  -- sender is answered: a handler finds the vector that the call then publishes, but nothing is
  -- left in the channel, and a call of rank 0 in a group of two that goes by what is left there
  -- ends at its deadline.
  pub early_frame_blocks :
      (g : Group) (f : AllReduceFrame) (values : List ℕ) (op : ℕ) (dial : Dial)
      (first second : Member)
      → g.inbound f.seq ≡ none
      → g.has_handler ≡ true
      → rank g ≡ some 0
      → g.ranked ≡ first ∷ second ∷ []
      → first.rank ≡ 0
      → second.rank ≡ 1
      → (wait_local (publish_local (deliver_inbound g f) f.seq values) f.seq ≡ some values)
        × ((all_reduce api g values op dial
              (frames_left (publish_local (deliver_inbound g f) f.seq values) f.seq)).1
            ≡ err deadline)
  unfolding wait_local publish_local
  early_frame_blocks g f values op dial first second absent served ranked two one_first one_second =
      (
        update_self (deliver_inbound g f).pending f.seq (some values),
        rw (early_frame_lost g f values absent) (
            all_reduce-reduced api g 0 values op dial [] served ranked
            ∙ reduced-blocks (session api g 0 values op dial) first second two refl one_first
                one_second),
      )
