-- ===== src/Dtrain/Events/Run.antt =====
-- The ranks of a group over any sequence of events.
use go_iroh_experiments.Base.{
  ℕ, ◌≤◌, ◌≡◌, refl, sym, ap₂, ◌∙◌, Bool, true, false, List, [], ◌∷◌, none, some, inl, inr,
  if◌then◌else◌, ltb, arith, drop, length, length-append, Bytes, Bool-cases, Option-cases, equal,
  equal_iff, codes,
}
use go_iroh_experiments.Dtrain.Api.{Api, Announcement, leave}
use go_iroh_experiments.Dtrain.Group.{
  Member, Event, Group, find_rank, has_member, ranking, same_members, emit_locked, event_capacity,
  refresh_locked, set_member, remove_member, zero_id, sort_members, next_members, rank_from,
}
use go_iroh_experiments.Dtrain.Events.{
  TopicEvent, neighbor_up, neighbor_down, received, other_event, handle, handle_received,
  handle_join, handle_broadcast, announcement_addr, deliver_broadcast, leave_group, new_group,
}
use go_iroh_experiments.Dtrain.Group.Ranks.{AreDistinct, IsIdText, count_below, find_rank-ranking}
use go_iroh_experiments.Dtrain.Group.Agree.{
  insert-AreDistinct, remove-AreDistinct, count_below-agrees,
}

-- One turn of the loop in `run` at a time, the end of that loop, or a receive by the consumer.
pub data Turn : Type 0 where
  event : TopicEvent → ℕ → Turn
  ended : Bool → Turn
  taken : Turn

unfoldable pub turn : Api → Group → Turn → Group
turn api g (event ev now) = (handle api g ev now).0
turn api g (ended by_error) = leave_group api g by_error
turn api g taken = record g { events = drop 1 g.events }

unfoldable pub turns : Api → Group → List Turn → Group
turns api g [] = g
turns api g (t ∷ ts) = turns api (turn api g t) ts

-- The ranked list is the ranking of the map, and events wait in the channel's bound.
pub record IsRanked (api : Api) (g : Group) : Type 0 where
  pub distinct : AreDistinct g.members
  pub ranks : (id : Bytes) → find_rank id g.ranked ≡ find_rank id (ranking api g.members)
  pub bounded : length g.events ≤ event_capacity

module _ (api : Api) where
  same_members-find_rank :
      (id : Bytes) (ms ns : List Member)
      → same_members api ms ns ≡ true
      → find_rank id ms ≡ find_rank id ns
  unfolding same_members find_rank
  same_members-find_rank id [] [] h = refl
  same_members-find_rank id [] (n ∷ ns) h = cc
  same_members-find_rank id (m ∷ ms) [] h = cc
  same_members-find_rank id (m ∷ ms) (n ∷ ns) h =
      ground (arith, equal_iff m.id n.id, same_members-find_rank id ms ns)

  length-drop_le : (es : List Event) → length (drop 1 es) ≤ length es
  length-drop_le [] = omega arith
  length-drop_le (e ∷ es) = omega arith

  emit-IsRanked : (g : Group) (e : Event) → IsRanked api g → IsRanked api (emit_locked g e)
  unfolding emit_locked
  emit-IsRanked g e v = elim (Bool-cases g.closed) [
    | inl c ↦ simp c v
    | inr o ↦ simp o (elim (Bool-cases (ltb (length g.events) event_capacity)) [
      | inl room ↦ rw room (record {
        distinct = v.distinct;
        ranks = v.ranks;
        bounded = ground (arith, length-append g.events (e ∷ []));
      })
      | inr full ↦ rw full v
    ])
  ]

  refresh-IsRanked :
      (g : Group)
      → AreDistinct g.members
      → length g.events ≤ event_capacity
      → IsRanked api (refresh_locked api g)
  unfolding refresh_locked
  refresh-IsRanked g d b = elim (Bool-cases (same_members api g.ranked (ranking api g.members))) [
    | inl same ↦ rw same (record {
      distinct = d;
      ranks = λ id. same_members-find_rank id g.ranked (ranking api g.members) same;
      bounded = b;
    })
    | inr new ↦
        rw new (emit-IsRanked _ _ (record { distinct = d; ranks = λ id. refl; bounded = b }))
  ]

  set_member-IsRanked :
      (g : Group) (id addr : Bytes) (now : ℕ)
      → IsRanked api g
      → IsRanked api (set_member api g id addr now)
  unfolding set_member
  set_member-IsRanked g id addr now v =
      refresh-IsRanked _ (insert-AreDistinct id _ g.members v.distinct) v.bounded

  remove_member-IsRanked :
      (g : Group) (id : Bytes) → IsRanked api g → IsRanked api (remove_member api g id)
  unfolding remove_member
  remove_member-IsRanked g id v =
      refresh-IsRanked _ (remove-AreDistinct id g.members v.distinct) v.bounded

  handle_join-IsRanked :
      (g : Group) (a : Announcement) (now : ℕ)
      → IsRanked api g
      → IsRanked api (handle_join api g a now)
  unfolding handle_join
  handle_join-IsRanked g a now v = elim (Option-cases (api.parse_id a.id)) [
    | inl e ↦ rw (e, handle_join) v
    | inr (id, e) ↦ elim (Option-cases (announcement_addr api id a.addrs)) [
      | inl f ↦ rw (e, handle_join, f) v
      | inr (addr, f) ↦ rw (e, handle_join, f) (set_member-IsRanked g id addr now v)
    ]
  ]

  handle_broadcast-IsRanked :
      (g : Group) (content : Bytes) → IsRanked api g → IsRanked api (handle_broadcast api g content)
  unfolding handle_broadcast deliver_broadcast
  handle_broadcast-IsRanked g content v = elim (Option-cases (api.unmarshal_broadcast content)) [
    | inl e ↦ rw (e, handle_broadcast) v
    | inr (b, e) ↦
        rw (e, handle_broadcast)
          (elim (Bool-cases (equal b.type (codes "dtrain.broadcast"))) [
            | inl f ↦ rw f (record { distinct = v.distinct; ranks = v.ranks; bounded = v.bounded })
            | inr f ↦ rw f v
          ])
  ]

  handle_received-IsRanked :
      (g : Group) (content : Bytes) (now : ℕ)
      → IsRanked api g
      → IsRanked api (handle_received api g content now)
  unfolding handle_received
  handle_received-IsRanked g content now v =
      elim (Option-cases (api.unmarshal_announcement content)) [
        | inl e ↦ rw (e, handle_received) (handle_broadcast-IsRanked g content v)
        | inr (a, e) ↦
            rw (e, handle_received)
              (elim (Bool-cases (equal a.type (codes "dtrain.join"))) [
                | inl f ↦ rw f (handle_join-IsRanked g a now v)
                | inr f ↦ rw f (handle_broadcast-IsRanked g content v)
              ])
      ]

  leave-IsRanked : (g : Group) (b : Bool) → IsRanked api g → IsRanked api (leave_group api g b)
  unfolding leave_group
  leave-IsRanked g true v =
      let e = emit-IsRanked g (record { kind = leave; peer = zero_id; members = none }) v in
      record { distinct = e.distinct; ranks = e.ranks; bounded = e.bounded }
  leave-IsRanked g false v = record { distinct = v.distinct; ranks = v.ranks; bounded = v.bounded }

  turn-IsRanked : (g : Group) (t : Turn) → IsRanked api g → IsRanked api (turn api g t)
  unfolding turn handle
  turn-IsRanked g (event (neighbor_up p) now) v =
      emit-IsRanked _ _ (set_member-IsRanked g p (api.new_addr p) now v)
  turn-IsRanked g (event (neighbor_down p) now) v = emit-IsRanked _ _ (remove_member-IsRanked g p v)
  turn-IsRanked g (event (received c) now) v = handle_received-IsRanked g c now v
  turn-IsRanked g (event other_event now) v = v
  turn-IsRanked g (ended b) v = leave-IsRanked g b v
  turn-IsRanked g taken v = record {
    distinct = v.distinct;
    ranks = v.ranks;
    bounded = omega (arith, length-drop_le g.events, v.bounded);
  }

  pub turns-IsRanked : (g : Group) (ts : List Turn) → IsRanked api g → IsRanked api (turns api g ts)
  unfolding turns
  turns-IsRanked g [] v = v
  turns-IsRanked g (t ∷ ts) v = turns-IsRanked (turn api g t) ts (turn-IsRanked g t v)

  pub new_group-IsRanked :
      (name self addr : Bytes) (h : Bool) (now : ℕ)
      → IsRanked api (new_group api name self addr h now)
  unfolding new_group ranking sort_members next_members rank_from
  new_group-IsRanked name self addr h now =
      set_member-IsRanked _ self addr now
        (record { distinct = tt; ranks = λ id. refl; bounded = omega arith })

  pub turns-rank :
      (texts : IsIdText api) (name self addr : Bytes) (h : Bool) (now : ℕ) (ts : List Turn)
      (id : Bytes)
      → let g = turns api (new_group api name self addr h now) ts in
        (find_rank id g.ranked
          ≡ (if has_member g id then some (count_below api (api.id_string id) g.members) else none))
        × (length g.events ≤ event_capacity)
  unfolding has_member
  turns-rank texts name self addr h now ts id =
      let g = turns api (new_group api name self addr h now) ts in
      let v = turns-IsRanked _ ts (new_group-IsRanked name self addr h now) in
      (v.ranks id ∙ find_rank-ranking api texts id g.members v.distinct, v.bounded)

  -- Two groups that know the same members give every endpoint the same rank, whatever events each
  -- has seen and in whatever order.
  pub turns-rank_agrees :
      (texts : IsIdText api) (name1 self1 addr1 name2 self2 addr2 : Bytes) (h1 h2 : Bool)
      (now1 now2 : ℕ) (ts1 ts2 : List Turn) (id : Bytes)
      → ((k : Bytes)
          → has_member (turns api (new_group api name1 self1 addr1 h1 now1) ts1) k
            ≡ has_member (turns api (new_group api name2 self2 addr2 h2 now2) ts2) k)
      → find_rank id (turns api (new_group api name1 self1 addr1 h1 now1) ts1).ranked
        ≡ find_rank id (turns api (new_group api name2 self2 addr2 h2 now2) ts2).ranked
  unfolding has_member
  turns-rank_agrees texts name1 self1 addr1 name2 self2 addr2 h1 h2 now1 now2 ts1 ts2 id same =
      let g1 = turns api (new_group api name1 self1 addr1 h1 now1) ts1 in
      let g2 = turns api (new_group api name2 self2 addr2 h2 now2) ts2 in
      let v1 = turns-IsRanked _ ts1 (new_group-IsRanked name1 self1 addr1 h1 now1) in
      let v2 = turns-IsRanked _ ts2 (new_group-IsRanked name2 self2 addr2 h2 now2) in
      let count =
        count_below-agrees api (api.id_string id) g1.members g2.members v1.distinct v2.distinct
          same in
      (turns-rank texts name1 self1 addr1 h1 now1 ts1 id).0
      ∙ ap₂ (λ (b : Bool) (n : ℕ). if b then some n else none) (same id) count
      ∙ sym ((turns-rank texts name2 self2 addr2 h2 now2 ts2 id).0)
