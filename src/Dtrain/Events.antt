-- ===== src/Dtrain/Events.antt =====
-- dtrain/group.go: what a group does with gossip events.
pub mod Run
use go_iroh_experiments.Base.{
  ℕ, suc, Bool, true, false, not, ◌&&◌, List, [], ◌∷◌, ◌++◌, Option, none, some, ltb, ◌==◌,
  if◌then◌else◌, ◌>>=◌, length, replicate, Bytes, codes, equal,
}
use go_iroh_experiments.Base.Dict.{Map, lookup, insert, remove}
use go_iroh_experiments.Go.Strings.{str_ltb}
use go_iroh_experiments.Dtrain.Api.{Api, EventKind, join, leave, membership, Announcement}
use go_iroh_experiments.Dtrain.Frame.{AllReduceFrame}
use go_iroh_experiments.Dtrain.Group.{
  Member, MemberState, Event, Channel, Group, zero_id, update, emit_locked, set_member,
  remove_member,
}

module _ (api : Api) where
  -- `announcementAddr`
  unfoldable pub with_addrs : Bytes → List Bytes → Option Bytes
  with_addrs addr [] = some addr
  with_addrs addr (s ∷ ss) = do a ← api.parse_transport s; with_addrs (api.with_addr addr a) ss

  unfoldable pub announcement_addr : Bytes → List Bytes → Option Bytes
  announcement_addr id addrs = with_addrs (api.new_addr id) addrs

  -- The bytes that `announce` broadcasts, if they can be encoded.
  unfoldable pub announce : Group → List Bytes
  announce g =
      elim (api.marshal_announcement (record {
        type = codes "dtrain.join";
        id = api.id_string g.self;
        addrs = api.addr_strings g.self_addr;
      })) [ none ↦ [] | some b ↦ b ∷ [] ]

  -- `deliverBroadcast`: a channel that holds a message keeps it.
  unfoldable pub deliver_broadcast : Group → ℕ → Bytes → Group
  deliver_broadcast g seq payload = record g {
    bcast = update g.bcast seq (elim (g.bcast seq) [
      | none ↦ some (some payload)
      | some none ↦ some (some payload)
      | some (some held) ↦ some (some held)
    ]);
  }

  -- The two messages of a `Received` event.
  unfoldable pub handle_join : Group → Announcement → ℕ → Group
  handle_join g a now = elim (api.parse_id a.id) [
    | none ↦ g
    | some id ↦ elim (announcement_addr id a.addrs) [
      | none ↦ g
      | some addr ↦ set_member api g id addr now
    ]
  ]

  unfoldable pub handle_broadcast : Group → Bytes → Group
  handle_broadcast g content = elim (api.unmarshal_broadcast content) [
    | none ↦ g
    | some b ↦
        if equal b.type (codes "dtrain.broadcast") then deliver_broadcast g b.seq b.payload else g
  ]

  unfoldable pub handle_received : Group → Bytes → ℕ → Group
  handle_received g content now = elim (api.unmarshal_announcement content) [
    | none ↦ handle_broadcast g content
    | some a ↦
        if equal a.type (codes "dtrain.join")
        then handle_join g a now
        else handle_broadcast g content
  ]

-- A gossip event; the other kinds are not handled.
pub data TopicEvent : Type 0 where
  neighbor_up neighbor_down received : Bytes → TopicEvent
  other_event : TopicEvent

module _ (api : Api) where
  -- `handle` at the time `now`, with what it broadcasts.
  unfoldable pub handle : Group → TopicEvent → ℕ → Group × List Bytes
  handle g (neighbor_up peer) now =
      let g2 = set_member api g peer (api.new_addr peer) now in
      (
        emit_locked g2 (record { kind = join; peer = peer; members = some g2.ranked }),
        announce api g2,
      )
  handle g (neighbor_down peer) now =
      let g2 = remove_member api g peer in
      (emit_locked g2 (record { kind = leave; peer = peer; members = some g2.ranked }), [])
  handle g (received content) now = (handle_received api g content now, [])
  handle g other_event now = (g, [])

  -- What `run` does when the stream of events ends, by an error or not.
  unfoldable pub leave_group : Group → Bool → Group
  leave_group g failed =
      let g2 =
        if failed
        then emit_locked g (record { kind = leave; peer = zero_id; members = none })
        else g in
      record g2 { closed = true }

  -- The group that `JoinGroupWithHandler` makes, behind `setMember`.
  unfoldable pub new_group : Bytes → Bytes → Bytes → Bool → ℕ → Group
  new_group name self self_addr has_handler now =
      let empty : Group = record {
        name = name;
        self = self;
        self_addr = self_addr;
        has_handler = has_handler;
        members = [];
        ranked = [];
        events = [];
        closed = false;
        seq = 0;
        bseq = 0;
        pending = λ seq. none;
        inbound = λ seq. none;
        bcast = λ seq. none;
      } in
      set_member api empty self self_addr now
