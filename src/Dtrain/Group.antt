-- ===== src/Dtrain/Group.antt =====
-- dtrain/group.go: a group's membership, its ranks and its events. A mutex makes each operation one
-- step; the consumer of the event channel is outside. Channels and maps by sequence number are
-- functions of the number.
pub mod Ranks
pub mod Agree
use go_iroh_experiments.Base.{
  ℕ, suc, Bool, true, false, not, ◌&&◌, List, [], ◌∷◌, ◌++◌, Option, none, some, ltb, ◌==◌,
  if◌then◌else◌, ◌>>=◌, length, replicate, Bytes, codes, equal,
}
use go_iroh_experiments.Base.Dict.{Map, lookup, insert, remove}
use go_iroh_experiments.Go.Strings.{str_ltb}
use go_iroh_experiments.Dtrain.Api.{Api, EventKind, join, leave, membership, Announcement}
use go_iroh_experiments.Dtrain.Frame.{AllReduceFrame}

pub record Member : Type 0 where
  pub id : Bytes
  pub rank : ℕ
  pub addr : Bytes

-- `memberState`; `seen` is in nanoseconds.
pub record MemberState : Type 0 where
  pub addr : Bytes
  pub seen : ℕ

-- `peer` is `zero_id` where it is not set; `members` is `none` for a nil slice.
pub record Event : Type 0 where
  pub kind : EventKind
  pub peer : Bytes
  pub members : Option (List Member)

-- A channel of frames with its capacity.
pub record Channel : Type 0 where
  pub capacity : ℕ
  pub frames : List AllReduceFrame

-- `Group`, with its endpoint's ID and address. A channel in `pending` holds one vector, one in
-- `bcast` one message at most.
pub record Group : Type 0 where
  pub name : Bytes
  pub self : Bytes
  pub self_addr : Bytes
  pub has_handler : Bool
  pub members : Map MemberState
  pub ranked : List Member
  pub events : List Event
  pub closed : Bool
  pub seq : ℕ
  pub bseq : ℕ
  pub pending : ℕ → Option (List ℕ)
  pub inbound : ℕ → Option Channel
  pub bcast : ℕ → Option (Option Bytes)

abbrev pub zero_id : Bytes
zero_id = replicate 32 0

-- The capacity of `events`
abbrev pub event_capacity : ℕ
event_capacity = 128

-- `m[seq] = v`
abbrev pub update {ℓ} : {V : Type ℓ} → (ℕ → V) → ℕ → V → ℕ → V
update m seq v j = if j == seq then v else m j

-- `emitLocked`: a full channel drops the event.
unfoldable pub emit_locked : Group → Event → Group
emit_locked g ev =
    if g.closed
    then g
    else if ltb (length g.events) event_capacity
    then record g { events = g.events ++ (ev ∷ []) }
    else g

-- `rankOf` of the local endpoint: `Rank` searches the ranked list, `none` stands for -1.
unfoldable pub find_rank : Bytes → List Member → Option ℕ
find_rank id [] = none
find_rank id (m ∷ ms) = if equal m.id id then some m.rank else find_rank id ms

unfoldable pub rank : Group → Option ℕ
rank g = find_rank g.self g.ranked

unfoldable pub has_member : Group → Bytes → Bool
has_member g id = elim (lookup id g.members) [ none ↦ false | some st ↦ true ]

-- The loop of `refreshLocked` over the map, in the order of its iterator.
unfoldable pub next_members : Map MemberState → List Member
next_members [] = []
next_members ((id, st) ∷ m) = record { id = id; rank = 0; addr = st.addr } ∷ next_members m

unfoldable pub rank_from : ℕ → List Member → List Member
rank_from i [] = []
rank_from i (m ∷ ms) = record m { rank = i } ∷ rank_from (suc i) ms

-- `slices.Equal` of two lists of texts
unfoldable pub equal_texts : List Bytes → List Bytes → Bool
equal_texts [] [] = true
equal_texts (x ∷ xs) (y ∷ ys) = equal x y && equal_texts xs ys
equal_texts _ _ = false

module _ (api : Api) where
  -- `slices.SortFunc` by `cmpString` of the ID's texts
  unfoldable pub insert_member : Member → List Member → List Member
  insert_member m [] = m ∷ []
  insert_member m (x ∷ xs) =
      let rest = insert_member m xs in
      if str_ltb (api.id_string x.id) (api.id_string m.id) then x ∷ rest else m ∷ x ∷ xs

  unfoldable pub sort_members : List Member → List Member
  sort_members [] = []
  sort_members (m ∷ ms) = insert_member m (sort_members ms)

  unfoldable pub same_member : Member → Member → Bool
  same_member a b =
      equal a.id b.id
      && (a.rank == b.rank && equal_texts (api.addr_strings a.addr) (api.addr_strings b.addr))

  -- `slices.EqualFunc(ranked, next, sameMember)`
  unfoldable pub same_members : List Member → List Member → Bool
  unfolding same_member
  same_members [] [] = true
  same_members (m ∷ ms) (n ∷ ns) = same_member m n && same_members ms ns
  same_members _ _ = false

  -- The ranking of a map of members.
  unfoldable pub ranking : Map MemberState → List Member
  ranking m = rank_from 0 (sort_members (next_members m))

  unfoldable pub refresh_locked : Group → Group
  refresh_locked g =
      let next = ranking g.members in
      if same_members g.ranked next
      then g
      else emit_locked (record g { ranked = next })
          (record { kind = membership; peer = zero_id; members = some next })

  -- The address that a member keeps: an empty one does not replace another.
  unfoldable pub kept_addr : Group → Bytes → Bytes → Bytes
  kept_addr g id addr = elim (lookup id g.members) [
    | none ↦ addr
    | some old ↦
        if api.addr_is_empty addr && not (api.addr_is_empty old.addr) then old.addr else addr
  ]

  unfoldable pub set_member : Group → Bytes → Bytes → ℕ → Group
  unfolding kept_addr
  set_member g id addr seen = refresh_locked (record g {
    members = insert id (record { addr = kept_addr g id addr; seen = seen }) g.members;
  })

  unfoldable pub remove_member : Group → Bytes → Group
  remove_member g id = refresh_locked (record g { members = remove id g.members })
