-- ===== src/Dtrain/Handler.antt =====
-- dtrain/group.go: the handler that serves the frames of peers to registered groups. A group is a
-- reference; `find` is the group that a reference stands for at that moment.
pub mod Authentic
pub mod Moves
pub mod Races
use go_iroh_experiments.Base.{
  ℕ, ◌+◌, Bool, true, false, not, ◌||◌, List, [], ◌∷◌, ◌++◌, Option, none, some, ltb, ◌==◌,
  if◌then◌else◌, length, Bytes, equal,
}
use go_iroh_experiments.Base.Dict.{Map, lookup, insert, remove}
use go_iroh_experiments.Dtrain.Api.{Api}
use go_iroh_experiments.Dtrain.Frame.{AllReduceFrame, ok, err, write_all_reduce, read_all_reduce}
use go_iroh_experiments.Dtrain.Group.{Channel, Group, update, has_member}

-- `Handler`
pub record Handler : Type 0 where
  pub groups : Map ℕ

unfoldable pub register : Handler → Bytes → ℕ → Handler
register h name g = record { groups = insert name g h.groups }

-- Another group that took the name stays registered.
unfoldable pub unregister : Handler → Bytes → ℕ → Handler
unregister h name g = elim (lookup name h.groups) [
  | none ↦ h
  | some other ↦ if other == g then record { groups = remove name h.groups } else h
]

-- A send that does not block: a full channel drops the frame.
unfoldable pub send : Channel → AllReduceFrame → Channel
send ch f =
    if ltb (length ch.frames) ch.capacity then record ch { frames = ch.frames ++ (f ∷ []) } else ch

-- `deliverInbound`
unfoldable pub deliver_inbound : Group → AllReduceFrame → Group
unfolding send
deliver_inbound g f = elim (g.inbound f.seq) [
  | none ↦ g
  | some ch ↦ record g { inbound = update g.inbound f.seq (some (send ch f)) }
]

-- One look of `waitLocal`: the vector is put back; `none` looks again later.
unfoldable pub wait_local : Group → ℕ → Option (List ℕ)
wait_local g seq = g.pending seq

module _ (api : Api) where
  -- The checks of `serve` on the sender of a frame.
  unfoldable pub is_from : Bytes → AllReduceFrame → Bool
  is_from remote f = elim (api.parse_id f.from) [ none ↦ false | some from ↦ equal from remote ]

  unfoldable pub admit_frame :
      Handler → (ℕ → Group) → Bytes → AllReduceFrame → Option (ℕ × AllReduceFrame)
  unfolding is_from
  admit_frame h find remote f =
      if not (is_from remote f) then none else elim (lookup f.group h.groups) [
        | none ↦ none
        | some g ↦ if not (has_member (find g) remote) then none else some (g, f)
      ]

  -- `serve` up to the delivery: the group and the frame, where the stream is not dropped.
  unfoldable pub admit : Handler → (ℕ → Group) → Bytes → Bytes → Option (ℕ × AllReduceFrame)
  admit h find remote s = if api.is_zero remote then none else elim (read_all_reduce api s) [
    | err e ↦ none
    | ok (f, rest) ↦ admit_frame h find remote f
  ]

  -- The frame that `serve` answers with.
  unfoldable pub response : Group → AllReduceFrame → List ℕ → AllReduceFrame
  response g f values = record {
    group = f.group;
    seq = f.seq;
    op = f.op;
    from = api.id_string g.self;
    values = values;
  }

  -- One look for the local vector; `none` where it is not there yet, or cannot be encoded.
  unfoldable pub reply : Group → AllReduceFrame → Option Bytes
  unfolding wait_local response
  reply g f = elim (wait_local g f.seq) [
    | none ↦ none
    | some values ↦ write_all_reduce api (response g f values)
  ]
