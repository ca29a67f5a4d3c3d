-- ===== src/Dtrain/Exchange.antt =====
-- dtrain/group.go: one peer's contribution to a collective, by a connection to it or from a channel.
-- What a call meets outside the group is an argument: `dial` is what a connection to an address
-- leads to, and `arrivals` are the frames that come through the channel of the call's number, in
-- order, until the deadline.
use go_iroh_experiments.Base.{
  ℕ, ◌+◌, ◌%◌, ◌^◌, Bool, not, List, [], ◌∷◌, Option, none, some, ltb, if◌then◌else◌, length, Bytes,
  equal,
}
use go_iroh_experiments.Dtrain.Api.{Api}
use go_iroh_experiments.Dtrain.Frame.{
  AllReduceFrame, FrameError, Result, ok, err, write_all_reduce, read_all_reduce,
}
use go_iroh_experiments.Dtrain.Group.{Member, Group, update}

-- `Op`
abbrev pub sum : ℕ
sum = 0

abbrev pub mean : ℕ
mean = 1

abbrev pub max : ℕ
max = 2

pub data CollectiveError : Type 0 where
  no_handler not_member no_address not_connected no_identity identity_mismatch : CollectiveError
  no_stream not_encoded bad_from response_mismatch deadline length_differs : CollectiveError
  unknown_peer empty_group not_divisible not_every_member not_sent : CollectiveError
  bad_response : FrameError → CollectiveError
  missing_rank : ℕ → CollectiveError

-- A connection: the identity that it verified, whether a stream opens, and the bytes that the peer
-- sends when it has read a request.
pub record Connection : Type 0 where
  pub remote : Bytes
  pub opens : Bool
  pub answer : Bytes → Bytes

abbrev pub Dial : Type 0
Dial = Bytes → Option Connection

-- What a collective passes to each exchange.
pub record Session : Type 0 where
  pub group : Group
  pub rank : ℕ
  pub seq : ℕ
  pub op : ℕ
  pub values : List ℕ
  pub dial : Dial

-- `g.seq.Add(1)`
abbrev pub next_seq : ℕ → ℕ
next_seq n = (n + 1) % 2 ^ 64

-- `publishLocal` and `clearLocal`
unfoldable pub publish_local : Group → ℕ → List ℕ → Group
publish_local g seq values = record g {
  pending = update g.pending seq (some values);
  inbound = update g.inbound seq (some (record { capacity = length g.ranked; frames = [] }));
}

unfoldable pub clear_local : Group → ℕ → Group
clear_local g seq = record g {
  pending = update g.pending seq none;
  inbound = update g.inbound seq none;
}

-- `waitInboundFrame`: the next frame, or the deadline.
unfoldable pub wait_inbound_frame :
    List AllReduceFrame → Result CollectiveError (AllReduceFrame × List AllReduceFrame)
wait_inbound_frame [] = err deadline
wait_inbound_frame (f ∷ fs) = ok (f, fs)

module _ (api : Api) where
  -- The frame that `exchange` writes.
  unfoldable pub request : Session → AllReduceFrame
  request s = record {
    group = s.group.name;
    seq = s.seq;
    op = s.op;
    from = api.id_string s.group.self;
    values = s.values;
  }

  -- The response on the stream of a verified connection.
  unfoldable pub read_response : Bytes → Bytes → Result CollectiveError (List ℕ)
  read_response remote s = elim (read_all_reduce api s) [
    | err e ↦ err (bad_response e)
    | ok (frame, rest) ↦ elim (api.parse_id frame.from) [
      | none ↦ err bad_from
      | some from ↦ if not (equal from remote) then err response_mismatch else ok frame.values
    ]
  ]

  -- The part of `exchange` behind the dialing.
  unfoldable pub exchange_on : Session → Member → Connection → Result CollectiveError (List ℕ)
  exchange_on s m conn =
      if api.is_zero conn.remote
      then err no_identity
      else if not (equal conn.remote m.id)
      then err identity_mismatch
      else if not conn.opens
      then err no_stream
      else elim (write_all_reduce api (request s)) [
        | none ↦ err not_encoded
        | some b ↦ read_response conn.remote (conn.answer b)
      ]

  unfoldable pub exchange : Session → Member → Result CollectiveError (List ℕ)
  exchange s m =
      if api.addr_is_empty m.addr
      then err no_address
      else elim (s.dial m.addr) [ none ↦ err not_connected | some conn ↦ exchange_on s m conn ]

  -- One peer's contribution: a member exchanges with the lower ranks, and waits for the higher.
  unfoldable pub hear :
      Session
      → Member
      → List AllReduceFrame
      → Result CollectiveError (AllReduceFrame × List AllReduceFrame)
  hear s m arrivals =
      if ltb m.rank s.rank
      then elim (exchange s m) [
        | err e ↦ err e
        | ok peer ↦ ok (record (request s) { from = api.id_string m.id; values = peer }, arrivals)
      ]
      else wait_inbound_frame arrivals
