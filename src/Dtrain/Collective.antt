-- ===== src/Dtrain/Collective.antt =====
-- dtrain/group.go: AllReduce, AllGather, ReduceScatter, Broadcast and Barrier. The membership does not
-- change during a call.
pub mod Reduced
pub mod Exact
pub mod Agree
pub mod Shards
pub mod Gathered
use go_iroh_experiments.Base.{
  ℕ, zero, suc, ◌+◌, ◌*◌, ◌/◌, ◌%◌, ◌^◌, Bool, true, false, not, ◌&&◌, List, [], ◌∷◌, ◌++◌, Option,
  none, some, ltb, ◌==◌, if◌then◌else◌, length, map, take, drop, set, replicate, Bytes, codes,
  equal,
}
use go_iroh_experiments.Go.Int.{pos, eq_ℤ}
use go_iroh_experiments.Dtrain.Api.{Api}
use go_iroh_experiments.Dtrain.Frame.{
  AllReduceFrame, FrameError, Result, ok, err, ◌>>=◌, write_all_reduce, read_all_reduce,
}
use go_iroh_experiments.Dtrain.Group.{Member, Group, rank, update}
use go_iroh_experiments.Dtrain.Exchange.{
  sum, mean, max, CollectiveError, Connection, Dial, Session, next_seq, publish_local, clear_local,
  wait_inbound_frame, request, read_response, exchange_on, exchange, hear, no_handler, not_member,
  no_address, not_connected, no_identity, identity_mismatch, no_stream, not_encoded, bad_from,
  response_mismatch, deadline, length_differs, unknown_peer, empty_group, not_divisible,
  not_every_member, not_sent, bad_response, missing_rank,
}

-- `reduceInto`, for vectors of one length
unfoldable pub reduce_into : Api → ℕ → List ℕ → List ℕ → List ℕ
reduce_into api op (d ∷ ds) (v ∷ vs) =
    (if op == max then (if api.gt v d then v else d) else api.add d v) ∷ reduce_into api op ds vs
reduce_into api op ds [] = ds
reduce_into api op [] vs = []

-- `rankOfMember`
unfoldable pub rank_of_member : Api → List Member → Bytes → Option ℕ
rank_of_member api [] id = none
rank_of_member api (m ∷ ms) id =
    if equal (api.id_string m.id) id then some m.rank else rank_of_member api ms id

module _ (api : Api) where
  -- The loop of `AllReduce`
  unfoldable pub reduce_members :
      Session → List Member → List AllReduceFrame → List ℕ → Result CollectiveError (List ℕ)
  reduce_members s [] arrivals out = ok out
  reduce_members s (m ∷ ms) arrivals out = elim (m.rank == s.rank) [
    | true ↦ reduce_members s ms arrivals out
    | false ↦ elim (hear api s m arrivals) [
      | err e ↦ err e
      | ok (peer, later) ↦ elim (length peer.values == length out) [
        | false ↦ err length_differs
        | true ↦ reduce_members s ms later (reduce_into api s.op out peer.values)
      ]
    ]
  ]

  -- The division for `Mean`
  unfoldable pub scaled : ℕ → ℕ → List ℕ → List ℕ
  scaled op n out =
      if op == mean && ltb 0 n then map (λ v. api.quotient v (api.of_int n)) out else out

  unfoldable pub reduced : Session → List AllReduceFrame → Result CollectiveError (List ℕ)
  reduced s arrivals = do
    out ← reduce_members s s.group.ranked arrivals s.values
    ok (scaled s.op (length s.group.ranked) out)

  unfoldable pub all_reduce :
      Group → List ℕ → ℕ → Dial → List AllReduceFrame → Group × Result CollectiveError (List ℕ)
  all_reduce g values op dial arrivals =
      if not g.has_handler then (g, err no_handler) else elim (rank g) [
        | none ↦ (g, err not_member)
        | some r ↦
            let seq = next_seq g.seq in
            let g2 = publish_local (record g { seq = seq }) seq values in
            (
              clear_local g2 seq,
              reduced
                  (record {
                    group = g2;
                    rank = r;
                    seq = seq;
                    op = op;
                    values = values;
                    dial = dial;
                  })
                  arrivals,
            )
      ]

  -- The loop of `AllGather`; `none` in the parts is a rank that `have` does not mark.
  unfoldable pub gather_members :
      Session
      → List Member
      → List AllReduceFrame
      → List (Option (List ℕ))
      → Result CollectiveError (List (Option (List ℕ)))
  gather_members s [] arrivals parts = ok parts
  gather_members s (m ∷ ms) arrivals parts = elim (m.rank == s.rank) [
    | true ↦ gather_members s ms arrivals parts
    | false ↦ elim (hear api s m arrivals) [
      | err e ↦ err e
      | ok (frame, later) ↦ elim (rank_of_member api s.group.ranked frame.from) [
        | none ↦ err unknown_peer
        | some peer_rank ↦ elim (length frame.values == length s.values) [
          | false ↦ err length_differs
          | true ↦ gather_members s ms later (set parts peer_rank (some frame.values))
        ]
      ]
    ]
  ]

  -- The parts in rank order; `i` is the rank of the first.
  unfoldable pub join_parts : ℕ → List (Option (List ℕ)) → Result CollectiveError (List ℕ)
  join_parts i [] = ok []
  join_parts i (none ∷ parts) = err (missing_rank i)
  join_parts i (some part ∷ parts) = do rest ← join_parts (suc i) parts; ok (part ++ rest)

  unfoldable pub gathered : Session → List AllReduceFrame → Result CollectiveError (List ℕ)
  gathered s arrivals = do
    parts ←
        gather_members s s.group.ranked arrivals
          (set (replicate (length s.group.ranked) none) s.rank (some s.values))
    join_parts 0 parts

  unfoldable pub all_gather :
      Group → List ℕ → Dial → List AllReduceFrame → Group × Result CollectiveError (List ℕ)
  all_gather g values dial arrivals =
      if not g.has_handler then (g, err no_handler) else elim (rank g) [
        | none ↦ (g, err not_member)
        | some r ↦
            let seq = next_seq g.seq in
            let g2 = publish_local (record g { seq = seq }) seq values in
            (
              clear_local g2 seq,
              gathered
                  (record {
                    group = g2;
                    rank = r;
                    seq = seq;
                    op = sum;
                    values = values;
                    dial = dial;
                  })
                  arrivals,
            )
      ]

  -- `reduced[start : start+shard]` for the rank `r` of `n`
  unfoldable pub shard_of : ℕ → ℕ → List ℕ → List ℕ
  shard_of n r reduced = let shard = length reduced / n in take shard (drop (r * shard) reduced)

  unfoldable pub shard_result :
      ℕ → ℕ → Result CollectiveError (List ℕ) → Result CollectiveError (List ℕ)
  unfolding shard_of
  shard_result n r (err e) = err e
  shard_result n r (ok reduced) = ok (shard_of n r reduced)

  unfoldable pub reduce_scatter :
      Group → List ℕ → ℕ → Dial → List AllReduceFrame → Group × Result CollectiveError (List ℕ)
  reduce_scatter g values op dial arrivals = elim (rank g) [
    | none ↦ (g, err not_member)
    | some r ↦
        let n = length g.ranked in
        if n == 0
        then (g, err empty_group)
        else if not (length values % n == 0)
        then (g, err not_divisible)
        else let (g2, result) = all_reduce g values op dial arrivals in
          (g2, shard_result n r result)
  ]

  -- `Barrier`; the bits of the float32 1.
  abbrev pub one : ℕ
  one = 1065353216

  unfoldable pub is_every_member : Group → List ℕ → Bool
  is_every_member g (v ∷ []) = eq_ℤ (api.to_int v) (pos (length g.ranked))
  is_every_member g _ = false

  unfoldable pub barrier :
      Group → Dial → List AllReduceFrame → Group × Result CollectiveError (Unit {0})
  barrier g dial arrivals =
      let (g2, result) = all_reduce g (one ∷ []) sum dial arrivals in
      (
        g2,
        elim result [
          | err e ↦ err e
          | ok out ↦ if is_every_member g2 out then ok tt else err not_every_member
        ],
      )

  -- One look of `waitBroadcast` at its channel: it is made if it is not there, and `none` waits on.
  unfoldable pub wait_broadcast : Group → ℕ → Group × Option Bytes
  wait_broadcast g seq = elim (g.bcast seq) [
    | some (some payload) ↦ (record g { bcast = update g.bcast seq none }, some payload)
    | _ ↦ (record g { bcast = update g.bcast seq (some none) }, none)
  ]

  -- `Broadcast`, with the message that rank 0 sends; another rank waits once.
  unfoldable pub broadcast :
      Group → Bytes → Group × List Bytes × Result CollectiveError (Option Bytes)
  broadcast g rank0_data =
      let seq = next_seq g.bseq in
      let g2 = record g { bseq = seq } in
      elim (rank g2) [
        | none ↦ (g2, [], err not_member)
        | some zero ↦
            elim (api.marshal_broadcast
              (record { type = codes "dtrain.broadcast"; seq = seq; payload = rank0_data })) [
                | none ↦ (g2, [], err not_encoded)
                | some msg ↦ (g2, msg ∷ [], ok (some rank0_data))
              ]
        | some (suc r) ↦ let (g3, payload) = wait_broadcast g2 seq in (g3, [], ok payload)
      ]
