-- ===== src/Dtrain/Collective/Reduced.antt =====
-- What AllReduce computes: the vectors that it hears, combined with its own.
use go_iroh_experiments.Base.{
  ℕ, suc, ◌≡◌, refl, sym, ap, ◌∙◌, true, false, List, [], ◌∷◌, some, inl, inr, ◌==◌, ==_iff, arith,
  length, All, Bool-cases,
}
use go_iroh_experiments.Dtrain.Api.{Api}
use go_iroh_experiments.Dtrain.Frame.{AllReduceFrame, ok, Result-cases}
use go_iroh_experiments.Dtrain.Group.{Member, Group, rank}
use go_iroh_experiments.Dtrain.Collective.{reduce_into, reduce_members, reduced, all_reduce}
use go_iroh_experiments.Dtrain.Exchange.{Session, Dial, hear, publish_local, next_seq}

module _ (api : Api) where
  -- The session in which a group of a rank calls AllReduce.
  abbrev pub session : Group → ℕ → List ℕ → ℕ → Dial → Session
  session g r values op dial =
      let seq = next_seq g.seq in
      record {
        group = publish_local (record g { seq = seq }) seq values;
        rank = r;
        seq = seq;
        op = op;
        values = values;
        dial = dial;
      }

  pub length-reduce_into : (op : ℕ) (ds vs : List ℕ) → length (reduce_into api op ds vs) ≡ length ds
  unfolding reduce_into
  length-reduce_into op [] [] = refl
  length-reduce_into op [] (v ∷ vs) = refl
  length-reduce_into op (d ∷ ds) [] = refl
  length-reduce_into op (d ∷ ds) (v ∷ vs) = ap suc (length-reduce_into op ds vs)

  -- The frames that the loop hears from the other members, one after the other.
  pub data Hears (s : Session)
      : List Member → List AllReduceFrame → List AllReduceFrame → Type 0 where
    done : {arrivals : List AllReduceFrame} → Hears s [] arrivals []
    itself :
        {m : Member} {ms : List Member} {arrivals frames : List AllReduceFrame}
        → (m.rank == s.rank) ≡ true
        → Hears s ms arrivals frames
        → Hears s (m ∷ ms) arrivals frames
    peer :
        {m : Member} {ms : List Member} {arrivals later frames : List AllReduceFrame}
        {frame : AllReduceFrame}
        → (m.rank == s.rank) ≡ false
        → hear api s m arrivals ≡ ok (frame, later)
        → Hears s ms later frames
        → Hears s (m ∷ ms) arrivals (frame ∷ frames)

  abbrev pub vectors_of : List AllReduceFrame → List (List ℕ)
  vectors_of [] = []
  vectors_of (f ∷ fs) = f.values ∷ vectors_of fs

  abbrev pub fold : ℕ → List ℕ → List (List ℕ) → List ℕ
  fold op out [] = out
  fold op out (v ∷ vs) = fold op (reduce_into api op out v) vs

  pub reduce_members-Hears :
      (s : Session) {ms : List Member} {arrivals frames : List AllReduceFrame} (n : ℕ)
      (out : List ℕ)
      → Hears s ms arrivals frames
      → length out ≡ n
      → All (λ v. length v ≡ n) (vectors_of frames)
      → reduce_members api s ms arrivals out ≡ ok (fold s.op out (vectors_of frames))
  unfolding reduce_members
  reduce_members-Hears s n out done size h = refl
  reduce_members-Hears s n out (itself e more) size h =
      rw (e, reduce_members) (reduce_members-Hears s n out more size h)
  reduce_members-Hears s n out (peer {frame = f} e heard more) size h =
      rw (e, reduce_members, heard, (==_iff (length f.values) (length out)).1 (h.0 ∙ sym size))
        (reduce_members-Hears s n (reduce_into api s.op out f.values) more
          (length-reduce_into s.op out f.values ∙ size) h.1)

  -- The vector keeps its length.
  pub length-reduce_members :
      (s : Session) (ms : List Member) (arrivals : List AllReduceFrame) (out result : List ℕ)
      → reduce_members api s ms arrivals out ≡ ok result
      → length result ≡ length out
  unfolding reduce_members
  length-reduce_members s [] arrivals out result h = ground arith
  length-reduce_members s (m ∷ ms) arrivals out result h = elim (Bool-cases (m.rank == s.rank)) [
    | inl e ↦ length-reduce_members s ms arrivals out result (rw (e, reduce_members) at h)
    | inr n ↦ elim (Result-cases (hear api s m arrivals)) [
      | inr (e, failed) ↦ absurd (ground arith)
      | inl ((f, later), heard) ↦ elim (Bool-cases (length f.values == length out)) [
        | inr differs ↦ absurd (ground arith)
        | inl fits ↦
            length-reduce_members s ms later (reduce_into api s.op out f.values) result
              (rw (n, reduce_members, heard, fits) at h)
            ∙ length-reduce_into s.op out f.values
      ]
    ]
  ]

  -- With a handler and a rank, AllReduce is its loop.
  pub all_reduce-reduced :
      (g : Group) (r : ℕ) (values : List ℕ) (op : ℕ) (dial : Dial) (arrivals : List AllReduceFrame)
      → g.has_handler ≡ true
      → rank g ≡ some r
      → (all_reduce api g values op dial arrivals).1
        ≡ reduced api (session g r values op dial) arrivals
  unfolding all_reduce
  all_reduce-reduced g r values op dial arrivals served ranked = ground arith
