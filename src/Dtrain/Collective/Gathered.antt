-- ===== src/Dtrain/Collective/Gathered.antt =====
-- What AllGather returns: the vectors of all ranks in order, or the first rank that is missing.
use go_iroh_experiments.Base.{
  ℕ, zero, suc, ◌+◌, ◌<◌, ◌≡◌, refl, ap, ◌∙◌, Bool, true, false, List, [], ◌∷◌, ◌++◌, Option, none,
  some, ◌==◌, ==_iff, if◌then◌else◌, arith, length, set, replicate,
}
use go_iroh_experiments.Dtrain.Api.{Api}
use go_iroh_experiments.Dtrain.Frame.{AllReduceFrame, ok, err, ◌>>=◌}
use go_iroh_experiments.Dtrain.Group.{Member, Group, rank}
use go_iroh_experiments.Dtrain.Collective.{
  rank_of_member, gather_members, join_parts, gathered, all_gather,
}
use go_iroh_experiments.Dtrain.Exchange.{missing_rank, Session, Dial, sum, publish_local}
use go_iroh_experiments.Dtrain.Collective.Reduced.{session, Hears, done, itself, peer}

abbrev pub is_covered : ℕ → List ℕ → Bool
is_covered i [] = false
is_covered i (r ∷ rs) = if i == r then true else is_covered i rs

-- The first rank from `i` on, of `k`, that is not covered.
abbrev pub first_missing : ℕ → ℕ → List ℕ → Option ℕ
first_missing i zero c = none
first_missing i (suc k) c =
    let rest = first_missing (suc i) k c in if is_covered i c then rest else some i

all_gather-gathered :
    (api : Api) (g : Group) (r : ℕ) (values : List ℕ) (dial : Dial) (arrivals : List AllReduceFrame)
    → g.has_handler ≡ true
    → rank g ≡ some r
    → (all_gather api g values dial arrivals).1
      ≡ gathered api (session api g r values sum dial) arrivals
unfolding all_gather
all_gather-gathered api g r values dial arrivals served ranked = ground arith

module _ (vectors : ℕ → List ℕ) where
  -- The vectors of `k` ranks from `i` on, one behind the other.
  abbrev pub concat_from : ℕ → ℕ → List ℕ
  concat_from i zero = []
  concat_from i (suc k) = vectors i ++ concat_from (suc i) k

  -- The parts when the ranks of `c` have come.
  abbrev parts_from : ℕ → ℕ → List ℕ → List (Option (List ℕ))
  parts_from i zero c = []
  parts_from i (suc k) c =
      (if is_covered i c then some (vectors i) else none) ∷ parts_from (suc i) k c

  parts_none : (i k : ℕ) → replicate k none ≡ parts_from i k []
  parts_none i zero = refl
  parts_none i (suc k) = ap (λ (ps : List (Option (List ℕ))). none ∷ ps) (parts_none (suc i) k)

  parts_other : (i k r : ℕ) (c : List ℕ) → r < i → parts_from i k c ≡ parts_from i k (r ∷ c)
  parts_other i zero r c h = refl
  parts_other i (suc k) r c h = ground (arith, parts_other (suc i) k r c)

  set-parts :
      (i k p : ℕ) (c : List ℕ)
      → set (parts_from i k c) p (some (vectors (i + p))) ≡ parts_from i k ((i + p) ∷ c)
  set-parts i zero p c = refl
  set-parts i (suc k) zero c =
      let here : i + 0 ≡ i = omega arith in
      rw (here, (==_iff i i).1 refl)
        (ap (λ (ps : List (Option (List ℕ))). some (vectors i) ∷ ps)
          (parts_other (suc i) k i c (omega arith)))
  set-parts i (suc k) (suc p) c =
      let later : i + suc p ≡ suc i + p = omega arith in
      let apart : (i == suc i + p) ≡ false = ground arith in
      rw (later, apart)
        (ap
          (λ (ps : List (Option (List ℕ))).
            (if is_covered i c then some (vectors i) else none) ∷ ps)
          (set-parts (suc i) k p c))

  join-parts :
      (api : Api) (i k : ℕ) (c : List ℕ)
      → join_parts api i (parts_from i k c)
        ≡ elim (first_missing i k c) [ none ↦ ok (concat_from i k) | some r ↦ err (missing_rank r) ]
  unfolding join_parts
  join-parts api i zero c = refl
  join-parts api i (suc k) c = ground (arith, join-parts api (suc i) k c)

  -- Each frame is from the member of the rank beside it, and holds that rank's vector.
  abbrev pub AreFrom : Api → Session → List AllReduceFrame → List ℕ → Type 0
  AreFrom api s [] [] = Unit
  AreFrom api s (f ∷ fs) (r ∷ rs) =
      (rank_of_member api s.group.ranked f.from ≡ some r)
      × (f.values ≡ vectors r)
      × (length f.values ≡ length s.values)
      × AreFrom api s fs rs
  AreFrom api s _ _ = ⊥

  -- The ranks that have come, the last first.
  abbrev pub covered : List ℕ → List ℕ → List ℕ
  covered c [] = c
  covered c (r ∷ rs) = covered (r ∷ c) rs

  gather_members-Hears :
      (api : Api) (s : Session) {ms : List Member} {arrivals : List AllReduceFrame}
      (frames : List AllReduceFrame) (ranks : List ℕ) (n : ℕ) (c : List ℕ)
      → Hears api s ms arrivals frames
      → AreFrom api s frames ranks
      → gather_members api s ms arrivals (parts_from 0 n c) ≡ ok (parts_from 0 n (covered c ranks))
  unfolding gather_members
  gather_members-Hears api s frames [] n c done from = refl
  gather_members-Hears api s frames (r ∷ rs) n c done from = absurd from
  gather_members-Hears api s frames ranks n c (itself e more) from =
      rw (e, gather_members) (gather_members-Hears api s frames ranks n c more from)
  gather_members-Hears api s (f ∷ frames) [] n c (peer e heard more) from = absurd from
  gather_members-Hears api s (f ∷ frames) (r ∷ rs) n c (peer e heard more) from =
      let put : set (parts_from 0 n c) r (some (vectors r)) ≡ parts_from 0 n (r ∷ c) =
        ap (λ (k : ℕ). set (parts_from 0 n c) r (some (vectors k)))
          (let z : r ≡ 0 + r = omega arith in z)
        ∙ set-parts 0 n r c
        ∙ ap (λ (k : ℕ). parts_from 0 n (k ∷ c)) (omega arith) in
      rw
        (
          e,
          gather_members,
          heard,
          from.0,
          (==_iff (length f.values) (length s.values)).1 from.2,
          from.1,
          put,
        )
        (gather_members-Hears api s frames rs n (r ∷ c) more from.3)

  -- If a member of rank `r` with a handler hears a frame for each other member, each from a member
  -- and with that member's vector, of its own one's length, AllGather returns the vectors of all
  -- ranks in rank order, whatever order they came in, if every rank came; else it fails with the
  -- first rank that is missing.
  pub all_gather-InOrder :
      (api : Api) (g : Group) (r : ℕ) (dial : Dial) (arrivals frames : List AllReduceFrame)
      (ranks : List ℕ)
      → g.has_handler ≡ true
      → rank g ≡ some r
      → Hears api (session api g r (vectors r) sum dial) g.ranked arrivals frames
      → AreFrom api (session api g r (vectors r) sum dial) frames ranks
      → (all_gather api g (vectors r) dial arrivals).1
        ≡ elim (first_missing 0 (length g.ranked) (covered (r ∷ []) ranks)) [
          | none ↦ ok (concat_from 0 (length g.ranked))
          | some p ↦ err (missing_rank p)
        ]
  unfolding gathered publish_local
  all_gather-InOrder api g r dial arrivals frames ranks served ranked heard from =
      let n = length g.ranked in
      let s = session api g r (vectors r) sum dial in
      let start : set (replicate n none) r (some (vectors r)) ≡ parts_from 0 n (r ∷ []) =
        ap (λ (ps : List (Option (List ℕ))). set ps r (some (vectors r))) (parts_none 0 n)
        ∙ ap (λ (k : ℕ). set (parts_from 0 n []) r (some (vectors k)))
            (let z : r ≡ 0 + r = omega arith in z)
        ∙ set-parts 0 n r []
        ∙ ap (λ (k : ℕ). parts_from 0 n (k ∷ [])) (omega arith) in
      let loop = gather_members-Hears api s frames ranks n (r ∷ []) heard from in
      all_gather-gathered api g r (vectors r) dial arrivals served ranked
      ∙ rw (start, loop, ◌>>=◌) (join-parts api 0 n (covered (r ∷ []) ranks))
