-- ===== src/Dtrain/Collective/Agree.antt =====
-- The members of a group reduce to the same vector, whatever order each hears the others in.
use go_iroh_experiments.Base.{
  ℕ, ◌+◌, ◌≤◌, ◌≡◌, refl, sym, ◌∙◌, true, List, ◌∷◌, some, arith, length, All,
}
use go_iroh_experiments.Dtrain.Api.{Api}
use go_iroh_experiments.Dtrain.Frame.{AllReduceFrame, ok, ◌>>=◌}
use go_iroh_experiments.Dtrain.Group.{Group, rank}
use go_iroh_experiments.Dtrain.Collective.{scaled, reduced, all_reduce}
use go_iroh_experiments.Dtrain.Exchange.{Dial, publish_local}
use go_iroh_experiments.Dtrain.Collective.Reduced.{
  session, Hears, vectors_of, fold, reduce_members-Hears, all_reduce-reduced,
}
use go_iroh_experiments.Dtrain.Collective.Exact.{
  Shuffled, IsExact, total, Combines, fold-total, Shuffled-total, all_combine,
}

module _ (api : Api) (op n : ℕ) (P : ℕ → ℕ → Type 0) (exact : IsExact api op n P) where
  -- If a member with a handler hears vectors of its own one's length from all others, at most `n`
  -- vectors in all, and the operation is exact on their values, so that it commutes and associates
  -- there, then AllReduce returns, and what it returns depends only on the vectors of the whole
  -- group: all members that hear each other get the same. For `Mean` it is divided by the number
  -- of members.
  pub all_reduce-agrees :
      (g : Group) (r : ℕ) (values : List ℕ) (dial : Dial) (arrivals : List AllReduceFrame)
      (frames : List AllReduceFrame) (vectors : List (List ℕ))
      → g.has_handler ≡ true
      → rank g ≡ some r
      → Hears api (session api g r values op dial) g.ranked arrivals frames
      → All (λ v. length v ≡ length values) (vectors_of api frames)
      → length (vectors_of api frames) + 1 ≤ n
      → All (λ v. All (P 1) v) (values ∷ vectors_of api frames)
      → Shuffled (values ∷ vectors_of api frames) vectors
      → (t : List ℕ) × (total api op vectors ≡ some t)
        × ((all_reduce api g values op dial arrivals).1 ≡ ok (scaled api op (length g.ranked) t))
  unfolding reduced publish_local
  all_reduce-agrees g r values dial arrivals frames vectors served ranked heard sizes few ok_values
        shuffled =
      let t = fold api op values (vectors_of api frames) in
      let all : All (Combines api op n P exact (length values) 1) (values ∷ vectors_of api frames) =
        all_combine api op n P exact (length values) (values ∷ vectors_of api frames) (refl, sizes)
          ok_values in
      let sum =
        fold-total api op n P exact (length values) 1 values (vectors_of api frames) (omega arith)
          all.0 all.1 in
      let order = Shuffled-total api op n P exact (length values) shuffled (omega arith) all in
      let loop =
        reduce_members-Hears api (session api g r values op dial) (length values) values heard refl
          sizes in
      (
        t,
        sym order ∙ sum,
        all_reduce-reduced api g r values op dial arrivals served ranked ∙ rw (loop, ◌>>=◌) refl,
      )
