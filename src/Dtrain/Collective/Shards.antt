-- ===== src/Dtrain/Collective/Shards.antt =====
-- The shards of ReduceScatter make up the reduced vector.
use native.Mathlib.Nat.{mod-add-div}
use go_iroh_experiments.Base.{
  ℕ, zero, suc, ◌+◌, ◌*◌, ◌/◌, ◌%◌, ◌≤◌, ◌≡◌, ◌<◌, refl, sym, ap, ◌∙◌, ◌&&◌, List, [], ◌∷◌, ◌++◌,
  some, inl, inr, ltb, ◌==◌, arith, length, length-map, length-take, length-drop, take, drop,
  Bool-cases, Option-cases,
}
use go_iroh_experiments.Dtrain.Api.{Api}
use go_iroh_experiments.Dtrain.Frame.{AllReduceFrame, ok, Result-cases}
use go_iroh_experiments.Dtrain.Group.{Group, rank}
use go_iroh_experiments.Dtrain.Collective.{
  reduce_members, scaled, reduced, all_reduce, shard_of, shard_result, reduce_scatter,
}
use go_iroh_experiments.Dtrain.Exchange.{Session, Dial, mean}
use go_iroh_experiments.Dtrain.Collective.Reduced.{
  session, length-reduce_members, all_reduce-reduced,
}

take_nil {ℓ} : {A : Type ℓ} (n : ℕ) → take n (let none_left : List A = [] in none_left) ≡ []
take_nil zero = refl
take_nil (suc n) = refl

take-drop {ℓ} :
    {A : Type ℓ} (m n : ℕ) (xs : List A) → take m xs ++ take n (drop m xs) ≡ take (m + n) xs
take-drop zero n xs = ap (λ (k : ℕ). take k xs) (omega arith)
take-drop (suc m) n [] = take_nil n ∙ sym (take_nil (suc m + n))
take-drop (suc m) n (x ∷ xs) =
    ap (◌∷◌ x) (take-drop m n xs)
    ∙ ap (λ (k : ℕ). take k (x ∷ xs)) (let e : suc (m + n) ≡ suc m + n = omega arith in e)

take_all {ℓ} : {A : Type ℓ} (n : ℕ) (xs : List A) → length xs ≡ n → take n xs ≡ xs
take_all zero [] h = refl
take_all zero (x ∷ xs) h = absurd (omega arith)
take_all (suc n) [] h = refl
take_all (suc n) (x ∷ xs) h = ap (◌∷◌ x) (take_all n xs (omega arith))

-- The pieces of the first `n` ranks, one behind the other.
abbrev pub concat_ranks : ℕ → (ℕ → List ℕ) → List ℕ
concat_ranks zero piece = []
concat_ranks (suc n) piece = concat_ranks n piece ++ piece n

shards-take :
    (n s : ℕ) (v : List ℕ) → concat_ranks n (λ r. take s (drop (r * s) v)) ≡ take (n * s) v
shards-take zero s v = ap (λ (k : ℕ). take k v) (let e : 0 ≡ zero * s = omega arith in e)
shards-take (suc n) s v =
    ap (λ (xs : List ℕ). xs ++ take s (drop (n * s) v)) (shards-take n s v)
    ∙ take-drop (n * s) s v
    ∙ ap (λ (k : ℕ). take k v) (let e : n * s + s ≡ suc n * s = grind arith in e)

module _ (api : Api) where
  shards_whole :
      (n : ℕ) (v : List ℕ) → length v % n ≡ 0 → concat_ranks n (λ r. shard_of api n r v) ≡ v
  unfolding shard_of
  shards_whole n v h =
      shards-take n (length v / n) v
      ∙ take_all (n * (length v / n)) v (omega (arith, mod-add-div (length v) n, h))

  length-shard :
      (n r : ℕ) (v : List ℕ) → r < n → length v % n ≡ 0 → length (shard_of api n r v) ≡ length v / n
  unfolding shard_of
  length-shard n r v below whole =
      let s = length v / n in
      let room : r * s + s ≤ n * s = grind arith in
      omega (
        arith,
        length-take s (drop (r * s) v),
        length-drop (r * s) v,
        mod-add-div (length v) n,
        whole,
        room,
      )

  length-scaled : (op n : ℕ) (v : List ℕ) → length (scaled api op n v) ≡ length v
  unfolding scaled
  length-scaled op n v = elim (Bool-cases (op == mean && ltb 0 n)) [
    | inl e ↦ rw e (length-map v (λ x. api.quotient x (api.of_int n)))
    | inr e ↦ rw e refl
  ]

  length-reduced :
      (s : Session) (arrivals : List AllReduceFrame) (v : List ℕ)
      → reduced api s arrivals ≡ ok v
      → length v ≡ length s.values
  unfolding reduced
  length-reduced s arrivals v h =
      elim (Result-cases (reduce_members api s s.group.ranked arrivals s.values)) [
        | inr (e, failed) ↦ absurd (ground arith)
        | inl (out, loop) ↦
            let last = length-scaled s.op (length s.group.ranked) out in
            let size = length-reduce_members api s s.group.ranked arrivals s.values out loop in
            ground arith
      ]

  length-all_reduce :
      (g : Group) (values : List ℕ) (op : ℕ) (dial : Dial) (arrivals : List AllReduceFrame)
      (v : List ℕ)
      → (all_reduce api g values op dial arrivals).1 ≡ ok v
      → length v ≡ length values
  unfolding all_reduce
  length-all_reduce g values op dial arrivals v h = elim (Bool-cases g.has_handler) [
    | inr unserved ↦ absurd (ground arith)
    | inl served ↦ elim (Option-cases (rank g)) [
      | inl outside ↦ absurd (ground arith)
      | inr (r, ranked) ↦
          length-reduced (session api g r values op dial) arrivals v
            (sym (all_reduce-reduced api g r values op dial arrivals served ranked) ∙ h)
    ]
  ]

  scatter_lem :
      (g : Group) (r n : ℕ) (values : List ℕ) (op : ℕ) (dial : Dial)
      (arrivals : List AllReduceFrame) (v : List ℕ)
      → rank g ≡ some r
      → length g.ranked ≡ n
      → 0 < n
      → length values % n ≡ 0
      → (all_reduce api g values op dial arrivals).1 ≡ ok v
      → (reduce_scatter api g values op dial arrivals).1 ≡ ok (shard_of api n r v)
  unfolding reduce_scatter shard_result
  scatter_lem g r n values op dial arrivals v ranked size some_left whole reduces = ground arith

  -- If all `n` members of a group call ReduceScatter with vectors of lengths that `n` divides, and
  -- AllReduce returns the same vector to each, then each call returns, and the results in rank
  -- order make up the reduced vector, in pieces of one length.
  pub reduce_scatter-covers :
      (n : ℕ) (member : ℕ → Group) (values : ℕ → List ℕ) (op : ℕ) (dial : ℕ → Dial)
      (arrivals : ℕ → List AllReduceFrame) (v : List ℕ)
      → 0 < n
      → ((r : ℕ) → r < n → rank (member r) ≡ some r)
      → ((r : ℕ) → r < n → length (member r).ranked ≡ n)
      → ((r : ℕ) → r < n → length (values r) % n ≡ 0)
      → ((r : ℕ) → r < n → (all_reduce api (member r) (values r) op (dial r) (arrivals r)).1 ≡ ok v)
      → (piece : ℕ → List ℕ) × ((r : ℕ)
          → r < n
          → (reduce_scatter api (member r) (values r) op (dial r) (arrivals r)).1 ≡ ok (piece r))
        × ((r : ℕ) → r < n → length (piece r) ≡ length v / n)
        × (concat_ranks n piece ≡ v)
  reduce_scatter-covers n member values op dial arrivals v some_left ranked size whole reduces =
      let whole_result : (r : ℕ) → r < n → length v % n ≡ 0 = λ r h.
        ap (λ (k : ℕ). k % n)
          (length-all_reduce (member r) (values r) op (dial r) (arrivals r) v (reduces r h))
        ∙ whole r h in
      (
        λ r. shard_of api n r v,
        λ r h.
            scatter_lem (member r) r n (values r) op (dial r) (arrivals r) v (ranked r h) (size r h)
              some_left (whole r h) (reduces r h),
        λ r h. length-shard n r v h (whole_result 0 some_left),
        shards_whole n v (whole_result 0 some_left),
      )
