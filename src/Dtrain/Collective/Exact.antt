-- ===== src/Dtrain/Collective/Exact.antt =====
-- What the order of the vectors does not matter for: operations that are exact on their values.
use go_iroh_experiments.Base.{
  ℕ, suc, ◌+◌, ◌≤◌, subst, ◌≡◌, refl, sym, ap, ap₂, ◌∙◌, List, [], ◌∷◌, Option, none, some, inl,
  inr, some-injective, Option-cases, ◌==◌, if◌then◌else◌, arith, length, All,
}
use go_iroh_experiments.Dtrain.Api.{Api}
use go_iroh_experiments.Dtrain.Collective.{reduce_into}
use go_iroh_experiments.Dtrain.Exchange.{max}
use go_iroh_experiments.Dtrain.Collective.Reduced.{length-reduce_into, fold}

-- The same vectors in another order.
pub data Shuffled : List (List ℕ) → List (List ℕ) → Type 0 where
  same : {xs : List (List ℕ)} → Shuffled xs xs
  skip : {xs ys : List (List ℕ)} (x : List ℕ) → Shuffled xs ys → Shuffled (x ∷ xs) (x ∷ ys)
  swap : {xs : List (List ℕ)} (x y : List ℕ) → Shuffled (x ∷ y ∷ xs) (y ∷ x ∷ xs)
  chain : {xs ys zs : List (List ℕ)} → Shuffled xs ys → Shuffled ys zs → Shuffled xs zs

Shuffled-length : {xs ys : List (List ℕ)} → Shuffled xs ys → length xs ≡ length ys
Shuffled-length same = refl
Shuffled-length (skip x s) = ap suc (Shuffled-length s)
Shuffled-length (swap x y) = refl
Shuffled-length (chain s t) = Shuffled-length s ∙ Shuffled-length t

module _ (api : Api) (op : ℕ) where
  abbrev pub combine : ℕ → ℕ → ℕ
  combine d v = if op == max then (if api.gt v d then v else d) else api.add d v

  -- The operation on the values at hand: a combination of some of the `n` vectors' values is one of
  -- `P`, with how many they are, and as long as they are no more than `n`, their order does not
  -- matter. So it is for a maximum of numbers other than NaN and zeros of two signs, and for a sum
  -- of whole numbers that stays below 2 ^ 24, which float32 adds exactly; not for a sum that rounds.
  pub record IsExact (n : ℕ) (P : ℕ → ℕ → Type 0) : Type 0 where
    pub closed : (i j a b : ℕ) → i + j ≤ n → P i a → P j b → P (i + j) (combine a b)
    pub comm : (i j a b : ℕ) → i + j ≤ n → P i a → P j b → combine a b ≡ combine b a
    pub assoc :
        (i j k a b c : ℕ)
        → i + j + k ≤ n
        → P i a
        → P j b
        → P k c
        → combine (combine a b) c ≡ combine a (combine b c)

  -- All vectors combined, from the right.
  unfoldable pub total : List (List ℕ) → Option (List ℕ)
  total [] = none
  total (x ∷ xs) = elim (total xs) [ none ↦ some x | some t ↦ some (reduce_into api op x t) ]

  total-none : (xs : List (List ℕ)) → total xs ≡ none → length xs ≡ 0
  unfolding total
  total-none [] e = refl
  total-none (x ∷ xs) e = elim (Option-cases (total xs)) [
    | inl last ↦ absurd (ground (arith, rw (last, total) at e))
    | inr (u, more) ↦ absurd (ground (arith, rw (more, total) at e))
  ]

  module _ (n : ℕ) (P : ℕ → ℕ → Type 0) (exact : IsExact n P) where
    -- A combination of `i` of the vectors, each of `len` values.
    pub record Combines (len i : ℕ) (v : List ℕ) : Type 0 where
      pub size : length v ≡ len
      pub values : All (P i) v

    all_reduced :
        (i j : ℕ) (a b : List ℕ)
        → i + j ≤ n
        → All (P i) a
        → All (P j) b
        → length a ≡ length b
        → All (P (i + j)) (reduce_into api op a b)
    unfolding reduce_into
    all_reduced i j [] [] few ha hb e = tt
    all_reduced i j [] (y ∷ b) few ha hb e = absurd (omega arith)
    all_reduced i j (x ∷ a) [] few ha hb e = absurd (omega arith)
    all_reduced i j (x ∷ a) (y ∷ b) few ha hb e =
        (exact.closed i j x y few ha.0 hb.0, all_reduced i j a b few ha.1 hb.1 (omega arith))

    Combines-reduce :
        (len i j : ℕ) (a b : List ℕ)
        → i + j ≤ n
        → Combines len i a
        → Combines len j b
        → Combines len (i + j) (reduce_into api op a b)
    Combines-reduce len i j a b few ca cb = record {
      size = length-reduce_into api op a b ∙ ca.size;
      values = all_reduced i j a b few ca.values cb.values (ca.size ∙ sym cb.size);
    }

    comm_values :
        (i j : ℕ) (a b : List ℕ)
        → i + j ≤ n
        → All (P i) a
        → All (P j) b
        → length a ≡ length b
        → reduce_into api op a b ≡ reduce_into api op b a
    unfolding reduce_into
    comm_values i j [] [] few ha hb h = refl
    comm_values i j [] (y ∷ b) few ha hb h = absurd (omega arith)
    comm_values i j (x ∷ a) [] few ha hb h = absurd (omega arith)
    comm_values i j (x ∷ a) (y ∷ b) few ha hb h =
        ap₂ (λ (z : ℕ) (zs : List ℕ). z ∷ zs) (exact.comm i j x y few ha.0 hb.0)
          (comm_values i j a b few ha.1 hb.1 (omega arith))

    assoc_values :
        (i j k : ℕ) (a b c : List ℕ)
        → i + j + k ≤ n
        → All (P i) a
        → All (P j) b
        → All (P k) c
        → length a ≡ length b
        → length b ≡ length c
        → reduce_into api op (reduce_into api op a b) c
          ≡ reduce_into api op a (reduce_into api op b c)
    unfolding reduce_into
    assoc_values i j k [] [] [] few ha hb hc e d = refl
    assoc_values i j k [] [] (z ∷ c) few ha hb hc e d = absurd (omega arith)
    assoc_values i j k [] (y ∷ b) c few ha hb hc e d = absurd (omega arith)
    assoc_values i j k (x ∷ a) [] c few ha hb hc e d = absurd (omega arith)
    assoc_values i j k (x ∷ a) (y ∷ b) [] few ha hb hc e d = absurd (omega arith)
    assoc_values i j k (x ∷ a) (y ∷ b) (z ∷ c) few ha hb hc e d =
        ap₂ (λ (z : ℕ) (zs : List ℕ). z ∷ zs) (exact.assoc i j k x y z few ha.0 hb.0 hc.0)
          (assoc_values i j k a b c few ha.1 hb.1 hc.1 (omega arith) (omega arith))

    reduce_comm :
        (len i j : ℕ) (a b : List ℕ)
        → i + j ≤ n
        → Combines len i a
        → Combines len j b
        → reduce_into api op a b ≡ reduce_into api op b a
    reduce_comm len i j a b few ca cb =
        comm_values i j a b few ca.values cb.values (ca.size ∙ sym cb.size)

    reduce_assoc :
        (len i j k : ℕ) (a b c : List ℕ)
        → i + j + k ≤ n
        → Combines len i a
        → Combines len j b
        → Combines len k c
        → reduce_into api op (reduce_into api op a b) c
          ≡ reduce_into api op a (reduce_into api op b c)
    reduce_assoc len i j k a b c few ca cb cc =
        assoc_values i j k a b c few ca.values cb.values cc.values (ca.size ∙ sym cb.size)
          (cb.size ∙ sym cc.size)

    total-Combines :
        (len : ℕ) (xs : List (List ℕ)) (t : List ℕ)
        → All (Combines len 1) xs
        → length xs ≤ n
        → total xs ≡ some t
        → Combines len (length xs) t
    unfolding total
    total-Combines len [] t h few e = absurd (ground arith)
    total-Combines len (x ∷ xs) t h few e = elim (Option-cases (total xs)) [
      | inl last ↦
          let is : x ≡ t = some-injective (rw (last, total) at e) in
          let none_more : length xs ≡ 0 = total-none xs last in
          subst (Combines len (suc (length xs))) is (rw none_more h.0)
      | inr (u, more) ↦
          let is : reduce_into api op x u ≡ t = some-injective (rw (more, total) at e) in
          let count : 1 + length xs ≡ suc (length xs) = omega arith in
          subst (λ i. Combines len i t) count
            (subst (Combines len (1 + length xs)) is (
              Combines-reduce len 1 (length xs) x u (omega arith) h.0
                (total-Combines len xs u h.1 (omega arith) more)))
    ]

    -- A combination of `i` of the vectors goes on with the rest, whatever it was made of.
    pub fold-total :
        (len i : ℕ) (a : List ℕ) (xs : List (List ℕ))
        → i + length xs ≤ n
        → Combines len i a
        → All (Combines len 1) xs
        → total (a ∷ xs) ≡ some (fold api op a xs)
    unfolding total
    fold-total len i a [] few ca h = refl
    fold-total len i a (x ∷ xs) few ca h =
        let ih =
          fold-total len (i + 1) (reduce_into api op a x) xs (omega arith)
            (Combines-reduce len i 1 a x (omega arith) ca h.0) h.1 in
        elim (Option-cases (total xs)) [
          | inl last ↦ rw (last, total) (rw (last, total) at ih)
          | inr (u, more) ↦
              let rest = total-Combines len xs u h.1 (omega arith) more in
              let flat = reduce_assoc len i 1 (length xs) a x u (omega arith) ca h.0 rest in
              rw (more, total) (ap some (sym flat) ∙ (rw (more, total) at ih))
        ]

    Shuffled-All :
        (Q : List ℕ → Type 0) {xs ys : List (List ℕ)} → Shuffled xs ys → All Q xs → All Q ys
    Shuffled-All Q same h = h
    Shuffled-All Q (skip x s) h = (h.0, Shuffled-All Q s h.1)
    Shuffled-All Q (swap x y) h = (h.1.0, (h.0, h.1.1))
    Shuffled-All Q (chain s t) h = Shuffled-All Q t (Shuffled-All Q s h)

    pub Shuffled-total :
        (len : ℕ) {xs ys : List (List ℕ)}
        → Shuffled xs ys
        → length xs ≤ n
        → All (Combines len 1) xs
        → total xs ≡ total ys
    unfolding total
    Shuffled-total len same few h = refl
    Shuffled-total len (skip x s) few h =
        ap
          (λ (o : Option (List ℕ)). elim o as (λ _. Option (List ℕ)) [
            | none ↦ some x
            | some t ↦ some (reduce_into api op x t)
          ])
          (Shuffled-total len s (omega arith) h.1)
    Shuffled-total len (swap {xs = xs} x y) few h =
        let flip = reduce_comm len 1 1 x y (omega arith) h.0 h.1.0 in
        elim (Option-cases (total xs)) [
          | inl last ↦ rw (last, total) (ap some flip)
          | inr (u, more) ↦
              let rest = total-Combines len xs u h.1.1 (omega arith) more in
              rw (more, total)
                (ap some (
                  sym (reduce_assoc len 1 1 (length xs) x y u (omega arith) h.0 h.1.0 rest)
                  ∙ ap (λ (t : List ℕ). reduce_into api op t u) flip
                  ∙ reduce_assoc len 1 1 (length xs) y x u (omega arith) h.1.0 h.0 rest))
        ]
    Shuffled-total len (chain s t) few h =
        Shuffled-total len s few h
        ∙ Shuffled-total len t (omega (arith, Shuffled-length s))
            (Shuffled-All (Combines len 1) s h)

    pub all_combine :
        (len : ℕ) (xs : List (List ℕ))
        → All (λ v. length v ≡ len) xs
        → All (λ v. All (P 1) v) xs
        → All (Combines len 1) xs
    all_combine len [] hs hv = tt
    all_combine len (x ∷ xs) hs hv =
        (record { size = hs.0; values = hv.0 }, all_combine len xs hs.1 hv.1)
