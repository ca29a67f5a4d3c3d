-- ===== src/Dtrain/Group/Ranks.antt =====
-- The ranking of a membership: the members in the order of their texts, numbered from 0.
use go_iroh_experiments.Base.{
  ℕ, suc, ◌+◌, ◌≡◌, ◌≢◌, refl, sym, subst, Bool, true, false, List, [], ◌∷◌, none, some, inl, inr,
  if◌then◌else◌, arith, All, Bytes, Bool-cases, equal, equal_iff,
}
use go_iroh_experiments.Base.Dict.{Map, lookup}
use go_iroh_experiments.Go.Strings.{
  str_ltb, str_ltb_irrefl, str_ltb_asym, str_ltb_trans, str_ltb_total,
}
use go_iroh_experiments.Dtrain.Api.{Api}
use go_iroh_experiments.Dtrain.Group.{
  Member, MemberState, find_rank, next_members, rank_from, insert_member, sort_members, ranking,
}

-- What the key package documents of EndpointID.String: different endpoints have different texts.
abbrev pub IsIdText : Api → Type 0
IsIdText api = (a b : Bytes) → api.id_string a ≡ api.id_string b → a ≡ b

has_id : Bytes → List Member → Bool
has_id id [] = false
has_id id (m ∷ ms) = if equal m.id id then true else has_id id ms

abbrev pub is_key {ℓ} : {V : Type ℓ} → Bytes → Map V → Bool
is_key id m = elim (lookup id m) [ none ↦ false | some v ↦ true ]

-- No key twice.
abbrev pub AreDistinct {ℓ} : {V : Type ℓ} → Map V → Type ℓ
AreDistinct [] = Unit
AreDistinct ((k, v) ∷ m) = (lookup k m ≡ none) × AreDistinct m

module _ (api : Api) where
  -- How many members of the list, or keys of the map, have a text before `t`.
  below : Bytes → List Member → ℕ
  below t [] = 0
  below t (m ∷ ms) = (if str_ltb (api.id_string m.id) t then 1 else 0) + below t ms

  unfoldable pub count_below {ℓ} : {V : Type ℓ} → Bytes → Map V → ℕ
  count_below t [] = 0
  count_below t ((k, v) ∷ m) = (if str_ltb (api.id_string k) t then 1 else 0) + count_below t m

  abbrev AreSorted : List Member → Type 0
  AreSorted [] = Unit
  AreSorted (x ∷ xs) =
      All (λ y. str_ltb (api.id_string x.id) (api.id_string y.id) ≡ true) xs × AreSorted xs

  below-none :
      (t : Bytes) (ms : List Member)
      → All (λ y. str_ltb t (api.id_string y.id) ≡ true) ms
      → below t ms ≡ 0
  unfolding below
  below-none t [] h = refl
  below-none t (m ∷ ms) h =
      rw (str_ltb_asym t (api.id_string m.id) h.0) (omega (arith, below-none t ms h.1))

  has_id-All :
      (P : Bytes → Type 0) (id : Bytes) (ms : List Member)
      → All (λ y. P y.id) ms
      → has_id id ms ≡ true
      → P id
  unfolding has_id
  has_id-All P id [] a h = absurd (ground arith)
  has_id-All P id (m ∷ ms) a h = elim (Bool-cases (equal m.id id)) [
    | inl e ↦ subst P ((equal_iff m.id id).0 e) a.0
    | inr n ↦ has_id-All P id ms a.1 (rw n at h)
  ]

  find_rank-sorted :
      (id : Bytes) (i : ℕ) (ms : List Member)
      → AreSorted ms
      → find_rank id (rank_from i ms)
        ≡ (if has_id id ms then some (i + below (api.id_string id) ms) else none)
  unfolding find_rank rank_from has_id below
  find_rank-sorted id i [] s = refl
  find_rank-sorted id i (m ∷ ms) s = elim (Bool-cases (equal m.id id)) [
    | inl e ↦
        let same : m.id ≡ id = (equal_iff m.id id).0 e in
        let first = below-none (api.id_string id) ms (
          subst (λ b. All (λ y. str_ltb (api.id_string b) (api.id_string y.id) ≡ true) ms) same
            s.0) in
        ground (arith, e, first, same, str_ltb_irrefl (api.id_string id))
    | inr n ↦
        rw (n, find_rank-sorted id (suc i) ms s.1)
          (elim (Bool-cases (has_id id ms)) [
            | inl h ↦
                let less =
                  has_id-All (λ b. str_ltb (api.id_string m.id) (api.id_string b) ≡ true) id ms s.0
                    h in
                ground (arith, h, less)
            | inr h ↦ ground (arith, h)
          ])
  ]

  All-insert :
      (P : Member → Type 0) (m : Member) (ms : List Member)
      → P m
      → All P ms
      → All P (insert_member api m ms)
  unfolding insert_member
  All-insert P m [] h hs = (h, tt)
  All-insert P m (x ∷ xs) h hs =
      elim (Bool-cases (str_ltb (api.id_string x.id) (api.id_string m.id))) [
        | inl e ↦ rw e ((hs.0, All-insert P m xs h hs.1))
        | inr n ↦ rw n ((h, hs))
      ]

  All-after :
      (t u : Bytes) (ms : List Member)
      → str_ltb t u ≡ true
      → All (λ y. str_ltb u (api.id_string y.id) ≡ true) ms
      → All (λ y. str_ltb t (api.id_string y.id) ≡ true) ms
  All-after t u [] h hs = tt
  All-after t u (m ∷ ms) h hs =
      (str_ltb_trans t u (api.id_string m.id) h hs.0, All-after t u ms h hs.1)

  insert-AreSorted :
      (texts : IsIdText api) (m : Member) (ms : List Member)
      → All (λ y. m.id ≢ y.id) ms
      → AreSorted ms
      → AreSorted (insert_member api m ms)
  unfolding insert_member
  insert-AreSorted texts m [] d s = (tt, tt)
  insert-AreSorted texts m (x ∷ xs) d s =
      elim (Bool-cases (str_ltb (api.id_string x.id) (api.id_string m.id))) [
        | inl e ↦ rw e (
            (
              All-insert (λ y. str_ltb (api.id_string x.id) (api.id_string y.id) ≡ true) m xs e s.0,
              insert-AreSorted texts m xs d.1 s.1,
            ))
        | inr n ↦
            let before : str_ltb (api.id_string m.id) (api.id_string x.id) ≡ true =
              elim (Bool-cases (str_ltb (api.id_string m.id) (api.id_string x.id))) [
                | inl l ↦ l
                | inr k ↦ absurd (d.0 (texts m.id x.id (str_ltb_total _ _ k n)))
              ] in
            rw n (((before, All-after (api.id_string m.id) (api.id_string x.id) xs before s.0), s))
      ]

  has_id-insert :
      (id : Bytes) (m : Member) (ms : List Member)
      → has_id id (insert_member api m ms) ≡ has_id id (m ∷ ms)
  unfolding insert_member has_id
  has_id-insert id m [] = refl
  has_id-insert id m (x ∷ xs) = ground (arith, has_id-insert id m xs)

  below-insert :
      (t : Bytes) (m : Member) (ms : List Member)
      → below t (insert_member api m ms) ≡ below t (m ∷ ms)
  unfolding insert_member below
  below-insert t m [] = refl
  below-insert t m (x ∷ xs) = ground (arith, below-insert t m xs)

  -- The same through the sorting.
  has_id-sort : (id : Bytes) (ms : List Member) → has_id id (sort_members api ms) ≡ has_id id ms
  unfolding sort_members has_id
  has_id-sort id [] = refl
  has_id-sort id (m ∷ ms) =
      ground (arith, has_id-insert id m (sort_members api ms), has_id-sort id ms)

  below-sort : (t : Bytes) (ms : List Member) → below t (sort_members api ms) ≡ below t ms
  unfolding sort_members below
  below-sort t [] = refl
  below-sort t (m ∷ ms) = ground (arith, below-insert t m (sort_members api ms), below-sort t ms)

  All-sort : (P : Member → Type 0) (ms : List Member) → All P ms → All P (sort_members api ms)
  unfolding sort_members
  All-sort P [] h = tt
  All-sort P (m ∷ ms) h = All-insert P m (sort_members api ms) h.0 (All-sort P ms h.1)

  -- The same through the loop over the map.
  has_id-next : (id : Bytes) (m : Map MemberState) → has_id id (next_members m) ≡ is_key id m
  unfolding has_id next_members lookup
  has_id-next id [] = refl
  has_id-next id ((k, v) ∷ m) = ground (arith, has_id-next id m)

  below-next : (t : Bytes) (m : Map MemberState) → below t (next_members m) ≡ count_below t m
  unfolding below next_members count_below
  below-next t [] = refl
  below-next t ((k, v) ∷ m) = ground (arith, below-next t m)

  next-differs :
      (k : Bytes) (m : Map MemberState) → lookup k m ≡ none → All (λ y. k ≢ y.id) (next_members m)
  unfolding next_members lookup
  next-differs k [] h = tt
  next-differs k ((j, v) ∷ m) h = elim (Bool-cases (equal j k)) [
    | inl e ↦ absurd (ground arith)
    | inr n ↦ (
      λ same. absurd (ground (arith, (equal_iff j k).1 (sym same))),
      next-differs k m (rw n at h),
    )
  ]

  sort-AreSorted :
      (texts : IsIdText api) (m : Map MemberState)
      → AreDistinct m
      → AreSorted (sort_members api (next_members m))
  unfolding sort_members next_members
  sort-AreSorted texts [] d = tt
  sort-AreSorted texts ((k, v) ∷ m) d =
      insert-AreSorted texts _ (sort_members api (next_members m))
        (All-sort (λ y. k ≢ y.id) (next_members m) (next-differs k m d.0))
        (sort-AreSorted texts m d.1)

  -- A key's rank is the number of keys whose text comes before its own; other IDs have none.
  pub find_rank-ranking :
      (texts : IsIdText api) (id : Bytes) (m : Map MemberState)
      → AreDistinct m
      → find_rank id (ranking api m)
        ≡ (if is_key id m then some (count_below (api.id_string id) m) else none)
  unfolding ranking
  find_rank-ranking texts id m d =
      rw
        (
          find_rank-sorted id 0 (sort_members api (next_members m)) (sort-AreSorted texts m d),
          has_id-sort id (next_members m),
          has_id-next id m,
          below-sort (api.id_string id) (next_members m),
          below-next (api.id_string id) m,
        )
        (ground arith)
