-- ===== src/Discovery/Store/Sorted.antt =====
-- The sorting of a query's answers: an order by host that keeps every item.
use mathlib.Core.List.{Perm}
use mathlib.Core.List.Perm
use go_iroh_experiments.Base.{◌≡◌, inl, inr, true, false, List, [], ◌∷◌, All, Bytes, Bool-cases}
use go_iroh_experiments.Discovery.Api.{Api}
use go_iroh_experiments.Discovery.Protocol.{SignedAnnounce}
use go_iroh_experiments.Discovery.Store.{insert_sorted, sort_hosts}

-- The order of hosts, as key.EndpointID.Compare documents it.
pub record IsHostOrder (api : Api) : Type 0 where
  pub asym : (a b : Bytes) → api.host_ltb a b ≡ true → api.host_ltb b a ≡ false
  pub trans :
      (a b c : Bytes)
      → api.host_ltb b a ≡ false
      → api.host_ltb c b ≡ false
      → api.host_ltb c a ≡ false

module _ (api : Api) where
  -- No host before the hosts in front of it.
  abbrev pub AreSorted : List SignedAnnounce → Type 0
  AreSorted [] = Unit
  AreSorted (x ∷ xs) =
      All (λ y. api.host_ltb y.announce.host x.announce.host ≡ false) xs × AreSorted xs

  insert-perm :
      (x : SignedAnnounce) (xs : List SignedAnnounce) → Perm (x ∷ xs) (insert_sorted api x xs)
  unfolding insert_sorted
  insert-perm x [] = Perm.refl (x ∷ [])
  insert-perm x (y ∷ xs) = elim (Bool-cases (api.host_ltb y.announce.host x.announce.host)) [
    | inl less ↦ rw less (Perm.trans (Perm.swap y x xs) (Perm.cons y (insert-perm x xs)))
    | inr more ↦ rw more (Perm.refl (x ∷ y ∷ xs))
  ]

  pub sort-perm : (xs : List SignedAnnounce) → Perm xs (sort_hosts api xs)
  unfolding sort_hosts
  sort-perm [] = Perm.refl []
  sort-perm (x ∷ xs) = Perm.trans (Perm.cons x (sort-perm xs)) (insert-perm x (sort_hosts api xs))

  All-insert :
      (P : SignedAnnounce → Type 0) (x : SignedAnnounce) (xs : List SignedAnnounce)
      → P x
      → All P xs
      → All P (insert_sorted api x xs)
  unfolding insert_sorted
  All-insert P x [] h hs = (h, tt)
  All-insert P x (y ∷ xs) h hs = elim (Bool-cases (api.host_ltb y.announce.host x.announce.host)) [
    | inl less ↦ rw less ((hs.0, All-insert P x xs h hs.1))
    | inr more ↦ rw more ((h, hs))
  ]

  All-trans :
      (o : IsHostOrder api) (x y : SignedAnnounce) (xs : List SignedAnnounce)
      → api.host_ltb y.announce.host x.announce.host ≡ false
      → All (λ z. api.host_ltb z.announce.host y.announce.host ≡ false) xs
      → All (λ z. api.host_ltb z.announce.host x.announce.host ≡ false) xs
  All-trans o x y [] h hs = tt
  All-trans o x y (z ∷ xs) h hs =
      (o.trans x.announce.host y.announce.host z.announce.host h hs.0, All-trans o x y xs h hs.1)

  insert-AreSorted :
      (o : IsHostOrder api) (x : SignedAnnounce) (xs : List SignedAnnounce)
      → AreSorted xs
      → AreSorted (insert_sorted api x xs)
  unfolding insert_sorted
  insert-AreSorted o x [] h = (tt, tt)
  insert-AreSorted o x (y ∷ xs) h =
      elim (Bool-cases (api.host_ltb y.announce.host x.announce.host)) [
        | inl less ↦ rw less (
            (
              All-insert (λ z. api.host_ltb z.announce.host y.announce.host ≡ false) x xs
                  (o.asym y.announce.host x.announce.host less) h.0,
              insert-AreSorted o x xs h.1,
            ))
        | inr more ↦ rw more (((more, All-trans o x y xs more h.0), h))
      ]

  pub sort-AreSorted :
      (o : IsHostOrder api) (xs : List SignedAnnounce) → AreSorted (sort_hosts api xs)
  unfolding sort_hosts
  sort-AreSorted o [] = tt
  sort-AreSorted o (x ∷ xs) = insert-AreSorted o x (sort_hosts api xs) (sort-AreSorted o xs)
