-- ===== src/Dtrain/Group/Agree.antt =====
-- The rank that a membership gives depends on its keys only, not on their order.
use go_iroh_experiments.Base.{
  ◌+◌, ◌≡◌, refl, sym, ap, ◌∙◌, true, false, [], ◌∷◌, none, inl, inr, if◌then◌else◌, arith, Bytes,
  Bool-cases, equal, equal_iff, equal_self,
}
use go_iroh_experiments.Base.Dict.{Map, lookup, insert, remove, lookup-insert, lookup-remove}
use go_iroh_experiments.Go.Strings.{str_ltb}
use go_iroh_experiments.Dtrain.Api.{Api}
use go_iroh_experiments.Dtrain.Group.Ranks.{is_key, AreDistinct, count_below}

pub insert-AreDistinct {ℓ} :
    {V : Type ℓ} (k : Bytes) (v : V) (m : Map V) → AreDistinct m → AreDistinct (insert k v m)
unfolding insert lookup
insert-AreDistinct k v [] d = (refl, tt)
insert-AreDistinct k v ((j, w) ∷ m) d = elim (Bool-cases (equal j k)) [
  | inl e ↦ rw e ((ap (λ i. lookup i m) (sym ((equal_iff j k).0 e)) ∙ d.0, d.1))
  | inr n ↦
      let other : equal k j ≡ false = elim (Bool-cases (equal k j)) [
        | inl e ↦ absurd (ground (arith, equal_iff k j, equal_iff j k))
        | inr f ↦ f
      ] in
      rw n ((lookup-insert k j v m ∙ rw other d.0, insert-AreDistinct k v m d.1))
]

pub remove-AreDistinct {ℓ} :
    {V : Type ℓ} (k : Bytes) (m : Map V) → AreDistinct m → AreDistinct (remove k m)
unfolding remove
remove-AreDistinct k [] d = tt
remove-AreDistinct k ((j, w) ∷ m) d = elim (Bool-cases (equal j k)) [
  | inl e ↦ rw e (remove-AreDistinct k m d.1)
  | inr n ↦ rw n ((lookup-remove k j m ∙ rw d.0 (ground arith), remove-AreDistinct k m d.1))
]

remove-absent {ℓ} : {V : Type ℓ} (k : Bytes) (m : Map V) → lookup k m ≡ none → remove k m ≡ m
unfolding lookup remove
remove-absent k [] h = refl
remove-absent k ((j, w) ∷ m) h = ground (arith, remove-absent k m)

is_key-cons {ℓ} :
    {V : Type ℓ} (id k : Bytes) (v : V) (m : Map V)
    → is_key id ((k, v) ∷ m) ≡ (if equal k id then true else is_key id m)
unfolding lookup
is_key-cons id k v m = ground arith

is_key-remove {ℓ} :
    {V : Type ℓ} (k id : Bytes) (m : Map V)
    → is_key id (remove k m) ≡ (if equal k id then false else is_key id m)
is_key-remove k id m = rw (lookup-remove k id m, is_key) (ground arith)

-- Without the first key, two maps of the same keys have the same keys.
is_key-rest {ℓ} :
    {V : Type ℓ} (k id : Bytes) (v : V) (m n : Map V)
    → lookup k m ≡ none
    → is_key id ((k, v) ∷ m) ≡ is_key id n
    → is_key id m ≡ is_key id (remove k n)
is_key-rest k id v m n fresh same = elim (Bool-cases (equal k id)) [
  | inl e ↦
      let other : id ≡ k = sym ((equal_iff k id).0 e) in
      rw (is_key-remove k id n, e) (ap (λ i. is_key i m) other ∙ rw (fresh, is_key) refl)
  | inr n' ↦ rw (is_key-remove k id n, n') (rw (is_key-cons id k v m, n') at same)
]

module _ (api : Api) where
  count-remove {ℓ} :
      {V : Type ℓ} (t k : Bytes) (m : Map V)
      → AreDistinct m
      → is_key k m ≡ true
      → count_below api t m
        ≡ (if str_ltb (api.id_string k) t then 1 else 0) + count_below api t (remove k m)
  unfolding count_below lookup remove
  count-remove t k [] d h = cc
  count-remove t k ((j, w) ∷ m) d h = elim (Bool-cases (equal j k)) [
    | inl e ↦
        let same : j ≡ k = (equal_iff j k).0 e in
        let gone = remove-absent k m (ap (λ i. lookup i m) (sym same) ∙ d.0) in
        rw (e, gone, same) refl
    | inr n ↦ rw n (omega (arith, count-remove t k m d.1 (rw (is_key-cons k j w m, n) at h)))
  ]

  pub count_below-agrees {ℓ} :
      {V : Type ℓ} (t : Bytes) (m n : Map V)
      → AreDistinct m
      → AreDistinct n
      → ((id : Bytes) → is_key id m ≡ is_key id n)
      → count_below api t m ≡ count_below api t n
  unfolding count_below lookup
  count_below-agrees t [] [] dm dn same = refl
  count_below-agrees t [] ((k, v) ∷ n) dm dn same = absurd (ground (arith, same k, equal_self k))
  count_below-agrees t ((k, v) ∷ m) n dm dn same =
      let here : is_key k n ≡ true = sym (same k) ∙ rw (is_key-cons k k v m, equal_self k) refl in
      let rest =
        count_below-agrees t m (remove k n) dm.1 (remove-AreDistinct k n dn)
          (λ id. is_key-rest k id v m n dm.0 (same id)) in
      rw (count-remove t k n dn here) (omega (arith, rest))
