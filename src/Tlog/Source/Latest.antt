-- ===== src/Tlog/Source/Latest.antt =====
-- `latestCheckpoint` takes the checkpoint of the largest tree.
use go_iroh_experiments.Base.{
  ℕ, ◌^◌, ◌≤◌, ◌<◌, ◌≡◌, refl, sym, ap, subst, ◌∙◌, ◌⊎◌, inl, inr, true, false, ◌&&◌, List, [], ◌∷◌,
  arith, ltb, ltb→lt, if◌then◌else◌, Bytes, All, Bool-cases,
}
use go_iroh_experiments.Tlog.Source.{
  Source, Entry, is_checkpoint, checkpoint_key, str_ltb, latest_key,
}
use go_iroh_experiments.Tlog.Source.Order.{checkpoint_key_order}

-- Each checkpoint entry of the source's log has the key of a tree size.
abbrev pub AreSizes : Source → List Entry → Type 0
AreSizes s =
    All (λ e. is_checkpoint s e ≡ true → (n : ℕ) × (n < 10 ^ 20) × (e.key ≡ checkpoint_key n))

-- The size of a checkpoint entry is at most `m`.
abbrev pub AreAtMost : Source → ℕ → List Entry → Type 0
AreAtMost s m = All (λ e. is_checkpoint s e ≡ true → (n : ℕ) × (n ≤ m) × (e.key ≡ checkpoint_key n))

AreAtMost-mono :
    (s : Source) (m k : ℕ) (es : List Entry) → m ≤ k → AreAtMost s m es → AreAtMost s k es
AreAtMost-mono s m k [] h a = tt
AreAtMost-mono s m k (e ∷ es) h a =
    (λ c. let (n, le, key) = a.0 c in (n, omega arith, key), AreAtMost-mono s m k es h a.1)

-- A checkpoint entry of the list has the size `m`.
abbrev pub Attains : Source → ℕ → List Entry → Type 0
Attains s m [] = ⊥
Attains s m (e ∷ es) = ((is_checkpoint s e ≡ true) × (e.key ≡ checkpoint_key m)) ⊎ Attains s m es

-- How the loop ends from the size `m`.
record Ends (s : Source) (m : ℕ) (es : List Entry) : Type 0 where
  size : ℕ
  size_small : size < 10 ^ 20
  above : m ≤ size
  key_is : latest_key s (checkpoint_key m) es ≡ checkpoint_key size
  at_most : AreAtMost s size es
  attained : (size ≡ m) ⊎ Attains s size es

Ends-hit :
    (s : Source) (e : Entry) (es : List Entry) (m n : ℕ)
    → m < 10 ^ 20
    → n < 10 ^ 20
    → is_checkpoint s e ≡ true
    → e.key ≡ checkpoint_key n
    → m < n
    → Ends s n es
    → Ends s m (e ∷ es)
unfolding latest_key
Ends-hit s e es m n hm hn c key less r = record {
  size = r.size;
  size_small = r.size_small;
  above = omega (arith, r.above);
  key_is =
      ap (λ (l : Bytes). latest_key s l es) (ground (arith, (checkpoint_key_order m n hm hn).0))
      ∙ r.key_is;
  at_most = (λ _. (n, r.above, key), r.at_most);
  attained = elim r.attained [
    | inl same ↦ inr (inl (c, key ∙ ap checkpoint_key (sym same)))
    | inr x ↦ inr (inr x)
  ];
}

Ends-miss :
    (s : Source) (e : Entry) (es : List Entry) (m n : ℕ)
    → m < 10 ^ 20
    → n < 10 ^ 20
    → e.key ≡ checkpoint_key n
    → n ≤ m
    → Ends s m es
    → Ends s m (e ∷ es)
unfolding latest_key
Ends-miss s e es m n hm hn key ge r = record {
  size = r.size;
  size_small = r.size_small;
  above = r.above;
  key_is =
      ap (λ (l : Bytes). latest_key s l es) (ground (arith, (checkpoint_key_order m n hm hn).0))
      ∙ r.key_is;
  at_most = (λ _. (n, omega (arith, r.above), key), r.at_most);
  attained = elim r.attained [ inl same ↦ inl same | inr x ↦ inr (inr x) ];
}

Ends-skip :
    (s : Source) (e : Entry) (es : List Entry) (m : ℕ)
    → is_checkpoint s e ≡ false
    → Ends s m es
    → Ends s m (e ∷ es)
unfolding latest_key
Ends-skip s e es m c r = record {
  size = r.size;
  size_small = r.size_small;
  above = r.above;
  key_is = ap (λ (l : Bytes). latest_key s l es) (ground arith) ∙ r.key_is;
  at_most = (λ t. absurd (ground arith), r.at_most);
  attained = elim r.attained [ inl same ↦ inl same | inr x ↦ inr (inr x) ];
}

latest_from : (s : Source) (es : List Entry) (m : ℕ) → m < 10 ^ 20 → AreSizes s es → Ends s m es
latest_from s [] m hm a = record {
  size = m;
  size_small = hm;
  above = omega arith;
  key_is = unfold latest_key in refl;
  at_most = tt;
  attained = inl refl;
}
latest_from s (e ∷ es) m hm a = elim (Bool-cases (is_checkpoint s e)) [
  | inl c ↦
      let (n, hn, key) = a.0 c in
      elim (Bool-cases (ltb m n)) [
        | inl less ↦ Ends-hit s e es m n hm hn c key (ltb→lt m n less) (latest_from s es n hn a.1)
        | inr ge ↦ Ends-miss s e es m n hm hn key (ground arith) (latest_from s es m hm a.1)
      ]
  | inr c ↦ Ends-skip s e es m c (latest_from s es m hm a.1)
]

-- The result of `latestCheckpoint`: nothing if the log has no checkpoint, and otherwise the blob of the
-- largest tree's.
pub data IsLatest (s : Source) (es : List Entry) : Bytes → Type 0 where
  absent : All (λ e. is_checkpoint s e ≡ false) es → IsLatest s es []
  largest :
      (m : ℕ) → m < 10 ^ 20 → Attains s m es → AreAtMost s m es → IsLatest s es (checkpoint_key m)

-- From a first checkpoint of size `n` on.
largest_from :
    (s : Source) (e : Entry) (es : List Entry) (n : ℕ)
    → n < 10 ^ 20
    → is_checkpoint s e ≡ true
    → e.key ≡ checkpoint_key n
    → Ends s n es
    → IsLatest s (e ∷ es) (latest_key s (checkpoint_key n) es)
largest_from s e es n hn c key r =
    subst (λ (l : Bytes). IsLatest s (e ∷ es) l) (sym r.key_is)
      (largest r.size r.size_small
        (elim r.attained [ inl same ↦ inl (c, key ∙ ap checkpoint_key (sym same)) | inr x ↦ inr x ])
        (λ _. (n, r.above, key), r.at_most))

IsLatest-skip :
    (s : Source) (e : Entry) (es : List Entry) {l : Bytes}
    → is_checkpoint s e ≡ false
    → IsLatest s es l
    → IsLatest s (e ∷ es) l
IsLatest-skip s e es c (absent none_there) = absent (c, none_there)
IsLatest-skip s e es c (largest m small there most) =
    largest m small (inr there) (λ t. absurd (ground arith), most)

str_ltb-nonempty : (n : ℕ) → str_ltb [] (checkpoint_key n) ≡ true
unfolding str_ltb checkpoint_key
str_ltb-nonempty n = refl

first_hit :
    (s : Source) (e : Entry) (n : ℕ)
    → is_checkpoint s e ≡ true
    → e.key ≡ checkpoint_key n
    → (if is_checkpoint s e && str_ltb [] e.key then e.key else []) ≡ checkpoint_key n
first_hit s e n c key = rw (c, key, str_ltb-nonempty n)

first_miss :
    (s : Source) (e : Entry)
    → is_checkpoint s e ≡ false
    → (if is_checkpoint s e && str_ltb [] e.key then e.key else []) ≡ []
first_miss s e c = rw c

-- Where each checkpoint entry of the source's log has the key of a tree size, `latestCheckpoint`
-- reads no key if the log has no checkpoint, and otherwise the key of the largest tree that
-- it has one of.
pub latest_key-IsLatest :
    (s : Source) (es : List Entry) → AreSizes s es → IsLatest s es (latest_key s [] es)
unfolding latest_key
latest_key-IsLatest s [] a = absent tt
latest_key-IsLatest s (e ∷ es) a = elim (Bool-cases (is_checkpoint s e)) [
  | inl c ↦
      let (n, hn, key) = a.0 c in
      subst (λ (l : Bytes). IsLatest s (e ∷ es) (latest_key s l es)) (sym (first_hit s e n c key))
        (largest_from s e es n hn c key (latest_from s es n hn a.1))
  | inr c ↦
      subst (λ (l : Bytes). IsLatest s (e ∷ es) (latest_key s l es)) (sym (first_miss s e c))
        (IsLatest-skip s e es c (latest_key-IsLatest s es a.1))
]
