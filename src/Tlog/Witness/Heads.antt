-- ===== src/Tlog/Witness/Heads.antt =====
-- What any sequence of calls of `cosign` keeps.
use go_iroh_experiments.Base.{◌≡◌, refl, sym, ◌∙◌, List, [], ◌∷◌, Option, none, some, arith, Bytes}
use go_iroh_experiments.Go.Int.{ℤ, ◌≤ℤ◌}
use go_iroh_experiments.Tlog.Api.{Api, Checkpoint}
use go_iroh_experiments.Tlog.Witness.{Head, Witness, Prove, Result, cosign}
use go_iroh_experiments.Tlog.Witness.Step.{
  Cosigns, Follows, conflicting, cosign-Cosigns, cosigned, extends, first, foreign, from_empty,
  same, unopened, unparsed, unsigned,
}

-- `b` may be the head some time after `a`: a tree not smaller, and the same one if the size is the same.
pub data HeadLe : Option Head → Option Head → Type 0 where
  none_yet : {o : Option Head} → HeadLe none o
  grows :
      {a b : Head}
      → a.checkpoint.tree_n ≤ℤ b.checkpoint.tree_n
      → (a.checkpoint.tree_n ≡ b.checkpoint.tree_n
          → a.checkpoint.tree_hash ≡ b.checkpoint.tree_hash)
      → HeadLe (some a) (some b)

pub HeadLe-refl : (o : Option Head) → HeadLe o o
HeadLe-refl none = none_yet
HeadLe-refl (some h) = grows (omega arith) (λ e. refl)

between : (a b c : ℤ) → a ≤ℤ b → b ≤ℤ c → a ≡ c → (a ≡ b) × (b ≡ c)
between a b c p q e = ground arith

pub HeadLe-trans : {a b c : Option Head} → HeadLe a b → HeadLe b c → HeadLe a c
HeadLe-trans none_yet q = none_yet
HeadLe-trans (grows {a} {b} p e) (grows {b = c} q f) = grows (omega arith) λ n.
    let (ab, bc) = between a.checkpoint.tree_n b.checkpoint.tree_n c.checkpoint.tree_n p q n in
    e ab ∙ f bc

pub Follows-HeadLe :
    {api : Api} {cp : Checkpoint} {o : Option Head} (m : Bytes)
    → Follows api cp o
    → HeadLe o (some (record { msg = m; checkpoint = cp }))
Follows-HeadLe m first = none_yet
Follows-HeadLe m (same n h) = grows (ground arith) (λ e. sym h)
Follows-HeadLe m (extends proof more t) = grows (ground arith) (λ e. absurd (ground arith))
Follows-HeadLe m (from_empty more z) = grows (ground arith) (λ e. absurd (ground arith))

Cosigns-HeadLe :
    {api : Api} {signer : Bytes} {prove : Prove} {w : Witness} {msg : Bytes}
    {r : Witness × Result Bytes}
    → Cosigns api signer prove w msg r
    → HeadLe w.head (r.0).head
Cosigns-HeadLe (cosigned n cp m o p e f s) = Follows-HeadLe m f
Cosigns-HeadLe {w} (unopened o) = HeadLe-refl w.head
Cosigns-HeadLe {w} (unparsed n o p) = HeadLe-refl w.head
Cosigns-HeadLe {w} (foreign n cp o p e) = HeadLe-refl w.head
Cosigns-HeadLe {w} (conflicting n cp x o p e c) = HeadLe-refl w.head
Cosigns-HeadLe {w} (unsigned n cp o p e f s) = HeadLe-refl w.head

-- A sequence of calls, each with what the source holds at its time.
unfoldable pub run : Api → Bytes → Witness → List (Prove × Bytes) → Witness
run api signer w [] = w
run api signer w ((prove, msg) ∷ calls) = run api signer (cosign api signer prove w msg).0 calls

-- No sequence of calls takes the head back, or to another tree of the same size: the head never gets
-- smaller, and two heads of one size, at any two times, have one hash.
pub run-HeadLe :
    (api : Api) (signer : Bytes) (calls : List (Prove × Bytes)) (w : Witness)
    → HeadLe w.head (run api signer w calls).head
unfolding run
run-HeadLe api signer [] w = HeadLe-refl w.head
run-HeadLe api signer ((prove, msg) ∷ calls) w =
    HeadLe-trans (Cosigns-HeadLe (cosign-Cosigns api signer prove w msg))
      (run-HeadLe api signer calls (cosign api signer prove w msg).0)
