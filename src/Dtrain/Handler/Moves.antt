-- ===== src/Dtrain/Handler/Moves.antt =====
-- A group between the calls and the frames of its peers, in any order.
use mathlib.Core.List.{append_assoc, append-nil}
use go_iroh_experiments.Base.{
  ℕ, zero, suc, ◌≡◌, refl, sym, ap, ◌∙◌, true, false, List, [], ◌∷◌, ◌++◌, Option, none, some, inl,
  inr, ltb, ◌==◌, ==_iff, if◌then◌else◌, arith, length, take, Bool-cases, Option-cases,
}
use go_iroh_experiments.Dtrain.Frame.{AllReduceFrame}
use go_iroh_experiments.Dtrain.Group.{Channel, Group, update}
use go_iroh_experiments.Dtrain.Exchange.{publish_local, clear_local}
use go_iroh_experiments.Dtrain.Handler.{send, deliver_inbound}

-- A call publishes its vector, or clears it when it returns; a handler delivers a frame.
pub data Move : Type 0 where
  published : ℕ → List ℕ → Move
  cleared : ℕ → Move
  delivered : AllReduceFrame → Move

unfoldable pub move : Group → Move → Group
move g (published seq values) = publish_local g seq values
move g (cleared seq) = clear_local g seq
move g (delivered f) = deliver_inbound g f

unfoldable pub moves : Group → List Move → Group
moves g [] = g
moves g (m ∷ ms) = moves (move g m) ms

-- No call with the number.
abbrev pub IsOther : ℕ → List Move → Type 0
IsOther seq [] = Unit
IsOther seq (published s values ∷ ms) = ((seq == s) ≡ false) × IsOther seq ms
IsOther seq (cleared s ∷ ms) = ((seq == s) ≡ false) × IsOther seq ms
IsOther seq (delivered f ∷ ms) = IsOther seq ms

-- The frames with the number.
abbrev pub frames_for : ℕ → List Move → List AllReduceFrame
frames_for seq [] = []
frames_for seq (published s values ∷ ms) = frames_for seq ms
frames_for seq (cleared s ∷ ms) = frames_for seq ms
frames_for seq (delivered f ∷ ms) =
    let rest = frames_for seq ms in if seq == f.seq then f ∷ rest else rest

abbrev pub channel : ℕ → List AllReduceFrame → Channel
channel capacity frames = record { capacity = capacity; frames = take capacity frames }

abbrev pub channel_of : ℕ → List AllReduceFrame → Channel
channel_of capacity frames = record { capacity = capacity; frames = frames }

pub take_none : (k : ℕ) → take k (let none_left : List AllReduceFrame = [] in none_left) ≡ []
take_none zero = refl
take_none (suc k) = refl

take-send :
    (k : ℕ) (fs : List AllReduceFrame) (f : AllReduceFrame)
    → (if ltb (length (take k fs)) k then take k fs ++ (f ∷ []) else take k fs)
      ≡ take k (fs ++ (f ∷ []))
take-send zero fs f = refl
take-send (suc k) [] f = ground (arith, take_none k)
take-send (suc k) (x ∷ fs) f = ground (arith, take-send k fs f)

send_lem :
    (k : ℕ) (fs : List AllReduceFrame) (f : AllReduceFrame)
    → send (channel k fs) f ≡ channel k (fs ++ (f ∷ []))
unfolding send
send_lem k fs f = elim (Bool-cases (ltb (length (take k fs)) k)) [
  | inl room ↦ rw room (ap (channel_of k) (rw room at (take-send k fs f)))
  | inr full ↦ rw full (ap (channel_of k) (rw full at (take-send k fs f)))
]

pub update_self {ℓ} : {V : Type ℓ} (m : ℕ → V) (seq : ℕ) (v : V) → update m seq v seq ≡ v
update_self m seq v = rw ((==_iff seq seq).1 refl) refl

pub deliver-absent :
    (g : Group) (f : AllReduceFrame) → g.inbound f.seq ≡ none → deliver_inbound g f ≡ g
unfolding deliver_inbound
deliver-absent g f absent = rw (absent, deliver_inbound) refl

pending-deliver : (g : Group) (f : AllReduceFrame) → (deliver_inbound g f).pending ≡ g.pending
unfolding deliver_inbound
pending-deliver g f = elim (Option-cases (g.inbound f.seq)) [
  | inl e ↦ rw (e, deliver_inbound) refl
  | inr (ch, e) ↦ rw (e, deliver_inbound) refl
]

pub pending-moves :
    (g : Group) (ms : List Move) (seq : ℕ) (held : Option (List ℕ))
    → g.pending seq ≡ held
    → IsOther seq ms
    → (moves g ms).pending seq ≡ held
unfolding moves move publish_local clear_local
pending-moves g [] seq held h o = h
pending-moves g (published s values ∷ ms) seq held h o =
    pending-moves (publish_local g s values) ms seq held (ground (arith, o.0)) o.1
pending-moves g (cleared s ∷ ms) seq held h o =
    pending-moves (clear_local g s) ms seq held (ground (arith, o.0)) o.1
pending-moves g (delivered f ∷ ms) seq held h o =
    pending-moves (deliver_inbound g f) ms seq held
      (ap (λ (p : ℕ → Option (List ℕ)). p seq) (pending-deliver g f) ∙ h) o

deliver_mine :
    (g : Group) (f : AllReduceFrame) (seq k : ℕ) (fs : List AllReduceFrame)
    → (seq == f.seq) ≡ true
    → g.inbound seq ≡ some (channel k fs)
    → (deliver_inbound g f).inbound seq ≡ some (channel k (fs ++ (f ∷ [])))
unfolding deliver_inbound
deliver_mine g f seq k fs mine h =
    let same : seq ≡ f.seq = (==_iff seq f.seq).0 mine in
    let here : g.inbound f.seq ≡ some (channel k fs) = ap g.inbound (sym same) ∙ h in
    rw (here, deliver_inbound, mine) (ap some (send_lem k fs f))

deliver_other :
    (g : Group) (f : AllReduceFrame) (seq : ℕ)
    → (seq == f.seq) ≡ false
    → (deliver_inbound g f).inbound seq ≡ g.inbound seq
unfolding deliver_inbound
deliver_other g f seq other = elim (Option-cases (g.inbound f.seq)) [
  | inl e ↦ rw (e, deliver_inbound) refl
  | inr (ch, e) ↦ rw (e, deliver_inbound, other) refl
]

pub inbound-moves :
    (g : Group) (ms : List Move) (seq k : ℕ) (fs : List AllReduceFrame)
    → g.inbound seq ≡ some (channel k fs)
    → IsOther seq ms
    → (moves g ms).inbound seq ≡ some (channel k (fs ++ frames_for seq ms))
unfolding moves move publish_local clear_local deliver_inbound
inbound-moves g [] seq k fs h o = rw append-nil h
inbound-moves g (published s values ∷ ms) seq k fs h o =
    inbound-moves (publish_local g s values) ms seq k fs (ground (arith, o.0)) o.1
inbound-moves g (cleared s ∷ ms) seq k fs h o =
    inbound-moves (clear_local g s) ms seq k fs (ground (arith, o.0)) o.1
inbound-moves g (delivered f ∷ ms) seq k fs h o = elim (Bool-cases (seq == f.seq)) [
  | inl mine ↦ rw mine (
      inbound-moves (deliver_inbound g f) ms seq k (fs ++ (f ∷ []))
        (deliver_mine g f seq k fs mine h) o
      ∙ ap (λ (xs : List AllReduceFrame). some (channel k xs))
          (append_assoc fs (f ∷ []) (frames_for seq ms)))
  | inr other ↦
      rw other (inbound-moves (deliver_inbound g f) ms seq k fs (deliver_other g f seq other ∙ h) o)
]
