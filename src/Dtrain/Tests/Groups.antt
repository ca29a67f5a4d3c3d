-- ===== src/Dtrain/Tests/Groups.antt =====
-- The theorems on groups, collectives and handlers, at groups of two.
use go_iroh_experiments.Base.{
  ℕ, zero, suc, ◌≤◌, ◌*◌, ◌≡◌, refl, true, false, List, [], ◌∷◌, none, some, arith, Bytes, codes,
  equal,
}
use go_iroh_experiments.Base.Dict.{lookup, insert}
use go_iroh_experiments.Go.Strings.{str_ltb}
use go_iroh_experiments.Dtrain.Frame.{AllReduceFrame, ok}
use go_iroh_experiments.Dtrain.Group.{
  Group, Member, MemberState, find_rank, has_member, rank, set_member, refresh_locked, emit_locked,
  ranking, rank_from, sort_members, insert_member, next_members, same_members, same_member,
  equal_texts, kept_addr,
}
use go_iroh_experiments.Dtrain.Events.{neighbor_up, new_group, handle}
use go_iroh_experiments.Dtrain.Group.Ranks.{is_key}
use go_iroh_experiments.Dtrain.Events.Run.{Turn, event, turn, turns, turns-rank_agrees}
use go_iroh_experiments.Dtrain.Collective.{scaled, all_reduce, all_gather, rank_of_member}
use go_iroh_experiments.Dtrain.Exchange.{Dial, sum, hear, wait_inbound_frame, publish_local}
use go_iroh_experiments.Dtrain.Collective.Reduced.{session, Hears, done, itself, peer}
use go_iroh_experiments.Dtrain.Collective.Exact.{IsExact, same, total}
use go_iroh_experiments.Dtrain.Collective.Agree.{all_reduce-agrees}
use go_iroh_experiments.Dtrain.Collective.Gathered.{all_gather-InOrder}
use go_iroh_experiments.Dtrain.Tests.{test_api, frame, written}

abbrev at_a : Group
at_a = new_group test_api (codes "g") (codes "a") (codes "a") true 0

abbrev at_b : Group
at_b = new_group test_api (codes "g") (codes "b") (codes "b") true 0

abbrev up : Bytes → Turn
up id = event (neighbor_up id) 1

two_keys :
    (a b k : Bytes) (x y u v : MemberState)
    → is_key k ((a, x) ∷ (b, y) ∷ []) ≡ is_key k ((b, u) ∷ (a, v) ∷ [])
unfolding lookup
two_keys a b k x y u v = ground arith

same_keys :
    (k : Bytes)
    → has_member (turns test_api at_b (up (codes "a") ∷ [])) k
      ≡ has_member (turns test_api at_a (up (codes "b") ∷ [])) k
unfolding has_member turns turn handle new_group set_member kept_addr refresh_locked emit_locked
    ranking rank_from sort_members insert_member next_members same_members same_member equal_texts
    lookup insert str_ltb equal
same_keys k = two_keys (codes "b") (codes "a") k _ _ _ _

turns-rank_agrees_example :
    find_rank (codes "b") (turns test_api at_b (up (codes "a") ∷ [])).ranked
    ≡ find_rank (codes "b") (turns test_api at_a (up (codes "b") ∷ [])).ranked
turns-rank_agrees_example =
    turns-rank_agrees test_api (λ a b e. e) (codes "g") (codes "b") (codes "b") (codes "g")
      (codes "a") (codes "a") true true 0 0 (up (codes "a") ∷ []) (up (codes "b") ∷ []) (codes "b")
      same_keys

rank_of_b : find_rank (codes "b") (turns test_api at_b (up (codes "a") ∷ [])).ranked ≡ some 1
unfolding find_rank turns turn handle new_group set_member kept_addr refresh_locked emit_locked
    ranking rank_from sort_members insert_member next_members same_members same_member equal_texts
    lookup insert str_ltb equal
rank_of_b = refl

-- Endpoint `a` has rank 0 and `b` has rank 1.
abbrev pub a : Member
a = record { id = codes "a"; rank = 0; addr = codes "a" }

abbrev pub b : Member
b = record { id = codes "b"; rank = 1; addr = codes "b" }

abbrev pub pair_at : Bytes → Group
pair_at self = record {
  name = codes "g";
  self = self;
  self_addr = self;
  has_handler = true;
  members =
      (codes "a", record { addr = codes "a"; seen = 0 })
      ∷ (codes "b", record { addr = codes "b"; seen = 0 })
      ∷ [];
  ranked = a ∷ b ∷ [];
  events = [];
  closed = false;
  seq = 0;
  bseq = 0;
  pending = λ seq. none;
  inbound = λ seq. none;
  bcast = λ seq. none;
}

-- What `b` meets when it dials `a`, whose vector is 1, 2.
abbrev pub dial_a : Dial
dial_a addr =
    some (record {
      remote = codes "a";
      opens = true;
      answer = λ req. written (codes "a") (1 ∷ 2 ∷ []);
    })

abbrev pub from_b : AllReduceFrame
from_b = frame 1 (codes "b") (3 ∷ 4 ∷ [])

-- A sum of at most `i` values up to 10.
abbrev IsSmall : ℕ → ℕ → Type 0
IsSmall i m = m ≤ i * 10

sums-IsExact : IsExact test_api sum 2 IsSmall
sums-IsExact = record {
  closed = λ i j m k few a b. omega arith;
  comm = λ i j m k few a b. omega arith;
  assoc = λ i j l m k h few a b c. omega arith;
}

a-Hears :
    Hears test_api
      (session test_api (pair_at (codes "a")) 0 (1 ∷ 2 ∷ []) sum dial_a)
      (a ∷ b ∷ [])
      (from_b ∷ [])
      (from_b ∷ [])
unfolding hear wait_inbound_frame
a-Hears = itself refl (peer refl refl done)

all_reduce-agrees_example :
    (t : List ℕ) × (total test_api sum ((1 ∷ 2 ∷ []) ∷ (3 ∷ 4 ∷ []) ∷ []) ≡ some t)
    × ((all_reduce test_api (pair_at (codes "a")) (1 ∷ 2 ∷ []) sum dial_a (from_b ∷ [])).1
        ≡ ok (scaled test_api sum 2 t))
unfolding rank find_rank equal
all_reduce-agrees_example =
    all_reduce-agrees test_api sum 2 IsSmall sums-IsExact (pair_at (codes "a")) 0 (1 ∷ 2 ∷ [])
      dial_a (from_b ∷ []) (from_b ∷ []) ((1 ∷ 2 ∷ []) ∷ (3 ∷ 4 ∷ []) ∷ []) refl refl a-Hears
      (omega arith) (omega arith) (omega arith) same

abbrev pub vectors : ℕ → List ℕ
vectors zero = 1 ∷ 2 ∷ []
vectors (suc r) = 3 ∷ 4 ∷ []

all_gather-InOrder_example :
    (all_gather test_api (pair_at (codes "a")) (1 ∷ 2 ∷ []) dial_a (from_b ∷ [])).1
    ≡ ok (1 ∷ 2 ∷ 3 ∷ 4 ∷ [])
unfolding rank find_rank equal rank_of_member publish_local
all_gather-InOrder_example =
    all_gather-InOrder vectors test_api (pair_at (codes "a")) 0 dial_a (from_b ∷ []) (from_b ∷ [])
      (1 ∷ []) refl refl a-Hears (refl, refl, refl, tt)
