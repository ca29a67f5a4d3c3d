-- ===== src/Base/Text.antt =====
-- Go strings and byte slices: lists of bytes.
use Prim.Native.Nat.{ℕ, ◌<◌}
use Prim.Native.Char.{code}
use Prim.Native.String.{String}
use mathlib.Core.Path.{◌≡◌, refl}
use mathlib.Core.Logic.{◌↔◌}
use mathlib.Core.Bool.{Bool, true, false, ◌&&◌}
use mathlib.Core.List.{List, [], ◌∷◌}
use native.Mathlib.Omega.{arith}
use go_iroh_experiments.Base.Tests.{◌==◌}
use go_iroh_experiments.Base.Lists.{All}

abbrev pub Bytes : Type 0
Bytes = List ℕ

-- Each item is a byte.
abbrev pub AreBytes : Bytes → Type 0
AreBytes = All (λ b. b < 256)

-- Each item is the code of an ASCII character.
abbrev pub AreAscii : Bytes → Type 0
AreAscii = All (λ b. b < 128)

-- The bytes of an ASCII literal.
abbrev pub codes : String → Bytes
codes String.[] = []
codes (String.◌∷◌ c s) = code c ∷ codes s

-- `bytes.Equal`, and `==` on strings and arrays.
unfoldable pub equal : Bytes → Bytes → Bool
equal [] [] = true
equal (x ∷ xs) (y ∷ ys) = x == y && equal xs ys
equal _ _ = false

-- It decides equality.
pub equal_iff : (left right : Bytes) → (equal left right ≡ true) ↔ (left ≡ right)
unfolding equal
equal_iff [] [] = ground arith
equal_iff [] (r ∷ right) = ground arith
equal_iff (l ∷ left) [] = ground arith
equal_iff (l ∷ left) (r ∷ right) = ground (equal_iff left right, arith)

pub equal_self : (text : Bytes) → equal text text ≡ true
equal_self text = (equal_iff text text).1 refl
