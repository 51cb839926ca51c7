-- ===== src/Base/Strings.antt =====
-- `std::string` as the list of its bytes, with its `<` and `==`.
use Prim.Native.Nat.{ℕ}
use Prim.Native.Char.{code}
use Prim.Native.String.{String}
use mathlib.Core.Path.{◌≡◌, refl}
use mathlib.Core.Bool.{Bool, true, false, ◌&&◌}
use mathlib.Core.List.{List, [], ◌∷◌}
use native.Mathlib.Omega.{arith}
use archive_r.Base.Tests.{ltb, ◌==◌, if◌then◌else◌}

abbrev pub Text : Type 0
Text = List ℕ

-- The bytes of a literal, which is ASCII in this program.
abbrev pub codes : String → Text
codes String.[] = []
codes (String.◌∷◌ c s) = code c ∷ codes s

-- `std::string::operator<`: lexicographic over the bytes.
unfoldable pub text_ltb : Text → Text → Bool
text_ltb [] [] = false
text_ltb [] (y ∷ ys) = true
text_ltb (x ∷ xs) [] = false
text_ltb (x ∷ xs) (y ∷ ys) = if ltb x y then true else if ltb y x then false else text_ltb xs ys

-- `std::string::operator==`.
unfoldable pub text_eqb : Text → Text → Bool
text_eqb [] [] = true
text_eqb [] (y ∷ ys) = false
text_eqb (x ∷ xs) [] = false
text_eqb (x ∷ xs) (y ∷ ys) = (x == y) && text_eqb xs ys

pub text_ltb_irrefl : (a : Text) → text_ltb a a ≡ false
unfolding text_ltb
text_ltb_irrefl [] = refl
text_ltb_irrefl (x ∷ xs) = ground (arith, text_ltb_irrefl xs)

pub text_ltb_trans :
    (a b c : Text) → text_ltb a b ≡ true → text_ltb b c ≡ true → text_ltb a c ≡ true
unfolding text_ltb
text_ltb_trans [] [] c h k = ground arith
text_ltb_trans [] (y ∷ b) [] h k = ground arith
text_ltb_trans [] (y ∷ b) (z ∷ c) h k = refl
text_ltb_trans (x ∷ a) [] c h k = ground arith
text_ltb_trans (x ∷ a) (y ∷ b) [] h k = ground arith
text_ltb_trans (x ∷ a) (y ∷ b) (z ∷ c) h k = ground (arith, text_ltb_trans a b c)

-- Of two different strings one is below the other.
pub text_ltb_total : (a b : Text) → text_ltb a b ≡ false → text_ltb b a ≡ false → a ≡ b
unfolding text_ltb
text_ltb_total [] [] h k = refl
text_ltb_total [] (y ∷ b) h k = ground arith
text_ltb_total (x ∷ a) [] h k = ground arith
text_ltb_total (x ∷ a) (y ∷ b) h k = ground (arith, text_ltb_total a b)

pub text_eqb_refl : (a : Text) → text_eqb a a ≡ true
unfolding text_eqb
text_eqb_refl [] = refl
text_eqb_refl (x ∷ xs) = ground (arith, text_eqb_refl xs)

pub text_eqb→eq : (a b : Text) → text_eqb a b ≡ true → a ≡ b
unfolding text_eqb
text_eqb→eq [] [] h = refl
text_eqb→eq [] (y ∷ b) h = ground arith
text_eqb→eq (x ∷ a) [] h = ground arith
text_eqb→eq (x ∷ a) (y ∷ b) h = ground (arith, text_eqb→eq a b)
