-- ===== src/Common/Equality.antt =====
-- Go's `==` on the comparable types of the program, as an interface with instances.
use Prim.Native.Nat.{ℕ}
use Prim.Native.String.{String}
use mathlib.Core.Path.{◌≡◌, refl}
use mathlib.Core.Logic.{◌↔◌}
use mathlib.Core.Bool.{Bool, true, false, ◌||◌}
use mathlib.Core.List.{List, [], ◌∷◌, ◌++◌}
use native.Mathlib.Omega.{arith}
use text.Mathlib.Text.{◌==◌ as str_eqb}
use text.Mathlib.TextEquality.{eq_iff}
use aloqa_codex.Common.Tests.{nat_eqb, nat_eqb_iff}

pub record Eq {ℓ} (A : Type ℓ) : Type ℓ where
  pub eqb : A → A → Bool
  pub eqb_iff : (a b : A) → (eqb a b ≡ true) ↔ (a ≡ b)

infix 50 ◌==◌
abbrev pub ◌==◌ {ℓ} : {A : Type ℓ} ⦃e : Eq A⦄ → A → A → Bool
◌==◌ ⦃e⦄ = e.eqb

instance abbrev pub nat_eq : Eq ℕ
nat_eq = record { eqb = nat_eqb; eqb_iff = nat_eqb_iff }

instance abbrev pub string_eq : Eq String
string_eq = record { eqb = str_eqb; eqb_iff = eq_iff }

module _ {ℓ} {A : Type ℓ} ⦃e : Eq A⦄ where
  pub ==_refl : (a : A) → (a == a) ≡ true
  ==_refl a = (e.eqb_iff a a).1 refl

  -- `for _, x := range xs { if x == a { return true } }`
  abbrev pub contains : A → List A → Bool
  contains a [] = false
  contains a (x ∷ xs) = x == a || contains a xs

  abbrev pub Distinct : List A → Type 0
  Distinct [] = Unit {0}
  Distinct (x ∷ xs) = (contains x xs ≡ false) × Distinct xs

  pub contains-append :
      (a : A) (xs ys : List A) → contains a (xs ++ ys) ≡ (contains a xs || contains a ys)
  contains-append a [] ys = refl
  contains-append a (x ∷ xs) ys = ground (arith, contains-append a xs ys)

  -- A new last element keeps the elements distinct.
  pub Distinct-snoc :
      (a : A) (xs : List A) → contains a xs ≡ false → Distinct xs → Distinct (xs ++ a ∷ [])
  Distinct-snoc a [] h d = (refl, tt)
  Distinct-snoc a (x ∷ xs) h d =
      ground
        (arith, contains-append x xs (a ∷ []), e.eqb_iff x a, e.eqb_iff a x, Distinct-snoc a xs)
