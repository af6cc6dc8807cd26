-- ===== src/Prelude/Equality.antt =====
-- Equality tests as an interface: `===` on numbers, strings and enumerations.
use Prim.Native.Nat.{ℕ}
use mathlib.Core.Path.{◌≡◌, refl}
use mathlib.Core.Logic.{◌↔◌}
use mathlib.Core.Bool.{Bool, true, false, ◌||◌}
use mathlib.Core.List.{List, [], ◌∷◌, ◌++◌}
use native.Mathlib.Omega.{arith}
use crash_fuzz.Prelude.Tests.{nat_beq, nat_beq_iff}

-- A test on `A` that decides equality.
pub record Eq {ℓ} (A : Type ℓ) : Type ℓ where
  pub beq : A → A → Bool
  pub beq_iff : (a b : A) → (beq a b ≡ true) ↔ (a ≡ b)

-- `===` on numbers
instance abbrev pub nat_eq : Eq ℕ
nat_eq = record { beq = nat_beq; beq_iff = nat_beq_iff }

infix 50 ◌==◌
abbrev pub ◌==◌ {ℓ} : {X : Type ℓ} ⦃e : Eq X⦄ (a b : X) → Bool
◌==◌ ⦃e⦄ a b = e.beq a b

module _ {ℓ} {A : Type ℓ} ⦃e : Eq A⦄ where
  pub eq→≡ : (a b : A) → (a == b) ≡ true → a ≡ b
  eq→≡ a b h = (e.beq_iff a b).0 h

  pub ==_refl : (a : A) → (a == a) ≡ true
  ==_refl a = (e.beq_iff a a).1 refl

  pub ≡→== : (a b : A) → a ≡ b → (a == b) ≡ true
  ≡→== a b h = (e.beq_iff a b).1 h

  pub ==_sym : (a b : A) → (a == b) ≡ (b == a)
  ==_sym a b = ground (arith, e.beq_iff a b, e.beq_iff b a)

  -- `xs.includes(a)`, and `s.has(a)` for a set kept as the list of its elements
  abbrev pub includes : A → List A → Bool
  includes a [] = false
  includes a (x ∷ xs) = x == a || includes a xs

  -- `s.add(a)`: a set lists its elements in the order in which they came
  abbrev pub add : A → List A → List A
  add a [] = a ∷ []
  add a (x ∷ xs) = elim (x == a) [ true ↦ x ∷ xs | false ↦ x ∷ add a xs ]

  -- `for (const a of as) s.add(a)`
  abbrev pub add_all : List A → List A → List A
  add_all [] s = s
  add_all (a ∷ as') s = add_all as' (add a s)

  pub includes-append :
      (a : A) (xs ys : List A) → includes a (xs ++ ys) ≡ (includes a xs || includes a ys)
  includes-append a [] ys = refl
  includes-append a (x ∷ xs) ys = ground (arith, includes-append a xs ys)

  pub includes-add : (a b : A) (s : List A) → includes a (add b s) ≡ (b == a || includes a s)
  includes-add a b [] = refl
  includes-add a b (x ∷ s) =
      ground (arith, e.beq_iff x b, e.beq_iff x a, e.beq_iff b a, includes-add a b s)

  pub includes-add_all :
      (a : A) (bs s : List A) → includes a (add_all bs s) ≡ (includes a bs || includes a s)
  includes-add_all a [] s = refl
  includes-add_all a (b ∷ bs) s =
      ground (arith, includes-add_all a bs (add b s), includes-add a b s)
