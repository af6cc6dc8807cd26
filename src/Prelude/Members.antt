-- ===== src/Prelude/Members.antt =====
-- Membership in lists and sets, against filters, ranges and predicates of every element.
use Prim.Native.Nat.{ℕ, zero, suc, ◌+◌, ◌≤◌, ◌<◌}
use mathlib.Core.Path.{◌≡◌, refl, sym, ◌∙◌, subst}
use mathlib.Core.Bool.{Bool, true, ◌&&◌}
use mathlib.Core.Logic.{inl, inr}
use mathlib.Core.List.{List, [], ◌∷◌}
use mathlib.Core.Option.{some}
use native.Mathlib.Omega.{arith}
use crash_fuzz.Prelude.Tests.{leb, ltb, Bool-cases, and-split}
use crash_fuzz.Prelude.Equality.{Eq, ◌==◌, includes, add, add_all, nat_eq, eq→≡, ==_refl}
use crash_fuzz.Prelude.Lists.{All, filter, all, any, range_from, get_elem?, length, take, drop}

module _ {ℓ} {A : Type ℓ} ⦃e : Eq A⦄ where
  pub includes-filter :
      (p : A → Bool) (a : A) (xs : List A) → includes a (filter p xs) ≡ (includes a xs && p a)
  includes-filter p a [] = refl
  includes-filter p a (x ∷ xs) = ground (arith, e.beq_iff x a, includes-filter p a xs)

  pub filter_member :
      (p : A → Bool) (a : A) (xs : List A)
      → includes a (filter p xs) ≡ true
      → (includes a xs ≡ true) × (p a ≡ true)
  filter_member p a xs h = and-split (includes a xs) (p a) (sym (includes-filter p a xs) ∙ h)

  pub All-of_includes {κ} :
      (P : A → Type κ) (xs : List A) → ((a : A) → includes a xs ≡ true → P a) → All P xs
  All-of_includes P [] h = tt
  All-of_includes P (x ∷ xs) h =
      (h x (ground (arith, ==_refl x)), All-of_includes P xs (λ a m. h a (ground arith)))

  pub All-includes {κ} :
      (P : A → Type κ) (a : A) (xs : List A) → All P xs → includes a xs ≡ true → P a
  All-includes P a [] h m = absurd (cc)
  All-includes P a (x ∷ xs) (p, h) m = elim (Bool-cases (x == a)) [
    | inl same ↦ subst P (eq→≡ x a same) p
    | inr other ↦ All-includes P a xs h (ground arith)
  ]

  pub any_intro :
      (p : A → Bool) (a : A) (xs : List A) → includes a xs ≡ true → p a ≡ true → any p xs ≡ true
  any_intro p a [] m h = cc
  any_intro p a (x ∷ xs) m h = ground (arith, e.beq_iff x a, any_intro p a xs)

  pub any_witness :
      (p : A → Bool) (xs : List A)
      → any p xs ≡ true
      → (a : A) × (includes a xs ≡ true) × (p a ≡ true)
  any_witness p [] h = absurd (cc)
  any_witness p (x ∷ xs) h = elim (Bool-cases (p x)) [
    | inl here ↦ (x, ground (arith, ==_refl x), here)
    | inr there ↦ let (a, m, q) = any_witness p xs (ground arith) in (a, ground arith, q)
  ]

  pub all_at :
      (p : A → Bool) (a : A) (xs : List A) → all p xs ≡ true → includes a xs ≡ true → p a ≡ true
  all_at p a [] h m = cc
  all_at p a (x ∷ xs) h m = ground (arith, e.beq_iff x a, all_at p a xs)

  pub all_intro :
      (p : A → Bool) (xs : List A) → ((a : A) → includes a xs ≡ true → p a ≡ true) → all p xs ≡ true
  all_intro p [] h = refl
  all_intro p (x ∷ xs) h =
      ground (arith, h x, ==_refl x, all_intro p xs (λ a m. h a (ground arith)))

pub includes-range_from : (a k n : ℕ) → includes a (range_from k n) ≡ (leb k a && ltb a (k + n))
includes-range_from a k zero = ground arith
includes-range_from a k (suc n) = ground (arith, includes-range_from a (suc k) n)

-- A position that holds an element is within the list.
pub lt-length_of_get_elem? {ℓ} :
    {A : Type ℓ} (xs : List A) (i : ℕ) (x : A) → get_elem? xs i ≡ some x → i < length xs
lt-length_of_get_elem? [] i x h = cc
lt-length_of_get_elem? (y ∷ ys) zero x h = omega arith
lt-length_of_get_elem? (y ∷ ys) (suc i) x h = omega (arith, lt-length_of_get_elem? ys i x h)

module _ {ℓ κ} {A : Type ℓ} (P : A → Type κ) where
  pub All-take : (n : ℕ) (xs : List A) → All P xs → All P (take n xs)
  All-take zero xs h = tt
  All-take (suc n) [] h = tt
  All-take (suc n) (x ∷ xs) (p, h) = (p, All-take n xs h)

  pub All-drop : (n : ℕ) (xs : List A) → All P xs → All P (drop n xs)
  All-drop zero xs h = h
  All-drop (suc n) [] h = tt
  All-drop (suc n) (x ∷ xs) (p, h) = All-drop n xs h

  module _ ⦃e : Eq A⦄ where
    pub All-add : (a : A) (s : List A) → P a → All P s → All P (add a s)
    All-add a [] p h = (p, tt)
    All-add a (x ∷ s) p (q, h) = ground (arith, All-add a s p h)

    pub All-add_all : (as' s : List A) → All P as' → All P s → All P (add_all as' s)
    All-add_all [] s h k = k
    All-add_all (a ∷ as') s (p, h) k = All-add_all as' (add a s) h (All-add a s p k)

pub range_from_member : (a k n : ℕ) → includes a (range_from k n) ≡ true → (k ≤ a) × (a < k + n)
range_from_member a k n h = ground (arith, includes-range_from a k n)

pub range_from_intro : (a k n : ℕ) → k ≤ a → a < k + n → includes a (range_from k n) ≡ true
range_from_intro a k n h l = ground (arith, includes-range_from a k n)
