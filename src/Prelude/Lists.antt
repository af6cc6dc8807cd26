-- ===== src/Prelude/Lists.antt =====
-- Lists measured and indexed by native numbers, and filtered by Boolean tests.
use Prim.Native.Nat.{ℕ, zero, suc, ◌+◌, ◌-◌, min}
use mathlib.Core.Path.{◌≡◌, refl, ap, subst}
use mathlib.Core.Bool.{Bool, true, false, ◌&&◌, ◌||◌}
use mathlib.Core.List.{List, [], ◌∷◌, ◌++◌, map, Permᴰ}
use mathlib.Core.List.Permᴰ
use mathlib.Core.Option.{Option, none, some, some-injective}
use native.Mathlib.Omega.{arith}
use crash_fuzz.Prelude.Tests.{if◌then◌else◌}

module _ {ℓ} {A : Type ℓ} where
  abbrev pub length : List A → ℕ
  length [] = 0
  length (x ∷ xs) = suc (length xs)

  abbrev pub get_elem? : List A → ℕ → Option A
  get_elem? [] i = none
  get_elem? (x ∷ xs) zero = some x
  get_elem? (x ∷ xs) (suc i) = get_elem? xs i

  abbrev pub take : ℕ → List A → List A
  take zero xs = []
  take (suc n) [] = []
  take (suc n) (x ∷ xs) = x ∷ take n xs

  abbrev pub drop : ℕ → List A → List A
  drop zero xs = xs
  drop (suc n) [] = []
  drop (suc n) (x ∷ xs) = drop n xs

  -- `xs.filter(p)`
  abbrev pub filter : (A → Bool) → List A → List A
  filter p [] = []
  filter p (x ∷ xs) = if p x then x ∷ filter p xs else filter p xs

  -- `xs.every(p)` and `xs.some(p)`
  abbrev pub all : (A → Bool) → List A → Bool
  all p [] = true
  all p (x ∷ xs) = p x && all p xs

  abbrev pub any : (A → Bool) → List A → Bool
  any p [] = false
  any p (x ∷ xs) = p x || any p xs

  -- `xs.find(p)`
  abbrev pub find : (A → Bool) → List A → Option A
  find p [] = none
  find p (x ∷ xs) = if p x then some x else find p xs

  -- `xs.entries()` from position `n`
  abbrev pub entries : ℕ → List A → List (ℕ × A)
  entries n [] = []
  entries n (x ∷ xs) = (n, x) ∷ entries (suc n) xs

  pub length-append : (xs ys : List A) → length (xs ++ ys) ≡ length xs + length ys
  length-append [] ys = omega arith
  length-append (x ∷ xs) ys = omega (arith, length-append xs ys)

  pub take-append-drop : (n : ℕ) (xs : List A) → take n xs ++ drop n xs ≡ xs
  take-append-drop zero xs = refl
  take-append-drop (suc n) [] = refl
  take-append-drop (suc n) (x ∷ xs) = ap (◌∷◌ x) (take-append-drop n xs)

  pub length-take : (n : ℕ) (xs : List A) → length (take n xs) ≡ min n (length xs)
  length-take zero xs = omega arith
  length-take (suc n) [] = omega arith
  length-take (suc n) (x ∷ xs) = omega (arith, length-take n xs)

  pub length-drop : (n : ℕ) (xs : List A) → length (drop n xs) ≡ length xs - n
  length-drop zero xs = omega arith
  length-drop (suc n) [] = omega arith
  length-drop (suc n) (x ∷ xs) = omega (arith, length-drop n xs)

  pub filter-append :
      (p : A → Bool) (xs ys : List A) → filter p (xs ++ ys) ≡ filter p xs ++ filter p ys
  filter-append p [] ys = refl
  filter-append p (x ∷ xs) ys = ground (arith, filter-append p xs ys)

module _ {ℓ κ} {A : Type ℓ} {B : Type κ} where
  abbrev pub flat_map : (A → List B) → List A → List B
  flat_map f [] = []
  flat_map f (x ∷ xs) = f x ++ flat_map f xs

  -- `xs.filter(...).map(...)` where the test and the map look at one tag
  abbrev pub filter_map : (A → Option B) → List A → List B
  filter_map f [] = []
  filter_map f (x ∷ xs) = elim (f x) [ none ↦ filter_map f xs | some y ↦ y ∷ filter_map f xs ]

  filter_map-cons_perm :
      (f : A → Option B) (a b : A) (xs ys : List A)
      → a ≡ b
      → Permᴰ (filter_map f xs) (filter_map f ys)
      → Permᴰ (filter_map f (a ∷ xs)) (filter_map f (b ∷ ys))
  filter_map-cons_perm f a b xs ys e d =
      subst (λ c. Permᴰ (filter_map f (a ∷ xs)) (filter_map f (c ∷ ys))) e (go (f a))
    where
      go :
          (o : Option B)
          → Permᴰ
              (elim o [ none ↦ filter_map f xs | some y ↦ y ∷ filter_map f xs ])
              (elim o [ none ↦ filter_map f ys | some y ↦ y ∷ filter_map f ys ])
      go none = d
      go (some y) = Permᴰ.cons refl d

  filter_map-swap_perm :
      (f : A → Option B) (a b : A) (xs : List A)
      → Permᴰ (filter_map f (a ∷ b ∷ xs)) (filter_map f (b ∷ a ∷ xs))
  filter_map-swap_perm f a b xs = go (f a) (f b)
    where
      go :
          (o p : Option B)
          → Permᴰ
              (elim o [
                | none ↦ elim p [ none ↦ filter_map f xs | some y ↦ y ∷ filter_map f xs ]
                | some z ↦ z ∷ elim p [ none ↦ filter_map f xs | some y ↦ y ∷ filter_map f xs ]
              ])
              (elim p [
                | none ↦ elim o [ none ↦ filter_map f xs | some y ↦ y ∷ filter_map f xs ]
                | some z ↦ z ∷ elim o [ none ↦ filter_map f xs | some y ↦ y ∷ filter_map f xs ]
              ])
      go none none = Permᴰ.refl _
      go none (some y) = Permᴰ.refl _
      go (some z) none = Permᴰ.refl _
      go (some z) (some y) = Permᴰ.swap refl refl

  pub filter_map-perm :
      (f : A → Option B) {xs ys : List A} → Permᴰ xs ys → Permᴰ (filter_map f xs) (filter_map f ys)
  filter_map-perm f Permᴰ.nil = Permᴰ.nil
  filter_map-perm f (Permᴰ.cons e d) = filter_map-cons_perm f _ _ _ _ e (filter_map-perm f d)
  filter_map-perm f (Permᴰ.swap {a} {b} {b'} {l} e g) =
      subst (λ u. Permᴰ (filter_map f (a ∷ b ∷ l)) (filter_map f (u ∷ b' ∷ l))) g
        (subst (λ u. Permᴰ (filter_map f (a ∷ b ∷ l)) (filter_map f (b ∷ u ∷ l))) e
          (filter_map-swap_perm f a b l))
  filter_map-perm f (Permᴰ.trans d e) = Permᴰ.trans (filter_map-perm f d) (filter_map-perm f e)

  pub length-map : (f : A → B) (xs : List A) → length (map f xs) ≡ length xs
  length-map f [] = refl
  length-map f (x ∷ xs) = ap suc (length-map f xs)

-- `Array.from({ length: n }, (_, i) => i)`, from `k`
abbrev pub range_from : ℕ → ℕ → List ℕ
range_from k zero = []
range_from k (suc n) = k ∷ range_from (suc k) n

-- A predicate of every element.
abbrev pub All {ℓ κ} : {A : Type ℓ} → (A → Type κ) → List A → Type κ
All P [] = Unit
All P (x ∷ xs) = P x × All P xs

module _ {ℓ κ} {A : Type ℓ} (P : A → Type κ) where
  pub All-append : (xs ys : List A) → All P xs → All P ys → All P (xs ++ ys)
  All-append [] ys hx hy = hy
  All-append (x ∷ xs) ys hx hy = (hx.0, All-append xs ys hx.1 hy)

  pub All-filter_keep : (p : A → Bool) (xs : List A) → All P xs → All P (filter p xs)
  All-filter_keep p [] h = tt
  All-filter_keep p (x ∷ xs) (q, h) = ground (arith, All-filter_keep p xs h)

  pub All_of : ((x : A) → P x) → (xs : List A) → All P xs
  All_of f [] = tt
  All_of f (x ∷ xs) = (f x, All_of f xs)

  pub All-filter :
      (p : A → Bool) → ((x : A) → p x ≡ true → P x) → (xs : List A) → All P (filter p xs)
  All-filter p f [] = tt
  All-filter p f (x ∷ xs) = ground (arith, f x, All-filter p f xs)

module _ {ℓ κ μ} {A : Type ℓ} {P : A → Type κ} {Q : A → Type μ} where
  pub All-map : ((x : A) → P x → Q x) → (xs : List A) → All P xs → All Q xs
  All-map f [] h = tt
  All-map f (x ∷ xs) (p, h) = (f x p, All-map f xs h)

module _ {ℓ κ μ} {A : Type ℓ} {B : Type κ} (P : B → Type μ) where
  pub All-flat_map :
      (f : A → List B) (xs : List A) → All (λ x. All P (f x)) xs → All P (flat_map f xs)
  All-flat_map f [] h = tt
  All-flat_map f (x ∷ xs) (p, h) = All-append P (f x) (flat_map f xs) p (All-flat_map f xs h)

module _ {κ μ} {B : Type κ} where
  -- A predicate of every element, at an element that is found by its position.
  pub All-get_elem? :
      (P : B → Type μ) (xs : List B) (i : ℕ) (x : B) → All P xs → get_elem? xs i ≡ some x → P x
  All-get_elem? P [] i x h e = cc
  All-get_elem? P (y ∷ ys) zero x h e = subst P (some-injective y x e) h.0
  All-get_elem? P (y ∷ ys) (suc i) x h e = All-get_elem? P ys i x h.1 e
