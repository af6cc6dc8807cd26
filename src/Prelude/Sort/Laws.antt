-- ===== src/Prelude/Sort/Laws.antt =====
-- Lemmas on the sort: its order, its elements, its length and filters of it.
use Prim.Native.Nat.{ℕ, zero, suc, ◌≤◌, ◌<◌}
use mathlib.Core.Path.{◌≡◌, refl, ap, ◌∙◌}
use mathlib.Core.Bool.{Bool, true, ◌||◌}
use mathlib.Core.List.{List, [], ◌∷◌, Permᴰ}
use mathlib.Core.List.Permᴰ
use native.Mathlib.Decide.{dec_le}
use native.Mathlib.Omega.{arith}
use crash_fuzz.Prelude.Tests.{if◌then◌else◌}
use crash_fuzz.Prelude.Lists.{All, All-map, All-filter_keep, length, filter, take}
use crash_fuzz.Prelude.Members.{All-includes, All-take}
use crash_fuzz.Prelude.Equality.{Eq, ◌==◌, includes, nat_eq}
use crash_fuzz.Prelude.Sort.Defs.{insert_by, sort_by, IsSortedBy, IsSorted}

module _ {ℓ} {A : Type ℓ} (key : A → ℕ) where
  pub insert_by_first :
      (x y : A) (ys : List A) → key x ≤ key y → insert_by key x (y ∷ ys) ≡ x ∷ y ∷ ys
  unfolding insert_by
  insert_by_first x y ys h = ground arith

  pub insert_by_later :
      (x y : A) (ys : List A) → key y < key x → insert_by key x (y ∷ ys) ≡ y ∷ insert_by key x ys
  unfolding insert_by
  insert_by_later x y ys h = ground arith

  pub length-insert_by : (x : A) (xs : List A) → length (insert_by key x xs) ≡ suc (length xs)
  unfolding insert_by
  length-insert_by x [] = refl
  length-insert_by x (y ∷ ys) = ground (arith, length-insert_by x ys)

  pub length-sort_by : (xs : List A) → length (sort_by key xs) ≡ length xs
  unfolding sort_by
  length-sort_by [] = refl
  length-sort_by (x ∷ xs) = length-insert_by x (sort_by key xs) ∙ ap suc (length-sort_by xs)

  module _ {κ} (P : A → Type κ) where
    pub All-insert_by : (x : A) (xs : List A) → P x → All P xs → All P (insert_by key x xs)
    unfolding insert_by
    All-insert_by x [] p h = (p, tt)
    All-insert_by x (y ∷ ys) p (q, h) = ground (arith, All-insert_by x ys p h)

    pub All-sort_by : (xs : List A) → All P xs → All P (sort_by key xs)
    unfolding sort_by
    All-sort_by [] h = tt
    All-sort_by (x ∷ xs) (p, h) = All-insert_by x (sort_by key xs) p (All-sort_by xs h)

  pub below_all :
      (x y : A) (ys : List A)
      → key x ≤ key y
      → All (λ z. key y ≤ key z) ys
      → All (λ z. key x ≤ key z) ys
  below_all x y ys h = All-map (λ z k. omega arith) ys

  pub insert_by-IsSortedBy :
      (x : A) (xs : List A) → IsSortedBy key xs → IsSortedBy key (insert_by key x xs)
  unfolding insert_by
  insert_by-IsSortedBy x [] h = (tt, tt)
  insert_by-IsSortedBy x (y ∷ ys) (b, h) = elim (dec_le (key x) (key y)) [
    | yes e ↦ rw (insert_by_first x y ys e) ((e, below_all x y ys e b), (b, h))
    | no e ↦
        rw (insert_by_later x y ys (omega arith))
          (All-insert_by (λ z. key y ≤ key z) x ys (omega arith) b, insert_by-IsSortedBy x ys h)
  ]

  pub sort_by-IsSortedBy : (xs : List A) → IsSortedBy key (sort_by key xs)
  unfolding sort_by
  sort_by-IsSortedBy [] = tt
  sort_by-IsSortedBy (x ∷ xs) = insert_by-IsSortedBy x (sort_by key xs) (sort_by-IsSortedBy xs)

  pub insert_by_least :
      (x : A) (xs : List A) → All (λ z. key x ≤ key z) xs → insert_by key x xs ≡ x ∷ xs
  unfolding insert_by
  insert_by_least x [] h = refl
  insert_by_least x (y ∷ ys) h = insert_by_first x y ys h.0

  pub sort_by_of_IsSortedBy : (xs : List A) → IsSortedBy key xs → sort_by key xs ≡ xs
  unfolding sort_by
  sort_by_of_IsSortedBy [] h = refl
  sort_by_of_IsSortedBy (x ∷ xs) (b, h) = rw (sort_by_of_IsSortedBy xs h) (insert_by_least x xs b)

  pub includes-insert_by :
      ⦃e : Eq A⦄ (a x : A) (xs : List A)
      → includes a (insert_by key x xs) ≡ (x == a || includes a xs)
  unfolding insert_by
  includes-insert_by a x [] = refl
  includes-insert_by a x (y ∷ ys) = ground (arith, includes-insert_by a x ys)

  pub includes-sort_by :
      ⦃e : Eq A⦄ (a : A) (xs : List A) → includes a (sort_by key xs) ≡ includes a xs
  unfolding sort_by
  includes-sort_by a [] = refl
  includes-sort_by a (x ∷ xs) =
      ground (arith, includes-insert_by a x (sort_by key xs), includes-sort_by a xs)

  pub insert_by-perm : (x : A) (xs : List A) → Permᴰ (insert_by key x xs) (x ∷ xs)
  unfolding insert_by
  insert_by-perm x [] = Permᴰ.refl _
  insert_by-perm x (y ∷ ys) = elim (dec_le (key x) (key y)) [
    | yes e ↦ rw (insert_by_first x y ys e) (Permᴰ.refl _)
    | no e ↦
        rw (insert_by_later x y ys (omega arith))
          (Permᴰ.trans (Permᴰ.cons refl (insert_by-perm x ys)) (Permᴰ.swap refl refl))
  ]

  pub sort_by-perm : (xs : List A) → Permᴰ (sort_by key xs) xs
  unfolding sort_by
  sort_by-perm [] = Permᴰ.nil
  sort_by-perm (x ∷ xs) =
      Permᴰ.trans (insert_by-perm x (sort_by key xs)) (Permᴰ.cons refl (sort_by-perm xs))

  filter-insert_by :
      (p : A → Bool) (x : A) (xs : List A)
      → IsSortedBy key xs
      → filter p (insert_by key x xs) ≡ (if p x then insert_by key x (filter p xs) else filter p xs)
  unfolding insert_by
  filter-insert_by p x [] h = refl
  filter-insert_by p x (y ∷ ys) (b, h) = elim (dec_le (key x) (key y)) [
    | yes e ↦ rw (insert_by_first x y ys e) (
        ground (
          arith,
          insert_by_least x (filter p (y ∷ ys))
              (All-filter_keep (λ z. key x ≤ key z) p (y ∷ ys) (e, below_all x y ys e b)),
        ))
    | no e ↦
        rw (insert_by_later x y ys (omega arith))
          (ground (arith, filter-insert_by p x ys h, insert_by_later x y (filter p ys)))
  ]

  -- Sorting is stable: the elements that a test selects keep their order among themselves.
  pub filter-sort_by :
      (p : A → Bool) (xs : List A) → filter p (sort_by key xs) ≡ sort_by key (filter p xs)
  unfolding sort_by
  filter-sort_by p [] = refl
  filter-sort_by p (x ∷ xs) =
      ground
        (arith, filter-insert_by p x (sort_by key xs) (sort_by-IsSortedBy xs), filter-sort_by p xs)

-- In an ascending list, what stands before an element of a prefix is in the prefix.
pub includes-take_of_lt :
    (n j i : ℕ) (xs : List ℕ)
    → IsSorted xs
    → includes j xs ≡ true
    → includes i (take n xs) ≡ true
    → j < i
    → includes j (take n xs) ≡ true
includes-take_of_lt zero j i xs s hj hi lt = cc
includes-take_of_lt (suc n) j i [] s hj hi lt = cc
includes-take_of_lt (suc n) j i (x ∷ xs) (b, s) hj hi lt =
    ground (arith, includes-take_of_lt n j i xs s, All-includes (λ y. x ≤ y) j xs b)

pub IsSortedBy-take {ℓ} :
    {A : Type ℓ} (key : A → ℕ) (n : ℕ) (xs : List A)
    → IsSortedBy key xs
    → IsSortedBy key (take n xs)
IsSortedBy-take key zero xs h = tt
IsSortedBy-take key (suc n) [] h = tt
IsSortedBy-take key (suc n) (x ∷ xs) (b, h) =
    (All-take (λ y. key x ≤ key y) n xs b, IsSortedBy-take key n xs h)
