-- ===== src/Prelude/Sort/Unique.antt =====
-- Sorting lists whose keys are all different.
use Prim.Native.Nat.{ℕ}
use mathlib.Core.Path.{◌≡◌, refl, sym, ap₂, ◌∙◌, subst}
use mathlib.Core.Logic.{◌≢◌}
use mathlib.Core.List.{List, [], ◌∷◌, Permᴰ}
use native.Mathlib.Omega.{arith}
use crash_fuzz.Prelude.Lists.{All}
use crash_fuzz.Prelude.Sort.Defs.{insert_by, sort_by}

module _ {ℓ} {A : Type ℓ} (key : A → ℕ) where
  -- No two elements have the same key.
  abbrev pub HasDistinctKeys : List A → Type 0
  HasDistinctKeys [] = Unit
  HasDistinctKeys (x ∷ xs) = All (λ y. key x ≢ key y) xs × HasDistinctKeys xs

  insert_by_comm :
      (x y : A) (xs : List A)
      → key x ≢ key y
      → insert_by key x (insert_by key y xs) ≡ insert_by key y (insert_by key x xs)
  unfolding insert_by
  insert_by_comm x y [] h = ground arith
  insert_by_comm x y (z ∷ zs) h = ground (arith, insert_by_comm x y zs h)

  module _ {κ} (P : A → Type κ) where
    All-perm : {xs ys : List A} → Permᴰ xs ys → All P xs → All P ys
    All-perm Permᴰ.nil h = tt
    All-perm (Permᴰ.cons e d) (p, h) = (subst P e p, All-perm d h)
    All-perm (Permᴰ.swap e f) (p, (q, h)) = (subst P f q, (subst P e p, h))
    All-perm (Permᴰ.trans d e) h = All-perm e (All-perm d h)

  pub HasDistinctKeys-perm :
      {xs ys : List A} → Permᴰ xs ys → HasDistinctKeys xs → HasDistinctKeys ys
  HasDistinctKeys-perm Permᴰ.nil h = tt
  HasDistinctKeys-perm (Permᴰ.cons {l₂ = ys} e d) (n, h) = (
    subst (λ a. All (λ y. key a ≢ key y) ys) e (All-perm (λ y. key _ ≢ key y) d n),
    HasDistinctKeys-perm d h,
  )
  HasDistinctKeys-perm (Permᴰ.swap {a} {b} {b'} {l} e f) ((ne, n), (m, h)) =
      subst (λ v. HasDistinctKeys (v ∷ b' ∷ l)) f
        (subst (λ u. HasDistinctKeys (b ∷ u ∷ l)) e (((λ p. ne (sym p)), m), (n, h)))
  HasDistinctKeys-perm (Permᴰ.trans d e) h = HasDistinctKeys-perm e (HasDistinctKeys-perm d h)

  -- Two arrangements of elements with different keys sort to one list.
  pub sort_by_perm :
      {xs ys : List A} → Permᴰ xs ys → HasDistinctKeys xs → sort_by key xs ≡ sort_by key ys
  unfolding sort_by
  sort_by_perm Permᴰ.nil h = refl
  sort_by_perm (Permᴰ.cons e d) (n, h) = ap₂ (insert_by key) e (sort_by_perm d h)
  sort_by_perm (Permᴰ.swap {a} {b} {l} e f) ((ne, n), (m, h)) =
      insert_by_comm a b (sort_by key l) ne
      ∙ ap₂ (λ u v. insert_by key u (insert_by key v (sort_by key l))) f e
  sort_by_perm (Permᴰ.trans d e) h = sort_by_perm d h ∙ sort_by_perm e (HasDistinctKeys-perm d h)
