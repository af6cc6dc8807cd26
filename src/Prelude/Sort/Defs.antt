-- ===== src/Prelude/Sort/Defs.antt =====
-- The sort as insertions from the right, which keeps the order of equal keys.
use Prim.Native.Nat.{ℕ, ◌≤◌}
use mathlib.Core.List.{List, [], ◌∷◌}
use mathlib.Core.Bool.{true, false}
use crash_fuzz.Prelude.Tests.{leb}
use crash_fuzz.Prelude.Lists.{All}

module _ {ℓ} {A : Type ℓ} (key : A → ℕ) where
  unfoldable pub insert_by : A → List A → List A
  insert_by x [] = x ∷ []
  insert_by x (y ∷ ys) = elim (leb (key x) (key y)) [
    | true ↦ x ∷ y ∷ ys
    | false ↦ y ∷ insert_by x ys
  ]

  unfoldable pub sort_by : List A → List A
  unfolding insert_by
  sort_by [] = []
  sort_by (x ∷ xs) = insert_by x (sort_by xs)

  abbrev pub IsSortedBy : List A → Type 0
  IsSortedBy [] = Unit
  IsSortedBy (x ∷ xs) = All (λ y. key x ≤ key y) xs × IsSortedBy xs

-- `ns.sort((a, b) => a - b)`
unfoldable pub sort : List ℕ → List ℕ
unfolding sort_by
sort = sort_by (λ n. n)

abbrev pub IsSorted : List ℕ → Type 0
IsSorted = IsSortedBy (λ n. n)
