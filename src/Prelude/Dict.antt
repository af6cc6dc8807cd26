-- ===== src/Prelude/Dict.antt =====
-- A JavaScript `Map`: its entries in the order in which their keys were first set.
use mathlib.Core.Path.{◌≡◌, refl}
use mathlib.Core.Bool.{Bool, true, false}
use mathlib.Core.Option.{Option, none, some}
use mathlib.Core.List.{List, [], ◌∷◌}
use native.Mathlib.Omega.{arith}
use crash_fuzz.Prelude.Tests.{if◌then◌else◌}
use crash_fuzz.Prelude.Equality.{Eq, ◌==◌}
use crash_fuzz.Prelude.Lists.{All}

abbrev pub Dict {ℓ κ} : Type ℓ → Type κ → Type (ℓ ⊔ κ)
Dict K V = List (K × V)

module _ {ℓ κ} {K : Type ℓ} {V : Type κ} ⦃e : Eq K⦄ where
  -- `m.get(k)`
  abbrev pub get : K → Dict K V → Option V
  get k [] = none
  get k ((j, v) ∷ m) = if j == k then some v else get k m

  -- `m.set(k, v)`: a key that is there keeps its place
  abbrev pub set : K → V → Dict K V → Dict K V
  set k v [] = (k, v) ∷ []
  set k v ((j, w) ∷ m) = elim (j == k) [ true ↦ (j, v) ∷ m | false ↦ (j, w) ∷ set k v m ]

  pub get-set :
      (k j : K) (v : V) (m : Dict K V) → get j (set k v m) ≡ (if k == j then some v else get j m)
  get-set k j v [] = refl
  get-set k j v ((i, w) ∷ m) =
      ground (arith, e.beq_iff k j, e.beq_iff i k, e.beq_iff i j, get-set k j v m)

module _ {ℓ κ} {K : Type ℓ} {V : Type κ} where
  -- `[...m.values()]`
  abbrev pub values : Dict K V → List V
  values [] = []
  values ((k, v) ∷ m) = v ∷ values m

  abbrev pub keys : Dict K V → List K
  keys [] = []
  keys ((k, v) ∷ m) = k ∷ keys m

module _ {ℓ κ μ} {K : Type ℓ} {V : Type κ} ⦃e : Eq K⦄ (P : V → Type μ) where
  pub All-values-set :
      (k : K) (v : V) (m : Dict K V) → P v → All P (values m) → All P (values (set k v m))
  All-values-set k v [] p h = (p, tt)
  All-values-set k v ((j, w) ∷ m) p (q, h) = go (j == k) (All-values-set k v m p h)
    where
      go :
          (same : Bool)
          → All P (values (set k v m))
          → All P (values (elim same [ true ↦ (j, v) ∷ m | false ↦ (j, w) ∷ set k v m ]))
      go true later = (p, h)
      go false later = (q, later)
