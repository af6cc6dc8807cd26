-- ===== src/Campaign/Sweep/Laws.antt =====
-- The combinations in `sweepPlan` of core/src/campaign/sweep.ts.
use mathlib.Core.List.{Memᴰ}
use crash_fuzz.Prelude.{refl, List, [], ◌∷◌, ◌++◌, map, flat_map, ap, subst}
use crash_fuzz.Campaign.Sweep.{SweepConfig, Shape, SweepRun, sweep, shapes, sweep_plan}

module _ {ℓ} {A : Type ℓ} where
  member_left : {a : A} {xs : List A} (ys : List A) → Memᴰ a xs → Memᴰ a (xs ++ ys)
  member_left ys (Memᴰ.head e) = Memᴰ.head e
  member_left ys (Memᴰ.tail m) = Memᴰ.tail (member_left ys m)

  member_right : {a : A} (xs : List A) {ys : List A} → Memᴰ a ys → Memᴰ a (xs ++ ys)
  member_right [] m = m
  member_right (x ∷ xs) m = Memᴰ.tail (member_right xs m)

abbrev run_of : SweepConfig → Shape → SweepRun
run_of config shape = record { config = config; shape = shape }

member_shapes : (shape : Shape) → Memᴰ shape shapes
member_shapes Shape.single = Memᴰ.head refl
member_shapes Shape.large = Memᴰ.tail (Memᴰ.head refl)
member_shapes Shape.many = Memᴰ.tail (Memᴰ.tail (Memᴰ.head refl))
member_shapes Shape.mixed = Memᴰ.tail (Memᴰ.tail (Memᴰ.tail (Memᴰ.head refl)))
member_shapes Shape.concurrent = Memᴰ.tail (Memᴰ.tail (Memᴰ.tail (Memᴰ.tail (Memᴰ.head refl))))

member-map :
    (config : SweepConfig) (shape : Shape) (ss : List Shape)
    → Memᴰ shape ss
    → Memᴰ (run_of config shape) (map (run_of config) ss)
member-map config shape [] m = elim m [ ]
member-map config shape (s ∷ ss) (Memᴰ.head e) = Memᴰ.head (ap (run_of config) e)
member-map config shape (s ∷ ss) (Memᴰ.tail m) = Memᴰ.tail (member-map config shape ss m)

member-flat_map :
    (config : SweepConfig) (shape : Shape) (configs : List SweepConfig)
    → Memᴰ config configs
    → Memᴰ (run_of config shape) (flat_map (λ c. map (run_of c) shapes) configs)
member-flat_map config shape [] m = elim m [ ]
member-flat_map config shape (c ∷ cs) (Memᴰ.head e) =
    member_left (flat_map (λ d. map (run_of d) shapes) cs) (
      subst (λ d. Memᴰ (run_of config shape) (map (run_of d) shapes)) e
        (member-map config shape shapes (member_shapes shape)))
member-flat_map config shape (c ∷ cs) (Memᴰ.tail m) =
    member_right (map (run_of c) shapes) (member-flat_map config shape cs m)

-- The plan runs every workload shape, of all that there are, on every configuration of the sweep.
pub sweep_plan_complete :
    (config : SweepConfig) (shape : Shape)
    → Memᴰ config sweep
    → Memᴰ (record { config = config; shape = shape }) sweep_plan
unfolding sweep_plan
sweep_plan_complete config shape m = member-flat_map config shape sweep m
