-- ===== src/Enumerate/Sample/Groups.antt =====
-- The groups that the first loop makes: the states of each crash point, in order.
use crash_fuzz.Prelude.{
  ℕ, ◌≡◌, ◌≢◌, refl, sym, ap, ◌∙◌, Bool, true, false, List, [], ◌∷◌, ◌++◌, Option, none, some,
  filter, ◌==◌, nat_eq, All, Bool-cases, inl, inr, subst, eq→≡, ==_refl, ≡→==, append-nil,
  if◌then◌else◌, append_assoc, filter-append, All-append,
}
use crash_fuzz.Prelude.Dict.{Dict, get, set, get-set}
use crash_fuzz.Prelude.Sort.Unique.{HasDistinctKeys}
use crash_fuzz.Enumerate.States.{CrashState}
use crash_fuzz.Enumerate.Sample.{group_step, group_loop}

-- A map of groups.
abbrev pub Groups : Type 0
Groups = Dict ℕ (List CrashState)

abbrev pub entry_key : ℕ × List CrashState → ℕ
entry_key entry = entry.0

-- The group of a crash point: the empty one where it has none.
abbrev pub group_in : Option (List CrashState) → List CrashState
group_in none = []
group_in (some group) = group

abbrev pub group_of : ℕ → Groups → List CrashState
group_of p groups = group_in (get p groups)

-- The states of one crash point.
abbrev pub is_at : ℕ → CrashState → Bool
is_at p state = state.crash_point == p

pub set-keys :
    (k p : ℕ) (v : List CrashState) (groups : Groups)
    → k ≢ p
    → All (λ y. p ≢ entry_key y) groups
    → All (λ y. p ≢ entry_key y) (set k v groups)
set-keys k p v [] ne h = ((λ e. ne (sym e)), tt)
set-keys k p v ((j, w) ∷ m) ne (n, h) = go (j == k) (set-keys k p v m ne h)
  where
    go :
        (same : Bool)
        → All (λ y. p ≢ entry_key y) (set k v m)
        → All (λ y. p ≢ entry_key y) (elim same [ true ↦ (j, v) ∷ m | false ↦ (j, w) ∷ set k v m ])
    go true later = (n, h)
    go false later = (n, later)

pub set-HasDistinctKeys :
    (k : ℕ) (v : List CrashState) (groups : Groups)
    → HasDistinctKeys entry_key groups
    → HasDistinctKeys entry_key (set k v groups)
set-HasDistinctKeys k v [] h = (tt, tt)
set-HasDistinctKeys k v ((j, w) ∷ m) (n, h) = go (j == k) refl (set-HasDistinctKeys k v m h)
  where
    go :
        (same : Bool)
        → (j == k) ≡ same
        → HasDistinctKeys entry_key (set k v m)
        → HasDistinctKeys entry_key (elim same [ true ↦ (j, v) ∷ m | false ↦ (j, w) ∷ set k v m ])
    go true e later = (n, h)
    go false e later = (set-keys k j v m (λ same. absurd (cc (≡→== j k (sym same)))) n, later)

pub group_step-HasDistinctKeys :
    (s : CrashState) (groups : Groups)
    → HasDistinctKeys entry_key groups
    → HasDistinctKeys entry_key (group_step s groups)
unfolding group_step
group_step-HasDistinctKeys s groups h = go (get s.crash_point groups)
  where
    go :
        (o : Option (List CrashState))
        → HasDistinctKeys entry_key (elim o [
          | none ↦ set s.crash_point (s ∷ []) groups
          | some group ↦ set s.crash_point (group ++ (s ∷ [])) groups
        ])
    go none = set-HasDistinctKeys s.crash_point (s ∷ []) groups h
    go (some group) = set-HasDistinctKeys s.crash_point (group ++ (s ∷ [])) groups h

pub group_loop-HasDistinctKeys :
    (ss : List CrashState) (groups : Groups)
    → HasDistinctKeys entry_key groups
    → HasDistinctKeys entry_key (group_loop ss groups)
unfolding group_loop
group_loop-HasDistinctKeys [] groups h = h
group_loop-HasDistinctKeys (s ∷ ss) groups h =
    group_loop-HasDistinctKeys ss (group_step s groups) (group_step-HasDistinctKeys s groups h)

-- What setting a group does to the groups as they are read.
pub group_of-set :
    (k p : ℕ) (v : List CrashState) (groups : Groups)
    → group_of p (set k v groups) ≡ (if k == p then v else group_of p groups)
group_of-set k p v groups = ap group_in (get-set k p v groups) ∙ go (k == p)
  where
    go :
        (b : Bool)
        → group_in (if b then some v else get p groups) ≡ (if b then v else group_of p groups)
    go true = refl
    go false = refl

pub group_step-set :
    (s : CrashState) (groups : Groups)
    → group_step s groups ≡ set s.crash_point (group_of s.crash_point groups ++ (s ∷ [])) groups
unfolding group_step
group_step-set s groups = go (get s.crash_point groups)
  where
    go :
        (o : Option (List CrashState))
        → elim o as (λ x. Groups) [
          | none ↦ set s.crash_point (s ∷ []) groups
          | some group ↦ set s.crash_point (group ++ (s ∷ [])) groups
        ]
          ≡ set s.crash_point (group_in o ++ (s ∷ [])) groups
    go none = refl
    go (some group) = refl

pub group_step-group_of :
    (p : ℕ) (s : CrashState) (groups : Groups)
    → group_of p (group_step s groups) ≡ group_of p groups ++ filter (is_at p) (s ∷ [])
group_step-group_of p s groups =
    rw
      (
        group_step-set s groups,
        group_of-set s.crash_point p (group_of s.crash_point groups ++ (s ∷ [])) groups,
      )
      (elim (Bool-cases (s.crash_point == p)) [
        | inl e ↦ rw (e, eq→≡ s.crash_point p e) refl
        | inr e ↦ rw e (sym (append-nil _))
      ])

pub group_loop-group_of :
    (p : ℕ) (ss : List CrashState) (groups : Groups)
    → group_of p (group_loop ss groups) ≡ group_of p groups ++ filter (is_at p) ss
unfolding group_loop
group_loop-group_of p [] groups = sym (append-nil _)
group_loop-group_of p (s ∷ ss) groups =
    group_loop-group_of p ss (group_step s groups)
    ∙ ap (λ g. g ++ filter (is_at p) ss) (group_step-group_of p s groups)
    ∙ append_assoc (group_of p groups) (filter (is_at p) (s ∷ [])) (filter (is_at p) ss)
    ∙ ap (λ g. group_of p groups ++ g) (sym (filter-append (is_at p) (s ∷ []) ss))

-- Every state of a group is at the group's crash point.
abbrev pub IsGrouped : Groups → Type 0
IsGrouped groups = All (λ y. All (λ s. is_at (entry_key y) s ≡ true) y.1) groups

pub group_of-IsGrouped :
    (p : ℕ) (groups : Groups) → IsGrouped groups → All (λ s. is_at p s ≡ true) (group_of p groups)
group_of-IsGrouped p [] h = tt
group_of-IsGrouped p ((j, w) ∷ m) (g, h) = elim (Bool-cases (j == p)) [
  | inl e ↦ rw e (subst (λ k. All (λ s. is_at k s ≡ true) w) (eq→≡ j p e) g)
  | inr e ↦ rw e (group_of-IsGrouped p m h)
]

pub set-IsGrouped :
    (k : ℕ) (v : List CrashState) (groups : Groups)
    → All (λ s. is_at k s ≡ true) v
    → IsGrouped groups
    → IsGrouped (set k v groups)
set-IsGrouped k v [] g h = (g, tt)
set-IsGrouped k v ((j, w) ∷ m) g (f, h) = go (j == k) refl (set-IsGrouped k v m g h)
  where
    go :
        (same : Bool)
        → (j == k) ≡ same
        → IsGrouped (set k v m)
        → IsGrouped (elim same [ true ↦ (j, v) ∷ m | false ↦ (j, w) ∷ set k v m ])
    go true e later = (subst (λ i. All (λ s. is_at i s ≡ true) v) (sym (eq→≡ j k e)) g, h)
    go false e later = (f, later)

pub group_loop-IsGrouped :
    (ss : List CrashState) (groups : Groups) → IsGrouped groups → IsGrouped (group_loop ss groups)
unfolding group_loop
group_loop-IsGrouped [] groups h = h
group_loop-IsGrouped (s ∷ ss) groups h =
    let cp = s.crash_point in
    let more =
      All-append (λ t. is_at cp t ≡ true) (group_of cp groups) (s ∷ [])
        (group_of-IsGrouped cp groups h) (==_refl cp, tt) in
    group_loop-IsGrouped ss (group_step s groups) (
      subst IsGrouped (sym (group_step-set s groups))
        (set-IsGrouped cp (group_of cp groups ++ (s ∷ [])) groups more h))
