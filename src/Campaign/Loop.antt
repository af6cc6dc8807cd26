-- ===== src/Campaign/Loop.antt =====
-- What recording the findings of one state does to the findings there are.
use crash_fuzz.Prelude.{
  ℕ, suc, ◌+◌, ◌≡◌, refl, ap, ◌∙◌, Bool, true, false, ◌||◌, List, [], ◌∷◌, Option, none, some,
  arith, any, ◌==◌, some-injective, ◌≢◌, All, if◌then◌else◌, nat_eq, length,
}
use crash_fuzz.Prelude.Text.{Text, text_eq}
use crash_fuzz.Prelude.Dict.{Dict, get, set, values}
use crash_fuzz.Campaign.{Finding, record_finding, record_all}

-- The number of violations that a map of findings stands for.
abbrev pub total : List Finding → ℕ
total [] = 0
total (f ∷ fs) = f.occurrences + total fs

module _ (k : Text) (v : Finding) where
  any-values-set_new :
      (p : Finding → Bool) (m : Dict Text Finding)
      → get k m ≡ none
      → any p (values (set k v m)) ≡ (any p (values m) || p v)
  any-values-set_new p [] h = ground arith
  any-values-set_new p ((j, w) ∷ m) h = go (j == k) h (any-values-set_new p m)
    where
      go :
          (b : Bool)
          → (if b then some w else get k m) ≡ none
          → (get k m ≡ none → any p (values (set k v m)) ≡ (any p (values m) || p v))
          → any p (values (elim b [ true ↦ (j, v) ∷ m | false ↦ (j, w) ∷ set k v m ]))
            ≡ (any p (values ((j, w) ∷ m)) || p v)
      go true h later = absurd (cc)
      go false h later = ground (arith, later h)

  total-values-set_new :
      (m : Dict Text Finding)
      → get k m ≡ none
      → total (values (set k v m)) ≡ v.occurrences + total (values m)
  total-values-set_new [] h = refl
  total-values-set_new ((j, w) ∷ m) h = go (j == k) h (total-values-set_new m)
    where
      go :
          (b : Bool)
          → (if b then some w else get k m) ≡ none
          → (get k m ≡ none → total (values (set k v m)) ≡ v.occurrences + total (values m))
          → total (values (elim b [ true ↦ (j, v) ∷ m | false ↦ (j, w) ∷ set k v m ]))
            ≡ v.occurrences + total (values ((j, w) ∷ m))
      go true h later = absurd (cc)
      go false h later = omega (arith, later h)

  any-values-set_old :
      (p : Finding → Bool) (e : Finding) (m : Dict Text Finding)
      → get k m ≡ some e
      → p v ≡ p e
      → any p (values (set k v m)) ≡ any p (values m)
  any-values-set_old p e [] h same = absurd (cc)
  any-values-set_old p e ((j, w) ∷ m) h same = go (j == k) h (λ g. any-values-set_old p e m g same)
    where
      go :
          (b : Bool)
          → (if b then some w else get k m) ≡ some e
          → (get k m ≡ some e → any p (values (set k v m)) ≡ any p (values m))
          → any p (values (elim b [ true ↦ (j, v) ∷ m | false ↦ (j, w) ∷ set k v m ]))
            ≡ any p (values ((j, w) ∷ m))
      go true h later = ground (arith, some-injective w e h, ap p (some-injective w e h))
      go false h later = ground (arith, later h)

  total-values-set_old :
      (e : Finding) (m : Dict Text Finding)
      → get k m ≡ some e
      → v.occurrences ≡ suc e.occurrences
      → total (values (set k v m)) ≡ suc (total (values m))
  total-values-set_old e [] h same = absurd (cc)
  total-values-set_old e ((j, w) ∷ m) h same = go (j == k) h (λ g. total-values-set_old e m g same)
    where
      go :
          (b : Bool)
          → (if b then some w else get k m) ≡ some e
          → (get k m ≡ some e → total (values (set k v m)) ≡ suc (total (values m)))
          → total (values (elim b [ true ↦ (j, v) ∷ m | false ↦ (j, w) ∷ set k v m ]))
            ≡ suc (total (values ((j, w) ∷ m)))
      go true h later = omega (arith, ap Finding.occurrences (some-injective w e h))
      go false h later = omega (arith, later h)

-- Recording a finding keeps the image of every finding there is, and adds the image of the new one
-- where its signature is new.
any_image-record_finding :
    (i : ℕ) (f : Finding) (m : Dict Text Finding)
    → f.image ≢ i
    → any (λ g. g.image == i) (values (record_finding f m)) ≡ any (λ g. g.image == i) (values m)
unfolding record_finding
any_image-record_finding i f m h = go (get f.signature m) refl
  where
    go :
        (o : Option Finding)
        → get f.signature m ≡ o
        → any
            (λ g. g.image == i)
            (values (elim o [
              | none ↦ set f.signature f m
              | some existing ↦
                  set f.signature (record existing { occurrences = suc existing.occurrences }) m
            ]))
          ≡ any (λ g. g.image == i) (values m)
    go none e =
        any-values-set_new f.signature f (λ g. g.image == i) m e
        ∙ ground (arith, nat_eq.beq_iff f.image i)
    go (some existing) e =
        any-values-set_old f.signature (record existing { occurrences = suc existing.occurrences })
          (λ g. g.image == i) existing m e refl

pub total-record_finding :
    (f : Finding) (m : Dict Text Finding)
    → f.occurrences ≡ 1
    → total (values (record_finding f m)) ≡ suc (total (values m))
unfolding record_finding
total-record_finding f m h = go (get f.signature m) refl
  where
    go :
        (o : Option Finding)
        → get f.signature m ≡ o
        → total (
            values (elim o [
              | none ↦ set f.signature f m
              | some existing ↦
                  set f.signature (record existing { occurrences = suc existing.occurrences }) m
            ]))
          ≡ suc (total (values m))
    go none e = omega (arith, total-values-set_new f.signature f m e)
    go (some existing) e =
        total-values-set_old f.signature
          (record existing { occurrences = suc existing.occurrences }) existing m e refl

pub any_image-record_all :
    (i : ℕ) (fs : List Finding) (m : Dict Text Finding)
    → All (λ f. f.image ≢ i) fs
    → any (λ g. g.image == i) (values (record_all fs m)) ≡ any (λ g. g.image == i) (values m)
unfolding record_all
any_image-record_all i [] m h = refl
any_image-record_all i (f ∷ fs) m (n, h) =
    any_image-record_all i fs (record_finding f m) h ∙ any_image-record_finding i f m n

pub total-record_all :
    (fs : List Finding) (m : Dict Text Finding)
    → All (λ f. f.occurrences ≡ 1) fs
    → total (values (record_all fs m)) ≡ length fs + total (values m)
unfolding record_all
total-record_all [] m h = omega arith
total-record_all (f ∷ fs) m (n, h) =
    omega (arith, total-record_all fs (record_finding f m) h, total-record_finding f m n)
