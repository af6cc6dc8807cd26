-- ===== src/Prelude/Split.antt =====
-- Lemmas on `split` and `join` at a separator of one code unit, and on `startsWith`.
use Prim.Native.Nat.{ℕ}
use mathlib.Core.Path.{◌≡◌, refl, sym, ap, ◌∙◌}
use mathlib.Core.Bool.{Bool, true, false, ◌&&◌}
use mathlib.Core.List.{List, [], ◌∷◌, ◌++◌}
use native.Mathlib.Omega.{arith}
use crash_fuzz.Prelude.Tests.{nat_beq}
use crash_fuzz.Prelude.Lists.{All}
use crash_fuzz.Prelude.Text.{Text, grow, split, starts_with, join}
use crash_fuzz.Prelude.{append-nil, append_assoc}

-- The text does not hold the code unit.
abbrev pub Lacks : ℕ → Text → Type 0
Lacks sep = All (λ c. nat_beq c sep ≡ false)

-- What stands before the first separator goes in front of the first piece.
abbrev pub grow_all : Text → List Text → List Text
grow_all [] ps = ps
grow_all (c ∷ s) ps = grow c (grow_all s ps)

split_other :
    (sep c : ℕ) (s : Text) → nat_beq c sep ≡ false → split sep (c ∷ s) ≡ grow c (split sep s)
split_other sep c s n = ground arith

pub split-append :
    (sep : ℕ) (p rest : Text) → Lacks sep p → split sep (p ++ rest) ≡ grow_all p (split sep rest)
split-append sep [] rest h = refl
split-append sep (c ∷ p) rest (n, h) =
    split_other sep c (p ++ rest) n ∙ ap (grow c) (split-append sep p rest h)

grow_all-cons : (s q : Text) (ps : List Text) → grow_all s (q ∷ ps) ≡ (s ++ q) ∷ ps
grow_all-cons [] q ps = refl
grow_all-cons (c ∷ s) q ps = rw (grow_all-cons s q ps) refl

-- A piece with no separator in it, and a separator: the piece, and the pieces of what follows.
pub split_at_sep :
    (sep : ℕ) (p rest : Text) → Lacks sep p → split sep (p ++ sep ∷ rest) ≡ p ∷ split sep rest
split_at_sep sep p rest h =
    split-append sep p (sep ∷ rest) h
    ∙ ap (grow_all p) (ground arith)
    ∙ grow_all-cons p [] (split sep rest)
    ∙ ap (λ q. q ∷ split sep rest) (append-nil p)

pub split_whole : (sep : ℕ) (p : Text) → Lacks sep p → split sep p ≡ p ∷ []
split_whole sep p h =
    ap (split sep) (sym (append-nil p))
    ∙ split-append sep p [] h
    ∙ grow_all-cons p [] []
    ∙ ap (λ q. q ∷ []) (append-nil p)

-- A prefix that does not hold a code unit is not completed by what follows that unit.
pub starts_with-append :
    (sep : ℕ) (p s rest : Text) → Lacks sep p → starts_with p (s ++ sep ∷ rest) ≡ starts_with p s
starts_with-append sep [] s rest h = refl
starts_with-append sep (c ∷ p) [] rest (n, h) = rw n refl
starts_with-append sep (c ∷ p) (d ∷ s) rest (n, h) =
    ap (λ b. nat_beq c d && b) (starts_with-append sep p s rest h)

All-grow :
    (sep c : ℕ) (ps : List Text)
    → nat_beq c sep ≡ false
    → All (Lacks sep) ps
    → All (Lacks sep) (grow c ps)
All-grow sep c [] n h = ((n, tt), tt)
All-grow sep c (p ∷ ps) n (l, h) = ((n, l), h)

-- No piece holds the separator.
pub All-split : (sep : ℕ) (s : Text) → All (Lacks sep) (split sep s)
All-split sep [] = (tt, tt)
All-split sep (c ∷ s) = go (nat_beq c sep) refl (All-split sep s)
  where
    go :
        (b : Bool)
        → nat_beq c sep ≡ b
        → All (Lacks sep) (split sep s)
        → All
            (Lacks sep)
            (elim b as (λ x. List Text) [ true ↦ [] ∷ split sep s | false ↦ grow c (split sep s) ])
    go true e later = (tt, later)
    go false e later = All-grow sep c (split sep s) e later

-- Pieces that are joined, with a separator behind the last, and split again.
pub split-join_end :
    (sep : ℕ) (p : Text) (ps : List Text)
    → All (Lacks sep) (p ∷ ps)
    → split sep (join (sep ∷ []) (p ∷ ps) ++ sep ∷ []) ≡ (p ∷ ps) ++ ([] ∷ [])
split-join_end sep p [] (h, _) = split_at_sep sep p [] h
split-join_end sep p (q ∷ ps) (h, rest) =
    ap (split sep) (
      append_assoc (p ++ sep ∷ []) (join (sep ∷ []) (q ∷ ps)) (sep ∷ [])
      ∙ append_assoc p (sep ∷ []) (join (sep ∷ []) (q ∷ ps) ++ sep ∷ []))
    ∙ split_at_sep sep p (join (sep ∷ []) (q ∷ ps) ++ sep ∷ []) h
    ∙ ap (λ ls. p ∷ ls) (split-join_end sep q ps rest)
