-- ===== src/Enumerate/Comments/Laws.antt =====
-- `stripComments` of core/src/enumerate/bounds.ts, applied to what it stripped.
use crash_fuzz.Prelude.{
  ℕ, ◌≡◌, refl, sym, ap, ◌∙◌, Bool, true, false, [], ◌∷◌, nat_beq, arith, if◌then◌else◌,
}
use crash_fuzz.Prelude.Text.{Text}
use crash_fuzz.Enumerate.Comments.{
  Mode, Sight, sight, after, strip, strip_comments, starts_slash, quote, newline, backslash,
}

-- Where a second pass starts: a comment is gone after the first.
abbrev pub settled : Mode → Mode
settled Mode.plain = Mode.plain
settled Mode.comment = Mode.plain
settled (Mode.in_string escaped) = Mode.in_string escaped

-- What is printed for what is seen.
abbrev printed : Sight → ℕ → Text → Text
printed Sight.opening c s = c ∷ strip (Mode.in_string false) s
printed Sight.double_slash c s = strip Mode.comment s
printed Sight.other c s = c ∷ strip Mode.plain s

strip-sight :
    (c : ℕ) (s : Text) (v : Sight) → sight c s ≡ v → strip Mode.plain (c ∷ s) ≡ printed v c s
unfolding strip
strip-sight c s v e = go (sight c s) ∙ ap (λ w. printed w c s) e
  where
    go :
        (w : Sight)
        → elim w as (λ x. Text) [
          | Sight.opening ↦ c ∷ strip (Mode.in_string false) s
          | Sight.double_slash ↦ strip Mode.comment s
          | Sight.other ↦ c ∷ strip Mode.plain s
        ]
          ≡ printed w c s
    go Sight.opening = refl
    go Sight.double_slash = refl
    go Sight.other = refl

sight-opening : (c : ℕ) (s t : Text) → sight c s ≡ Sight.opening → sight c t ≡ Sight.opening
sight-opening c s t h = ground arith

sight-other :
    (c : ℕ) (s t : Text)
    → sight c s ≡ Sight.other
    → (starts_slash s ≡ false → starts_slash t ≡ false)
    → sight c t ≡ Sight.other
sight-other c s t h f = ground arith

starts_slash-strip : (s : Text) → starts_slash s ≡ false → starts_slash (strip Mode.plain s) ≡ false
unfolding strip
starts_slash-strip [] h = refl
starts_slash-strip (c ∷ s) h = go (sight c s) refl
  where
    go : (v : Sight) → sight c s ≡ v → starts_slash (strip Mode.plain (c ∷ s)) ≡ false
    go Sight.opening e = ap starts_slash (strip-sight c s Sight.opening e) ∙ h
    go Sight.double_slash e = absurd (ground arith)
    go Sight.other e = ap starts_slash (strip-sight c s Sight.other e) ∙ h

settled-after : (c : ℕ) → settled (after false c) ≡ after false c
settled-after c = go (nat_beq c backslash) (nat_beq c quote)
  where
    go :
        (b q : Bool)
        → (let m =
              if b then Mode.in_string true else (if q then Mode.plain else Mode.in_string false) in
            settled m ≡ m)
    go true q = refl
    go false true = refl
    go false false = refl

strip-strip : (mode : Mode) (s : Text) → strip (settled mode) (strip mode s) ≡ strip mode s
unfolding strip
strip-strip Mode.plain [] = refl
strip-strip Mode.plain (c ∷ s) =
    go (sight c s) refl (strip-strip (Mode.in_string false) s) (strip-strip Mode.comment s)
      (strip-strip Mode.plain s)
  where
    go :
        (v : Sight)
        → sight c s ≡ v
        → strip (Mode.in_string false) (strip (Mode.in_string false) s)
          ≡ strip (Mode.in_string false) s
        → strip Mode.plain (strip Mode.comment s) ≡ strip Mode.comment s
        → strip Mode.plain (strip Mode.plain s) ≡ strip Mode.plain s
        → strip Mode.plain (strip Mode.plain (c ∷ s)) ≡ strip Mode.plain (c ∷ s)
    go Sight.opening e quoted commented rest =
        let once = strip-sight c s Sight.opening e in
        ap (strip Mode.plain) once
        ∙ strip-sight c (strip (Mode.in_string false) s) Sight.opening
            (sight-opening c s (strip (Mode.in_string false) s) e)
        ∙ ap (◌∷◌ c) quoted
        ∙ sym once
    go Sight.double_slash e quoted commented rest =
        let once = strip-sight c s Sight.double_slash e in
        ap (strip Mode.plain) once ∙ commented ∙ sym once
    go Sight.other e quoted commented rest =
        let once = strip-sight c s Sight.other e in
        ap (strip Mode.plain) once
        ∙ strip-sight c (strip Mode.plain s) Sight.other
            (sight-other c s (strip Mode.plain s) e (starts_slash-strip s))
        ∙ ap (◌∷◌ c) rest
        ∙ sym once
strip-strip Mode.comment [] = refl
strip-strip Mode.comment (c ∷ s) =
    go (nat_beq c newline) (strip-strip Mode.plain s) (strip-strip Mode.comment s)
  where
    go :
        (b : Bool)
        → strip Mode.plain (strip Mode.plain s) ≡ strip Mode.plain s
        → strip Mode.plain (strip Mode.comment s) ≡ strip Mode.comment s
        → strip Mode.plain
            (elim b [ true ↦ newline ∷ strip Mode.plain s | false ↦ strip Mode.comment s ])
          ≡ elim b [ true ↦ newline ∷ strip Mode.plain s | false ↦ strip Mode.comment s ]
    go true rest commented = ap (◌∷◌ newline) rest
    go false rest commented = commented
strip-strip (Mode.in_string true) [] = refl
strip-strip (Mode.in_string false) [] = refl
strip-strip (Mode.in_string true) (c ∷ s) = ap (◌∷◌ c) (strip-strip (Mode.in_string false) s)
strip-strip (Mode.in_string false) (c ∷ s) =
    go (after false c) (settled-after c) (strip-strip (after false c) s)
  where
    go :
        (m : Mode)
        → settled m ≡ m
        → strip (settled m) (strip m s) ≡ strip m s
        → c ∷ strip m (strip m s) ≡ c ∷ strip m s
    go m e rest = ap (◌∷◌ c) (rw e at rest)

-- Stripping the comments of a text that was stripped changes nothing: no comment is left, and what
-- a removed comment leaves behind does not make one with its neighbours.
pub strip_comments-strip_comments :
    (text : Text) → strip_comments (strip_comments text) ≡ strip_comments text
unfolding strip_comments
strip_comments-strip_comments = strip-strip Mode.plain
