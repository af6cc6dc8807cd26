-- ===== src/Enumerate/Comments.antt =====
-- `stripComments` of core/src/enumerate/bounds.ts. The flags `inString` and `escaped`, and the inner
-- loop over a comment, are the modes.
pub mod Laws
use crash_fuzz.Prelude.{ℕ, Bool, true, false, ◌&&◌, [], ◌∷◌, nat_beq, if◌then◌else◌}
use crash_fuzz.Prelude.Text.{Text}

abbrev pub quote : ℕ
quote = 0x22

abbrev pub backslash : ℕ
backslash = 0x5c

abbrev pub slash : ℕ
slash = 0x2f

abbrev pub newline : ℕ
newline = 0x0a

pub data Mode : Type 0 where
  plain comment : Mode
  in_string : (escaped : Bool) → Mode

-- What the loop sees outside a string.
pub data Sight : Type 0 where
  opening double_slash other : Sight

abbrev pub starts_slash : Text → Bool
starts_slash [] = false
starts_slash (c ∷ s) = nat_beq c slash

abbrev pub sight : ℕ → Text → Sight
sight c rest =
    if nat_beq c quote
    then Sight.opening
    else (if nat_beq c slash && starts_slash rest then Sight.double_slash else Sight.other)

-- The mode after a character of a string.
abbrev pub after : Bool → ℕ → Mode
after true c = Mode.in_string false
after false c =
    if nat_beq c backslash
    then Mode.in_string true
    else (if nat_beq c quote then Mode.plain else Mode.in_string false)

unfoldable pub strip : Mode → Text → Text
strip Mode.plain [] = []
strip Mode.plain (c ∷ s) = elim (sight c s) [
  | Sight.opening ↦ c ∷ strip (Mode.in_string false) s
  | Sight.double_slash ↦ strip Mode.comment s
  | Sight.other ↦ c ∷ strip Mode.plain s
]
strip Mode.comment [] = newline ∷ []
strip Mode.comment (c ∷ s) = elim (nat_beq c newline) [
  | true ↦ newline ∷ strip Mode.plain s
  | false ↦ strip Mode.comment s
]
strip (Mode.in_string escaped) [] = []
strip (Mode.in_string escaped) (c ∷ s) = c ∷ strip (after escaped c) s

-- `stripComments`
unfoldable pub strip_comments : Text → Text
unfolding strip
strip_comments = strip Mode.plain
