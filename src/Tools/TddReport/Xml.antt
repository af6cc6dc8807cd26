-- ===== src/Tools/TddReport/Xml.antt =====
-- The regular expressions of core/tools/tdd-report.ts.
use crash_fuzz.Prelude.{
  ℕ, zero, suc, ◌+◌, ◌-◌, Bool, true, false, List, [], ◌∷◌, ◌++◌, Option, none, some, ◌>>=◌, length,
  drop, nat_beq,
}
use crash_fuzz.Prelude.Text.{Text, codes, starts_with, is_space}

-- What stands before the first occurrence of a text.
unfoldable pub until : Text → Text → Option Text
until pattern' [] = none
until pattern' (c ∷ s) = elim (starts_with pattern' (c ∷ s)) [
  | true ↦ some []
  | false ↦ do front ← until pattern' s; some (c ∷ front)
]

-- `text.replace(/…/g, value)`; the number says how many characters of an occurrence are left
unfoldable pub replace_all : Text → Text → ℕ → Text → Text
replace_all pattern' value skip [] = []
replace_all pattern' value (suc skip) (c ∷ s) = replace_all pattern' value skip s
replace_all pattern' value zero (c ∷ s) = elim (starts_with pattern' (c ∷ s)) [
  | true ↦ value ++ replace_all pattern' value (length pattern' - 1) s
  | false ↦ c ∷ replace_all pattern' value 0 s
]

-- `decodeXml`
unfoldable pub decode_xml : Text → Text
unfolding replace_all
decode_xml value = replace_all (codes "&amp;") (codes "&") 0 (
    replace_all (codes "&apos;") (codes "'") 0 (
      replace_all (codes "&quot;") (codes "\"") 0 (
        replace_all (codes "&gt;") (codes ">") 0 (replace_all (codes "&lt;") (codes "<") 0 value))))

-- The first match of `name="([^"]*)"`; the first argument is `name="`.
unfoldable pub find_attr : Text → Text → Option Text
unfolding until
find_attr opening [] = none
find_attr opening (c ∷ s) = elim (starts_with opening (c ∷ s)) [
  | true ↦ until (codes "\"") (drop (length opening) (c ∷ s))
  | false ↦ find_attr opening s
]

abbrev pub decoded : Option Text → Text
decoded none = []
decoded (some value) = decode_xml value

-- `attr`
abbrev pub attr : Text → Text → Text
attr tag name = decoded (find_attr (name ++ codes "=\"") tag)

-- An element: its attributes, its body, and how many characters it takes.
pub record Element : Type 0 where
  pub attributes : Text
  pub body : Text
  pub size : ℕ

-- What follows `<name` and one white space, for an element that starts here.
abbrev pub after_name : Text → Text → Option Text
after_name opening s = elim (starts_with opening s) [
  | true ↦ elim (drop (length opening) s) [
    | [] ↦ none
    | c ∷ rest ↦ elim (is_space c) [ true ↦ some rest | false ↦ none ]
  ]
  | false ↦ none
]

-- `<testsuite\s([^>]*)>([\s\S]*?)<\/testsuite>`, at this place
unfoldable pub suite_at : Text → Option Element
unfolding until
suite_at s = do
  rest ← after_name (codes "<testsuite") s
  attributes ← until (codes ">") rest
  body ← until (codes "</testsuite>") (drop (length attributes + 1) rest)
  some (record {
    attributes = attributes;
    body = body;
    size = 11 + (length attributes + (1 + (length body + 12)));
  })

-- `([^>]*?)(\/>|>([\s\S]*?)<\/testcase>)`; the body is empty where the element closes itself.
unfoldable pub case_rest : Text → Option Element
unfolding until
case_rest [] = none
case_rest (c ∷ s) = elim (starts_with (codes "/>") (c ∷ s)) [
  | true ↦ some (record { attributes = []; body = []; size = 2 })
  | false ↦ elim (nat_beq c 0x3e) [
    | true ↦ do
      body ← until (codes "</testcase>") s
      some (record { attributes = []; body = body; size = 1 + (length body + 11) })
    | false ↦ do
      element ← case_rest s
      some (record {
        attributes = c ∷ element.attributes;
        body = element.body;
        size = suc element.size;
      })
  ]
]

-- `<testcase\s` and the rest, at this place
unfoldable pub case_at : Text → Option Element
unfolding case_rest
case_at s = do
  rest ← after_name (codes "<testcase") s
  element ← case_rest rest
  some (record element { size = 10 + element.size })

-- `text.matchAll`; the number says how many characters of a match are left
unfoldable pub match_all : (Text → Option Element) → ℕ → Text → List Element
match_all at skip [] = []
match_all at (suc skip) (c ∷ s) = match_all at skip s
match_all at zero (c ∷ s) = elim (at (c ∷ s)) [
  | none ↦ match_all at 0 s
  | some element ↦ element ∷ match_all at (element.size - 1) s
]

abbrev pub is_found : Option Text → Bool
is_found none = false
is_found (some front) = true

-- `text.includes(part)`
abbrev pub text_includes : Text → Text → Bool
text_includes part text = is_found (until part text)
