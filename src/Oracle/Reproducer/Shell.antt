-- ===== src/Oracle/Reproducer/Shell.antt =====
-- `escapeForDoubleQuotedShell` of core/src/oracle/reproducer.ts, read back as bash reads a string in
-- double quotes that nests no `$(…)`, `${…}` or `$[…]`.
use crash_fuzz.Prelude.{
  ℕ, ◌≡◌, refl, ap, ◌∙◌, Bool, true, false, [], ◌∷◌, ◌++◌, Option, none, some, arith, nat_beq,
  includes, nat_eq, Bool-cases, inl, inr, if◌then◌else◌, ◌&&◌, ◌||◌,
}
use crash_fuzz.Prelude.Text.{Text}
use crash_fuzz.Oracle.Reproducer.{needs_escape, escape_for_double_quoted_shell}

-- After a backslash bash takes these as they are: the quote, the backslash, the backtick and `$`.
abbrev is_quotable : ℕ → Bool
is_quotable c = includes c (0x22 ∷ 0x5c ∷ 0x60 ∷ 0x24 ∷ [])

abbrev push : ℕ → Option (Text × Text) → Option (Text × Text)
push c none = none
push c (some (s, rest)) = some (c ∷ s, rest)

-- What bash sees at a character of the string.
pub data Token : Type 0 where
  quote backslash backtick other : Token

unfoldable pub token : ℕ → Token
token c =
    if nat_beq c 0x22
    then Token.quote
    else (if nat_beq c 0x5c
        then Token.backslash
        else (if nat_beq c 0x60 then Token.backtick else Token.other))

-- `$(`, `${` and `$[` open an expansion of their own, which has to be closed before the string.
abbrev pub opens_nested : ℕ → ℕ → Bool
opens_nested c d = nat_beq c 0x24 && includes d (0x28 ∷ 0x7b ∷ 0x5b ∷ [])

abbrev opens_at : ℕ → Text → Bool
opens_at c [] = false
opens_at c (d ∷ s) = opens_nested c d

abbrev pub nests : Text → Bool
nests [] = false
nests (c ∷ s) = opens_at c s || nests s

-- The text of a string up to its closing quote, and what follows it. `$name` stands unexpanded, an
-- expansion in backticks or one that `$(`, `${` or `$[` opens is refused, and a line end after a
-- backslash is dropped.
unfoldable pub read_quoted : Text → Option (Text × Text)
unfolding token
read_quoted [] = none
read_quoted (c ∷ []) = elim (token c) [ Token.quote ↦ some ([], []) | _ ↦ none ]
read_quoted (c ∷ d ∷ s) = elim (token c) [
  | Token.quote ↦ some ([], d ∷ s)
  | Token.backtick ↦ none
  | Token.other ↦ elim (opens_nested c d) [ true ↦ none | false ↦ push c (read_quoted (d ∷ s)) ]
  | Token.backslash ↦ elim (is_quotable d) [
    | true ↦ push d (read_quoted s)
    | false ↦ elim (nat_beq d 0x0a) [
      | true ↦ read_quoted s
      | false ↦ push c (push d (read_quoted s))
    ]
  ]
]

read-quote : (rest : Text) → read_quoted (0x22 ∷ rest) ≡ some ([], rest)
unfolding read_quoted
read-quote [] = refl
read-quote (c ∷ s) = refl

read-escaped :
    (c : ℕ) (s : Text) → needs_escape c ≡ true → read_quoted (0x5c ∷ c ∷ s) ≡ push c (read_quoted s)
unfolding read_quoted
read-escaped c s h = quotable (is_quotable c) (ground arith)
  where
    quotable :
        (b : Bool)
        → b ≡ true
        → elim b as (λ x. Option (Text × Text)) [
          | true ↦ push c (read_quoted s)
          | false ↦ elim (nat_beq c 0x0a) [
            | true ↦ read_quoted s
            | false ↦ push 0x5c (push c (read_quoted s))
          ]
        ]
          ≡ push c (read_quoted s)
    quotable true e = refl
    quotable false e = absurd (cc)

token-plain : (c : ℕ) → needs_escape c ≡ false → token c ≡ Token.other
unfolding token
token-plain c h = ground arith

read-plain :
    (c d : ℕ) (s : Text)
    → needs_escape c ≡ false
    → opens_nested c d ≡ false
    → read_quoted (c ∷ d ∷ s) ≡ push c (read_quoted (d ∷ s))
unfolding read_quoted
read-plain c d s h flat = go (token c) (token-plain c h)
  where
    inner : Option (Text × Text)
    inner = elim (is_quotable d) [
      | true ↦ push d (read_quoted s)
      | false ↦ elim (nat_beq d 0x0a) [
        | true ↦ read_quoted s
        | false ↦ push c (push d (read_quoted s))
      ]
    ]

    go :
        (t : Token)
        → t ≡ Token.other
        → elim t as (λ x. Option (Text × Text)) [
          | Token.quote ↦ some ([], d ∷ s)
          | Token.backtick ↦ none
          | Token.other ↦ elim (opens_nested c d) [
            | true ↦ none
            | false ↦ push c (read_quoted (d ∷ s))
          ]
          | Token.backslash ↦ elim (is_quotable d) [
            | true ↦ push d (read_quoted s)
            | false ↦ elim (nat_beq d 0x0a) [
              | true ↦ read_quoted s
              | false ↦ push c (push d (read_quoted s))
            ]
          ]
        ]
          ≡ push c (read_quoted (d ∷ s))
    go Token.quote e = absurd (cc)
    go Token.backtick e = absurd (cc)
    go Token.other e = rw flat refl
    go Token.backslash e = absurd (cc)

escape-special :
    (c : ℕ) (s : Text)
    → needs_escape c ≡ true
    → escape_for_double_quoted_shell (c ∷ s) ≡ 0x5c ∷ c ∷ escape_for_double_quoted_shell s
unfolding escape_for_double_quoted_shell
escape-special c s e = rw e refl

escape-plain :
    (c : ℕ) (s : Text)
    → needs_escape c ≡ false
    → escape_for_double_quoted_shell (c ∷ s) ≡ c ∷ escape_for_double_quoted_shell s
unfolding escape_for_double_quoted_shell
escape-plain c s e = rw e refl

-- A character that is not escaped, before the text that is.
read-plain_escaped :
    (c : ℕ) (s rest : Text)
    → needs_escape c ≡ false
    → opens_at c s ≡ false
    → let t = escape_for_double_quoted_shell s ++ 0x22 ∷ rest in
      read_quoted (c ∷ t) ≡ push c (read_quoted t)
unfolding escape_for_double_quoted_shell
read-plain_escaped c [] rest h flat = read-plain c 0x22 rest h (ground arith)
read-plain_escaped c (d ∷ s) rest h flat = elim (Bool-cases (needs_escape d)) [
  | inl special ↦
      rw (escape-special d s special)
        (read-plain c 0x5c (d ∷ (escape_for_double_quoted_shell s ++ 0x22 ∷ rest)) h (ground arith))
  | inr plain ↦
      rw (escape-plain d s plain)
        (read-plain c d (escape_for_double_quoted_shell s ++ 0x22 ∷ rest) h flat)
]

-- Where no `$` of the text stands before `(`, `{` or `[`, bash takes the escaped text as one string,
-- up to the closing quote and no further, and the string is the text as it was, with its `$name`
-- parameters yet to be expanded.
pub read_quoted-escape :
    (value rest : Text)
    → nests value ≡ false
    → read_quoted (escape_for_double_quoted_shell value ++ 0x22 ∷ rest) ≡ some (value, rest)
unfolding escape_for_double_quoted_shell
read_quoted-escape [] rest flat = read-quote rest
read_quoted-escape (c ∷ s) rest flat =
    let later = read_quoted-escape s rest (ground arith) in
    elim (Bool-cases (needs_escape c)) [
      | inl special ↦
          ap (λ (t : Text). read_quoted (t ++ 0x22 ∷ rest)) (escape-special c s special)
          ∙ read-escaped c (escape_for_double_quoted_shell s ++ 0x22 ∷ rest) special
          ∙ ap (push c) later
      | inr plain ↦
          ap (λ (t : Text). read_quoted (t ++ 0x22 ∷ rest)) (escape-plain c s plain)
          ∙ read-plain_escaped c s rest plain (ground arith)
          ∙ ap (push c) later
    ]
