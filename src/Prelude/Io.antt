-- ===== src/Prelude/Io.antt =====
-- Code that changes a state and may throw: what is done before a throw stays done.
use mathlib.Core.Path.{◌≡◌, refl}
use crash_fuzz.Prelude.Text.{Text}
use crash_fuzz.Prelude.{ap}

-- A value, or the message of the error that is thrown.
pub data Outcome (A : Type 0) : Type 0 where
  returned : A → Outcome A
  thrown : Text → Outcome A

abbrev pub Io : Type 0 → Type 0 → Type 0
Io S A = S → Outcome A × S

module _ {S A : Type 0} where
  abbrev pub pure : A → Io S A
  pure a s = (Outcome.returned a, s)

  abbrev pub throw : Text → Io S A
  throw message s = (Outcome.thrown message, s)

  -- What follows `try { … }` in `catch { … }`; the error itself is not looked at.
  abbrev pub recovered : Outcome A × S → Io S A → Outcome A × S
  recovered (Outcome.returned a, s) other = (Outcome.returned a, s)
  recovered (Outcome.thrown message, s) other = other s

  abbrev pub catch : Io S A → Io S A → Io S A
  catch m other s = recovered (m s) other

module _ {S A B : Type 0} where
  abbrev pub after : Outcome A × S → (A → Io S B) → Outcome B × S
  after (Outcome.returned a, s) k = k a s
  after (Outcome.thrown message, s) k = (Outcome.thrown message, s)

  infixl 5 ◌>>=◌ ◌>>◌
  abbrev pub ◌>>=◌ : Io S A → (A → Io S B) → Io S B
  m >>= k = λ s. after (m s) k

  abbrev pub ◌>>◌ : Io S A → Io S B → Io S B
  m >> n = m >>= λ _. n

module _ {S A B : Type 0} where
  -- `finally`: the clean-up runs in both cases, and an error of its own is what is thrown.
  abbrev pub cleaned : Outcome A × S → Io S B → Outcome A × S
  cleaned (Outcome.returned a, s) cleanup = after (cleanup s) (λ _. pure a)
  cleaned (Outcome.thrown message, s) cleanup = after (cleanup s) (λ _. throw message)

  abbrev pub finally : Io S A → Io S B → Io S A
  finally m cleanup s = cleaned (m s) cleanup

-- What a clean-up that ends so leaves of the outcome before it.
abbrev pub merged : {A B : Type 0} → Outcome A → Outcome B → Outcome A
merged {A} {B} o (Outcome.returned b) = o
merged {A} {B} o (Outcome.thrown message) = Outcome.thrown message

-- `m`, started at `s`, ends with an outcome and a state of which `Q` holds.
module _ {S A : Type 0} where
  abbrev pub Ends : (Outcome A → S → Type 0) → Outcome A × S → Type 0
  Ends Q (o, s) = Q o s

  pub Ends-mono :
      (P Q : Outcome A → S → Type 0) (r : Outcome A × S)
      → Ends P r
      → ((o : Outcome A) (s : S) → P o s → Q o s)
      → Ends Q r
  Ends-mono P Q (o, s) p h = h o s p

  pub Ends-recovered :
      (Q : Outcome A → S → Type 0) (r : Outcome A × S) (other : Io S A)
      → ((a : A) (s : S) → r ≡ (Outcome.returned a, s) → Q (Outcome.returned a) s)
      → ((message : Text) (s : S) → r ≡ (Outcome.thrown message, s) → Ends Q (other s))
      → Ends Q (recovered r other)
  Ends-recovered Q (Outcome.returned a, s) other good bad = good a s refl
  Ends-recovered Q (Outcome.thrown message, s) other good bad = bad message s refl

module _ {S A B : Type 0} where
  pub Ends-after :
      (P : Outcome A → S → Type 0) (Q : Outcome B → S → Type 0) (r : Outcome A × S) (k : A → Io S B)
      → Ends P r
      → ((a : A) (s : S) → P (Outcome.returned a) s → Ends Q (k a s))
      → ((message : Text) (s : S) → P (Outcome.thrown message) s → Q (Outcome.thrown message) s)
      → Ends Q (after r k)
  Ends-after P Q (Outcome.returned a, s) k p good bad = good a s p
  Ends-after P Q (Outcome.thrown message, s) k p good bad = bad message s p

  pub Ends-cleaned :
      (P Q : Outcome A → S → Type 0) (r : Outcome A × S) (cleanup : Io S B)
      → Ends P r
      → ((o : Outcome A) (s : S) → P o s → Ends (λ c. Q (merged o c)) (cleanup s))
      → Ends Q (cleaned r cleanup)
  Ends-cleaned P Q (Outcome.returned a, s) cleanup p h = go (cleanup s) (h (Outcome.returned a) s p)
    where
      go :
          (x : Outcome B × S)
          → Ends (λ c. Q (merged (Outcome.returned a) c)) x
          → Ends Q (after x (λ b. pure a))
      go (Outcome.returned b, s') q = q
      go (Outcome.thrown message, s') q = q
  Ends-cleaned P Q (Outcome.thrown message, s) cleanup p h =
      go (cleanup s) (h (Outcome.thrown message) s p)
    where
      go :
          (x : Outcome B × S)
          → Ends (λ c. Q (merged (Outcome.thrown message) c)) x
          → Ends Q (after x (λ b. throw message))
      go (Outcome.returned b, s') q = q
      go (Outcome.thrown message', s') q = q

-- What follows returns, so what goes before it did.
pub after_inv :
    {S A B : Type 0} (r : Outcome A × S) (k : A → Io S B) (b : B) (s' : S)
    → after r k ≡ (Outcome.returned b, s')
    → (a : A) × (s : S) × (r ≡ (Outcome.returned a, s)) × (k a s ≡ (Outcome.returned b, s'))
after_inv {S} {A} {B} (Outcome.returned a, s) k b s' e = (a, s, refl, e)
after_inv {S} {A} {B} (Outcome.thrown message, s) k b s' e =
    absurd (cc (ap (λ (x : Outcome B × S). x.0) e))

-- A value, with a state of which `P` holds.
abbrev pub Good : {S A : Type 0} → (S → Type 0) → Outcome A → S → Type 0
Good {S} {A} P (Outcome.returned a) s = P s
Good {S} {A} P (Outcome.thrown message) s = ⊥

-- An action that returns from where `P` holds to where `Q` does.
abbrev pub Returns : {S A : Type 0} → (S → Type 0) → (S → Type 0) → Io S A → Type 0
Returns {S} {A} P Q m = (s : S) → P s → Ends (Good Q) (m s)

module _ {S A B : Type 0} (P Q : S → Type 0) where
  pub Good-after :
      (r : Outcome A × S) (k : A → Io S B)
      → Ends (Good P) r
      → ((a : A) → Returns P Q (k a))
      → Ends (Good Q) (after r k)
  Good-after (Outcome.returned a, s) k p h = h a s p
  Good-after (Outcome.thrown message, s) k p h = absurd p

  pub Good-cleaned :
      (r : Outcome A × S) (cleanup : Io S B)
      → Ends (Good P) r
      → Returns P Q cleanup
      → Ends (Good Q) (cleaned r cleanup)
  Good-cleaned (Outcome.returned a, s) cleanup p h = go (cleanup s) (h s p)
    where
      go : (x : Outcome B × S) → Ends (Good Q) x → Ends (Good Q) (after x (λ b. pure a))
      go (Outcome.returned b, s') q = q
      go (Outcome.thrown message, s') q = q
  Good-cleaned (Outcome.thrown message, s) cleanup p h = absurd p

pub Good-inv :
    {S A : Type 0}
    → (P : S → Type 0) (r : Outcome A × S) → Ends (Good P) r
    → (a : A) × (s : S) × (r ≡ (Outcome.returned a, s)) × P s
Good-inv P (Outcome.returned a, s) p = (a, s, refl, p)
Good-inv P (Outcome.thrown message, s) p = absurd p
