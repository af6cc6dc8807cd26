-- ===== src/Tools/FtruncateVsOverwrite/Classify.antt =====
-- The judgements of core/tools/ftruncate-vs-overwrite.ts against what they are meant to say.
use crash_fuzz.Prelude.{
  ℕ, zero, suc, ◌≡◌, ◌≢◌, ◌↔◌, refl, ap, ap₂, ◌∙◌, true, false, List, [], ◌∷◌, length, arith,
  nat_beq, nat_beq_iff, and-split,
}
use crash_fuzz.Tools.FtruncateVsOverwrite.{
  HeaderClassification, every_is, classify_header, new_byte, old_byte, buffer,
}

length-buffer : (n byte : ℕ) → length (buffer n byte) ≡ n
unfolding buffer
length-buffer zero byte = refl
length-buffer (suc n) byte = ap suc (length-buffer n byte)

every_is-buffer : (n byte : ℕ) → every_is byte (buffer n byte) ≡ true
unfolding buffer every_is
every_is-buffer zero byte = refl
every_is-buffer (suc n) byte = ground (arith, every_is-buffer n byte)

buffer_of_every_is :
    (byte : ℕ) (bytes : List ℕ) → every_is byte bytes ≡ true → bytes ≡ buffer (length bytes) byte
unfolding buffer every_is
buffer_of_every_is byte [] h = refl
buffer_of_every_is byte (c ∷ cs) h =
    let (same, rest) = and-split (nat_beq c byte) (every_is byte cs) h in
    ap₂ ◌∷◌ ((nat_beq_iff c byte).0 same) (buffer_of_every_is byte cs rest)

every_is-buffer_other : (n : ℕ) → n ≢ 0 → every_is new_byte (buffer n old_byte) ≡ false
unfolding buffer every_is
every_is-buffer_other zero h = absurd (h refl)
every_is-buffer_other (suc n) h = refl

module _ (bytes : List ℕ) (n : ℕ) where
  new_inv :
      classify_header bytes n ≡ HeaderClassification.new_header
      → (length bytes ≡ n) × (every_is new_byte bytes ≡ true)
  unfolding classify_header
  new_inv h = ground arith

  old_inv :
      classify_header bytes n ≡ HeaderClassification.old_header
      → (length bytes ≡ n) × (every_is old_byte bytes ≡ true)
  unfolding classify_header
  old_inv h = ground arith

  new_intro :
      length bytes ≡ n
      → every_is new_byte bytes ≡ true
      → classify_header bytes n ≡ HeaderClassification.new_header
  unfolding classify_header
  new_intro l e = ground arith

  old_intro :
      length bytes ≡ n
      → every_is new_byte bytes ≡ false
      → every_is old_byte bytes ≡ true
      → classify_header bytes n ≡ HeaderClassification.old_header
  unfolding classify_header
  old_intro l d e = ground arith

  from_inv : (byte : ℕ) → (length bytes ≡ n) × (every_is byte bytes ≡ true) → bytes ≡ buffer n byte
  from_inv byte (l, e) = buffer_of_every_is byte bytes e ∙ ap (λ m. buffer m byte) l

  length_of_eq : (byte : ℕ) → bytes ≡ buffer n byte → length bytes ≡ n
  length_of_eq byte e = ap length e ∙ length-buffer n byte

-- A read is told to be new, or old, when it is as long as is expected and all its bytes are, and
-- then only: a short or empty read is neither, for every length but zero.
pub classify_header_iff :
    (bytes : List ℕ) (n : ℕ)
    → n ≢ 0
    → ((classify_header bytes n ≡ HeaderClassification.new_header) ↔ (bytes ≡ buffer n new_byte))
      × ((classify_header bytes n ≡ HeaderClassification.old_header) ↔ (bytes ≡ buffer n old_byte))
classify_header_iff bytes n h = (
  (
    λ e. from_inv bytes n new_byte (new_inv bytes n e),
    λ e.
        new_intro bytes n (length_of_eq bytes n new_byte e)
          (ap (every_is new_byte) e ∙ every_is-buffer n new_byte),
  ),
  (
    λ e. from_inv bytes n old_byte (old_inv bytes n e),
    λ e.
        old_intro bytes n (length_of_eq bytes n old_byte e)
          (ap (every_is new_byte) e ∙ every_is-buffer_other n h)
          (ap (every_is old_byte) e ∙ every_is-buffer n old_byte),
  ),
)
