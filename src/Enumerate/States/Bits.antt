-- ===== src/Enumerate/States/Bits.antt =====
-- The masks of the loop over the window, and the choices of operations that they stand for.
use native.Mathlib.Nat.{pow-suc, div-div-eq-div-mul}
use crash_fuzz.Prelude.{
  ℕ, suc, ◌+◌, ◌*◌, ◌/◌, ◌%◌, ◌^◌, ◌<◌, ◌≡◌, refl, sym, ap, ◌∙◌, Bool, List, [], ◌∷◌, arith, filter,
  length, if◌then◌else◌, nat_beq,
}
use crash_fuzz.Enumerate.States.{bit_set, pick, mask_limit}

-- The mask of a choice.
pub mask_of : (ℕ → Bool) → List ℕ → ℕ
mask_of keep [] = 0
mask_of keep (op ∷ ops) = (if keep op then 1 else 0) + 2 * mask_of keep ops

mask_of-lt : (keep : ℕ → Bool) (ops : List ℕ) → mask_of keep ops < 2 ^ length ops
unfolding mask_of
mask_of-lt keep [] = omega arith
mask_of-lt keep (op ∷ ops) = ground (arith, mask_of-lt keep ops, pow-suc 2 (length ops))

bit_set_lem : (mask bit : ℕ) → bit < 32 → bit_set mask bit ≡ nat_beq ((mask / 2 ^ bit) % 2) 1
unfolding bit_set
bit_set_lem mask bit h = let small : bit % 32 ≡ bit = omega arith in rw small refl

half_shift : (mask bit : ℕ) → mask / 2 ^ suc bit ≡ mask / 2 ^ bit / 2
half_shift mask bit = rw pow-suc (sym (div-div-eq-div-mul mask (2 ^ bit) 2))

pub mask_of-lt-limit :
    (keep : ℕ → Bool) (ops : List ℕ) → length ops < 31 → mask_of keep ops < mask_limit (length ops)
unfolding mask_limit
mask_of-lt-limit keep ops h =
    let small : length ops % 32 ≡ length ops = omega arith in
    ground (arith, mask_of-lt keep ops, ap (λ n. 2 ^ n) small)

pick_of_mask :
    (keep : ℕ → Bool) (ops : List ℕ) (mask bit : ℕ)
    → bit + length ops < 32
    → mask / 2 ^ bit ≡ mask_of keep ops
    → pick mask bit ops ≡ filter keep ops
unfolding pick mask_of
pick_of_mask keep [] mask bit h e = refl
pick_of_mask keep (op ∷ ops) mask bit h e = ground (
  arith,
  bit_set_lem mask bit (omega arith),
  pick_of_mask keep ops mask (suc bit) (omega arith) (half_shift mask bit ∙ ground (arith, e)),
)

pub pick-mask_of :
    (keep : ℕ → Bool) (ops : List ℕ)
    → length ops < 31
    → pick (mask_of keep ops) 0 ops ≡ filter keep ops
pick-mask_of keep ops h = pick_of_mask keep ops (mask_of keep ops) 0 (omega arith) (omega arith)
