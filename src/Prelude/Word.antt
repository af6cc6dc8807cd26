-- ===== src/Prelude/Word.antt =====
-- 32-bit words as numbers below 2^32: `|0`, `>>>`, `^` and `Math.imul` on bit patterns.
use Prim.Native.Nat.{ℕ, ◌*◌, ◌/◌, ◌%◌, ◌^◌, bit_xor}

-- `x | 0` and `x >>> 0`, as a bit pattern
abbrev pub to_word : ℕ → ℕ
to_word x = x % 2 ^ 32

-- `x >>> k`
abbrev pub shr : ℕ → ℕ → ℕ
shr x k = x / 2 ^ k

-- `Math.imul(a, b)`
abbrev pub imul : ℕ → ℕ → ℕ
imul a b = (a * b) % 2 ^ 32

abbrev pub word_xor : ℕ → ℕ → ℕ
word_xor = bit_xor
