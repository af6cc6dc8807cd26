-- ===== src/Enumerate/Hash.antt =====
-- `unitHash` of core/src/enumerate/sample.ts and crash-points.ts: splitmix32 on 32-bit words. The
-- source divides the result by 2^32; here it stays the word, and a test against a rate multiplies
-- out. The sum `seed + index * 0x9e3779b9` is exact in the source while it is below 2^53.
use crash_fuzz.Prelude.{ℕ, ◌+◌, ◌*◌}
use crash_fuzz.Prelude.Word.{to_word, shr, imul, word_xor}

unfoldable pub unit_hash : ℕ → ℕ → ℕ
unit_hash seed index =
    let x0 = to_word (seed + index * 0x9e3779b9) in
    let x1 = imul (word_xor x0 (shr x0 16)) 0x21f0aaad in
    let x2 = imul (word_xor x1 (shr x1 15)) 0x735a2d97 in word_xor x2 (shr x2 15)
