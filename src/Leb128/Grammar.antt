-- ===== src/Leb128/Grammar.antt =====
-- The grammar of integers that lib/leb128.c cites: sections uN and sN of the binary format, as
-- functions of the width and the bytes. No value fits a longer encoding than `ceil(N / 7)` bytes.
use mathlib.Core.Option
use wasm_doctor.Prelude.{
  ℕ, ◌+◌, ◌-◌, ◌*◌, ◌^◌, Option, none, some, List, [], ◌∷◌, ltb, leb, if◌then◌else◌,
}
use wasm_doctor.Prelude.Int.{ℤ, pos, negsuc, ◌+ℤ◌, ◌*ℤ◌}

-- uN: a byte n below 2^7 and 2^N is n; a byte n from 2^7 on before m in u(N-7) is 2^7 * m + (n - 2^7).
unfoldable pub u_grammar : ℕ → List ℕ → Option (ℕ × List ℕ)
u_grammar width [] = none
u_grammar width (n ∷ rest) =
    if ltb n 128
    then (if ltb n (2 ^ width) then some (n, rest) else none)
    else if ltb 7 width
    then Option.map (λ p. (128 * p.0 + (n - 128), p.1)) (u_grammar (width - 7) rest)
    else none

-- sN: as uN, but a last byte n stands for n below 2^6, and for n - 2^7 from there on.
unfoldable pub s_grammar : ℕ → List ℕ → Option (ℤ × List ℕ)
s_grammar width [] = none
s_grammar width (n ∷ rest) =
    if ltb n 128
    then (if ltb n 64
        then (if ltb n (2 ^ (width - 1)) then some (pos n, rest) else none)
        else if leb 128 (n + 2 ^ (width - 1))
        then some (negsuc (127 - n), rest)
        else none)
    else if ltb 7 width
    then Option.map (λ p. (pos 128 *ℤ p.0 +ℤ pos (n - 128), p.1)) (s_grammar (width - 7) rest)
    else none
