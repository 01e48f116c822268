-- ===== src/Leb128/Tests.antt =====
-- Runs of the readers and the writer of lib/leb128.c and lib/module_writer.c.
use wasm_doctor.Prelude.{
  ℕ, ◌-◌, ◌≤◌, ◌^◌, ◌≡◌, ◌≢◌, refl, List, [], ◌∷◌, ◌++◌, length, some, ok, err, fault, ok?, arith,
  e2big,
}
use wasm_doctor.Prelude.Int.{negsuc}
use wasm_doctor.Leb128.{
  IsBytes, read_leb, read_leb_s, read_leb_u32, read_leb_i32, read_leb_i64, read_leb_s33_nocheck,
  signed, unsigned, read_leb_loop, round, check_group, add_group, finish,
}
use wasm_doctor.Leb128.Grammar.{u_grammar, s_grammar}
use wasm_doctor.Leb128.Unsigned.{read_leb-u_grammar}
use wasm_doctor.Leb128.Readers.{read_leb_s-s_grammar}
use wasm_doctor.Leb128.Total.{read_leb-ne-fault}
use wasm_doctor.Leb128.Nocheck.{read_leb_s33_nocheck-read_leb_s}
use wasm_doctor.Leb128.Write.{write_leb_u32, read_leb_u32-write_leb_u32}

-- 624485, and -123456, with one byte behind them.
abbrev bytes_u : List ℕ
bytes_u = 0xe5 ∷ 0x8e ∷ 0x26 ∷ 0x0b ∷ []

abbrev bytes_s : List ℕ
bytes_s = 0xc0 ∷ 0xbb ∷ 0x78 ∷ 0x0b ∷ []

abbrev end_byte : List ℕ
end_byte = 0x0b ∷ []

reads_u : ok? (read_leb_u32 bytes_u) ≡ some (624485, end_byte)
unfolding read_leb_u32 read_leb read_leb_loop round check_group add_group finish
reads_u = refl

reads_s : read_leb_s 64 bytes_s ≡ ok (negsuc 123455, end_byte)
unfolding read_leb_s read_leb read_leb_loop round check_group add_group finish
reads_s = refl

-- Bits that do not fit in the fifth byte.
refuses : read_leb_u32 (0xff ∷ 0xff ∷ 0xff ∷ 0xff ∷ 0x1f ∷ []) ≡ err e2big
unfolding read_leb_u32 read_leb read_leb_loop round check_group add_group finish
refuses = refl

bytes_u-IsBytes : IsBytes bytes_u
bytes_u-IsBytes = omega arith

bytes_s-IsBytes : IsBytes bytes_s
bytes_s-IsBytes = omega arith

read_leb-u_grammar_example : ok? (read_leb (unsigned 32) bytes_u) ≡ u_grammar 32 bytes_u
read_leb-u_grammar_example =
    read_leb-u_grammar 32 bytes_u (omega arith) (omega arith) bytes_u-IsBytes

read_leb_s-s_grammar_example : ok? (read_leb_s 33 bytes_s) ≡ s_grammar 33 bytes_s
read_leb_s-s_grammar_example =
    read_leb_s-s_grammar 33 bytes_s (omega arith) (omega arith) bytes_s-IsBytes

read_leb-ne-fault_example : read_leb (signed 33) bytes_s ≢ fault
read_leb-ne-fault_example = read_leb-ne-fault (signed 33) bytes_s refl (omega arith)

accepted_u : read_leb_u32 bytes_u ≡ ok (624485, end_byte)
unfolding read_leb_u32 read_leb read_leb_loop round check_group add_group finish
accepted_u = refl

accepted_i32 : read_leb_i32 bytes_s ≡ ok (2 ^ 32 - 123456, end_byte)
unfolding read_leb_i32 read_leb read_leb_loop round check_group add_group finish
accepted_i32 = refl

accepted_i64 : read_leb_i64 bytes_s ≡ ok (2 ^ 64 - 123456, end_byte)
unfolding read_leb_i64 read_leb read_leb_loop round check_group add_group finish
accepted_i64 = refl

accepted_s33 : read_leb_s 33 bytes_s ≡ ok (negsuc 123455, end_byte)
unfolding read_leb_s read_leb read_leb_loop round check_group add_group finish
accepted_s33 = refl

read_leb_s33_nocheck_example : read_leb_s33_nocheck bytes_s ≡ ok (negsuc 123455, end_byte)
read_leb_s33_nocheck_example =
    read_leb_s33_nocheck-read_leb_s bytes_s (negsuc 123455, end_byte) bytes_s-IsBytes accepted_s33

write_leb_u32_example :
    (bytes : List ℕ) × (write_leb_u32 624485 ≡ some bytes)
    × (1 ≤ length bytes)
    × (length bytes ≤ 5)
    × (ok? (read_leb_u32 (bytes ++ end_byte)) ≡ some (624485, end_byte))
write_leb_u32_example = read_leb_u32-write_leb_u32 624485 end_byte (omega arith) (omega arith)
