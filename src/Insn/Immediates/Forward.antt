-- ===== src/Insn/Immediates/Forward.antt =====
-- The readers of the immediates.
use wasm_doctor.Prelude.{ℕ, ◌/◌, ◌^◌, ◌<◌, ◌≡◌, true, leb, ◌==◌, ok, einval, arith}
use wasm_doctor.Types.{Valtype, is_valtype, is_reftype}
use wasm_doctor.Leb128.{read_leb_u32}
use wasm_doctor.Leb128.Forward.{Behind, Gives->>=, Gives-mono, read_leb_u32-Gives}
use wasm_doctor.Decode.{Reader, read_u8}
use wasm_doctor.Decode.Progress.{Reads, Yielding, read_u8-Forward}
use wasm_doctor.Loader.{read_valtype}
use wasm_doctor.Loader.Forward.{Gives-guard, read_valtype-Reads}
use wasm_doctor.Insn.Immediates.{
  read_memarg, read_access, read_memidx, read_two, read_select_type, read_reftype,
}

abbrev pub Anything : {A : Type 0} → A → Type 0
Anything a = Unit

pub read_index-Yielding : Yielding Anything read_leb_u32
read_index-Yielding src b =
    Gives-mono (λ v p. (v < 2 ^ 32) × Behind src p) (Reads Anything src) (read_leb_u32 src)
      (read_leb_u32-Gives src b) λ v p (_, l). (tt, l)

pub read_two-Yielding :
    {A B : Type 0} (first : Reader A) (second : Reader B)
    → Yielding Anything first
    → Yielding Anything second
    → Yielding Anything (read_two first second)
unfolding read_two
read_two-Yielding first second y z src b =
    Gives->>= (Reads Anything src) (Reads Anything src) (first src) _ (y src b) λ a p (_, (b', l)).
      Gives->>= (Reads Anything p) (Reads Anything src) (second p) (λ b q. ok ((a, b), q)) (z p b')
        λ c q (_, (b'', l')). (tt, (b'', omega arith))

pub read_access-Yielding : (bits : ℕ) → Yielding Anything (read_access bits)
unfolding read_access read_memarg
read_access-Yielding bits src b =
    Gives->>= (Reads Anything src) (Reads Anything src) (read_memarg src) _ (memarg src b)
      λ arg p (_, l). Gives-guard (Reads Anything src) (leb arg.align 4) einval _ λ _.
        Gives-guard (Reads Anything src) (leb 1 (bits / 8 / 2 ^ arg.align)) einval _ λ _. (tt, l)
  where
    memarg : Yielding Anything read_memarg
    memarg src b =
        Gives->>= (Reads Anything src) (Reads Anything src) (read_leb_u32 src) _
          (read_index-Yielding src b)
          λ align p (_, (b', l)).
            Gives->>= (Reads Anything p) (Reads Anything src) (read_leb_u32 p)
              (λ offset q. ok (record { offset = offset; align = align }, q))
              (read_index-Yielding p b') λ offset q (_, (b'', l')). (tt, (b'', omega arith))

pub read_memidx-Yielding : Yielding Anything read_memidx
unfolding read_memidx
read_memidx-Yielding src b =
    Gives->>= (λ _ p. Behind src p) (Reads Anything src) (read_u8 src) _ (read_u8-Forward src b)
      λ z p l. Gives-guard (Reads Anything src) (z == 0) einval _ λ _. (tt, l)

-- The reader of a value type.
abbrev pub IsValue : Valtype → Type 0
IsValue t = is_valtype t ≡ true

pub read_select_type-Yielding : Yielding IsValue read_select_type
unfolding read_select_type
read_select_type-Yielding src b =
    Gives->>= (Reads Anything src) (Reads IsValue src) (read_leb_u32 src) _
      (read_index-Yielding src b)
      λ n p (_, (b', l)). Gives-guard (Reads IsValue src) (n == 1) einval (read_valtype p) λ _.
        Gives-mono (Reads IsValue p) (Reads IsValue src) (read_valtype p) (read_valtype-Reads p b')
          λ t q (v, (b'', l')). (v, (b'', omega arith))

pub read_reftype-Yielding : Yielding IsValue read_reftype
unfolding read_reftype
read_reftype-Yielding src b =
    Gives->>= (Reads IsValue src) (Reads IsValue src) (read_valtype src) _
      (read_valtype-Reads src b)
      λ t p h. Gives-guard (Reads IsValue src) (is_reftype t) einval (ok (t, p)) λ _. h
