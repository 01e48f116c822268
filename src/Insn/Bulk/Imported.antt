-- ===== src/Insn/Bulk/Imported.antt =====
-- The element types that table_copy compares, where tables are imported.
use wasm_doctor.Prelude.{
  ℕ, zero, suc, ◌≤◌, ◌<◌, ◌≡◌, refl, List, [], ◌∷◌, length, get_elem?, none, some, ok, err, fault,
  ap, guard, einval, arith, lt→ltb,
}
use wasm_doctor.Leb128.Forward.{read_leb_u32-byte}
use wasm_doctor.Types.{Valtype, is}
use wasm_doctor.Types.Lookup.{elem_of}
use wasm_doctor.Validation.{Context, Validator, ◌>>=◌, ◌>>◌, lift, pure}
use wasm_doctor.Insn.{Code, lift_result}
use wasm_doctor.Insn.Immediates.{read_two}
use wasm_doctor.Insn.Operations.{ntables}
use wasm_doctor.Insn.Bulk.{pop_range, defined_type, process_table_copy}

get_elem?-behind : {A : Type 0} (xs : List A) (i : ℕ) → length xs ≤ i → get_elem? xs i ≡ none
get_elem?-behind [] i h = refl
get_elem?-behind (x ∷ xs) zero h = absurd (omega arith)
get_elem?-behind (x ∷ xs) (suc i) h = get_elem?-behind xs i (omega arith)

bind-fault :
    {A B : Type 0} (m : Validator A) (f : A → Validator B) (ctx : Context)
    → m ctx ≡ fault
    → (m >>= f) ctx ≡ fault
bind-fault m f ctx e =
    ap (λ r. elim r [ ok (a, ctx') ↦ f a ctx' | err e ↦ err e | fault ↦ fault ]) e

elem_of-behind : {A : Type 0} (xs : List A) (i : ℕ) → length xs ≤ i → elem_of xs i ≡ fault
elem_of-behind xs i h = ap (λ o. elim o [ none ↦ fault | some x ↦ ok x ]) (get_elem?-behind xs i h)

defined_type-faults :
    (code : Code) (i : ℕ) (ctx : Context)
    → length code.m.tables ≤ i
    → defined_type code i ctx ≡ fault
unfolding defined_type
defined_type-faults code i ctx own =
    ap (λ r. (lift_result r >>= λ tab. pure tab.et) ctx) (elem_of-behind code.m.tables i own)

-- The instruction `table.copy`, between tables whose indexes pass the check and take a byte, reads the
-- array of a module's own tables behind its end where the first index is not below their number: when
-- tables are imported.
pub process_table_copy-faults :
    (code : Code) (dst src : ℕ) (rest : List ℕ) (ctx : Context)
    → dst < 128
    → src < 128
    → dst < ntables code
    → src < ntables code
    → length code.m.tables ≤ dst
    → process_table_copy code (dst ∷ src ∷ rest) ctx ≡ fault
unfolding process_table_copy read_two
process_table_copy-faults code dst src rest ctx d s nd ns own =
    let compare : Valtype → Validator (Unit {0}) = λ et_dst. defined_type code src >>= λ et_src.
    lift (guard (is et_dst et_src) einval) >> pop_range code in
    rw
      (
        read_leb_u32-byte dst (src ∷ rest) d,
        read_leb_u32-byte src rest s,
        lt→ltb dst (ntables code) nd,
        lt→ltb src (ntables code) ns,
      )
      (bind-fault (defined_type code dst >>= compare) (λ _. pure rest) ctx
        (bind-fault (defined_type code dst) compare ctx (defined_type-faults code dst ctx own)))
