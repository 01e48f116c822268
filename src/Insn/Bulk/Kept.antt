-- ===== src/Insn/Bulk/Kept.antt =====
-- The instructions on ranges, in a sound context. Two of them look up the type of a table that the
-- module defines, whether the table is imported or not.
use wasm_doctor.Prelude.{
  ℕ, zero, suc, ◌<◌, ◌≡◌, refl, true, List, [], ◌∷◌, length, ltb, einval, arith, ltb→lt, guard,
}
use wasm_doctor.Types.{Valtype, i32, is}
use wasm_doctor.Types.Lookup.{nimportedtables, elem_of}
use wasm_doctor.Types.Lookup.Typed.{Yields}
use wasm_doctor.Leb128.{read_leb_u32}
use wasm_doctor.Validation.{Validator, ◌>>=◌, lift}
use wasm_doctor.Insn.{Code}
use wasm_doctor.Insn.Reads.{IsReady}
use wasm_doctor.Insn.Carried.{Processes, reads-Processes}
use wasm_doctor.Insn.Immediates.{read_memidx, read_two}
use wasm_doctor.Insn.Immediates.Forward.{
  Anything, read_index-Yielding, read_two-Yielding, read_memidx-Yielding,
}
use wasm_doctor.Insn.Steady.{
  Steady, Steady->>=, Steady-pure, Steady-guard, Steady-last_guard, Steady-Yields, pop-Steady,
}
use wasm_doctor.Insn.Operations.{ntables, nmems, check_memory}
use wasm_doctor.Insn.Operations.Kept.{push_value, table_type-then}
use wasm_doctor.Insn.Bulk.{
  pop_range, check_data, process_memory_init, process_data_drop, process_memory_copy,
  process_memory_fill, defined_type, process_table_init, process_elem_drop, process_table_copy,
  process_table_grow, process_table_size, process_table_fill,
}

there : {A : Type 0} (xs : List A) (i : ℕ) → i < length xs → Yields Anything (elem_of xs i)
there [] i h = absurd (omega arith)
there (x ∷ xs) zero h = tt
there (x ∷ xs) (suc i) h = there xs i (omega arith)

module _ (code : Code) (ready : IsReady code) where
  pop_range-Steady : Steady code.env (pop_range code)
  unfolding pop_range
  pop_range-Steady =
      Steady->>= (Steady->>= (pop-Steady code i32) (λ _. pop-Steady code i32))
        (λ _. pop-Steady code i32)

  -- The checks.
  memory-Steady : (memidx : ℕ) → Steady code.env (check_memory code memidx)
  memory-Steady memidx = Steady-last_guard (ltb memidx (nmems code)) einval

  data-Steady : (dataidx : ℕ) → Steady code.env (check_data code dataidx)
  data-Steady dataidx =
      Steady->>= (Steady-last_guard code.has_datacount einval)
        (λ _. Steady-last_guard (ltb dataidx code.ndatas_in_datacount) einval)

  table-Steady :
      (tableidx : ℕ) → Steady code.env (lift (guard (ltb tableidx (ntables code)) einval))
  table-Steady tableidx = Steady-last_guard (ltb tableidx (ntables code)) einval

  pub process_memory_init-Processes : Processes code (process_memory_init code)
  unfolding process_memory_init
  process_memory_init-Processes =
      reads-Processes Anything code (read_two read_leb_u32 read_memidx) _
        (read_two-Yielding read_leb_u32 read_memidx read_index-Yielding read_memidx-Yielding)
        λ a _.
          Steady->>= (Steady->>= (memory-Steady a.1) (λ _. pop_range-Steady)) (λ _. data-Steady a.0)

  pub process_data_drop-Processes : Processes code (process_data_drop code)
  unfolding process_data_drop
  process_data_drop-Processes =
      reads-Processes Anything code read_leb_u32 _ read_index-Yielding λ d _. data-Steady d

  pub process_memory_copy-Processes : Processes code (process_memory_copy code)
  unfolding process_memory_copy
  process_memory_copy-Processes =
      reads-Processes Anything code (read_two read_memidx read_memidx) _
        (read_two-Yielding read_memidx read_memidx read_memidx-Yielding read_memidx-Yielding)
        λ a _.
          Steady->>= (Steady->>= (memory-Steady a.0) (λ _. memory-Steady a.1))
            (λ _. pop_range-Steady)

  pub process_memory_fill-Processes : Processes code (process_memory_fill code)
  unfolding process_memory_fill
  process_memory_fill-Processes =
      reads-Processes Anything code read_memidx _ read_memidx-Yielding
        λ i _. Steady->>= (memory-Steady i) (λ _. pop_range-Steady)

  pub process_elem_drop-Processes : Processes code (process_elem_drop code)
  unfolding process_elem_drop
  process_elem_drop-Processes =
      reads-Processes Anything code read_leb_u32 _ read_index-Yielding
        λ i _. Steady-last_guard (ltb i (length code.m.elem_types)) einval

  pub process_table_size-Processes : Processes code (process_table_size code)
  unfolding process_table_size
  process_table_size-Processes =
      reads-Processes Anything code read_leb_u32 _ read_index-Yielding
        λ i _. Steady->>= (table-Steady i) (λ _. push_value code ready i32 refl)

  pub process_table_grow-Processes : Processes code (process_table_grow code)
  unfolding process_table_grow
  process_table_grow-Processes =
      reads-Processes Anything code read_leb_u32 _ read_index-Yielding λ tableidx _.
        Steady->>= (table-Steady tableidx) λ _. Steady->>= (pop-Steady code i32) λ _.
          table_type-then code ready tableidx _
            λ t v. Steady->>= (pop-Steady code t) (λ _. push_value code ready i32 refl)

  pub process_table_fill-Processes : Processes code (process_table_fill code)
  unfolding process_table_fill
  process_table_fill-Processes =
      reads-Processes Anything code read_leb_u32 _ read_index-Yielding λ tableidx _.
        Steady->>= (table-Steady tableidx) λ _. Steady->>= (pop-Steady code i32) λ _.
          table_type-then code ready tableidx _
            λ t v. Steady->>= (pop-Steady code t) (λ _. pop-Steady code i32)

  -- Without imported tables, the type of a table whose index is checked is found.
  module _ (own : nimportedtables code.m.imports ≡ 0) where
    defined_type-then :
        {B : Type 0} (tableidx : ℕ) (k : Valtype → Validator B)
        → ltb tableidx (ntables code) ≡ true
        → ((t : Valtype) → Steady code.env (k t))
        → Steady code.env (defined_type code tableidx >>= k)
    unfolding defined_type
    defined_type-then tableidx k lt h =
        Steady->>=
          (Steady-Yields Anything (elem_of code.m.tables tableidx)
            (there code.m.tables tableidx (omega (arith, own, ltb→lt tableidx (ntables code) lt)))
            (λ t _. Steady-pure t.et))
          h

    pub process_table_init-Processes : Processes code (process_table_init code)
    unfolding process_table_init
    process_table_init-Processes =
        reads-Processes Anything code (read_two read_leb_u32 read_leb_u32) _
          (read_two-Yielding read_leb_u32 read_leb_u32 read_index-Yielding read_index-Yielding)
          λ a _. Steady-guard (ltb a.0 (length code.m.elem_types)) einval λ le.
            Steady-guard (ltb a.1 (ntables code)) einval λ lt. defined_type-then a.1 _ lt λ et.
              Steady-Yields Anything (elem_of code.m.elem_types a.0)
                (there code.m.elem_types a.0 (ltb→lt a.0 (length code.m.elem_types) le))
                λ type _. Steady-guard (is et type) einval λ _. pop_range-Steady

    pub process_table_copy-Processes : Processes code (process_table_copy code)
    unfolding process_table_copy
    process_table_copy-Processes =
        reads-Processes Anything code (read_two read_leb_u32 read_leb_u32) _
          (read_two-Yielding read_leb_u32 read_leb_u32 read_index-Yielding read_index-Yielding)
          λ a _. Steady-guard (ltb a.0 (ntables code)) einval λ lt.
            Steady-guard (ltb a.1 (ntables code)) einval λ lt'. defined_type-then a.0 _ lt λ et.
              defined_type-then a.1 _ lt'
                λ et'. Steady-guard (is et et') einval λ _. pop_range-Steady
