-- ===== src/Memory/Tests.antt =====
-- Runs on a memory of one page, of which four bytes are allocated.
use wasm_doctor.Prelude.{◌+◌, ◌-◌, ◌^◌, ◌≡◌, refl, true, false, ok, err, etoywasmtrap, arith}
use wasm_doctor.Memory.{
  Meminst, Realloc, Data, memory_getptr2, memory_grow_impl, memory_init, table_access, getptr_bytes,
}
use wasm_doctor.Memory.Bounds.{IsValid, Accessed, memory_getptr2-Accessed}
use wasm_doctor.Memory.Grow.{Grown, memory_grow_impl-Grown}
use wasm_doctor.Memory.Init.{Initialized, memory_init-Initialized}

abbrev enough : Realloc
enough n = true

abbrev one_page : Meminst
one_page = record { bytes = λ i. i + 1; allocated = 4; size_in_pages = 1; max = 10 }

one_page-IsValid : IsValid one_page
one_page-IsValid = record {
  allocated_bound = omega arith;
  pages_bound = omega arith;
  max_bound = omega arith;
}

abbrev hello : Data
hello = record { init = λ i. 104 + i; init_size = 5; dropped = false }

traps : memory_getptr2 enough one_page 65530 4 4 ≡ err etoywasmtrap
unfolding memory_getptr2 getptr_bytes
traps = refl

table_traps : table_access 10 4 7 ≡ err etoywasmtrap
unfolding table_access
table_traps = refl

-- Growing by 2^32 - 1 pages wraps around: the memory shrinks, and the former size is returned.
grow_wraps :
    memory_grow_impl enough one_page (2 ^ 32 - 1) ≡ ok (1, record one_page { size_in_pages = 0 })
unfolding memory_grow_impl
grow_wraps = refl

memory_getptr2-Accessed_example :
    Accessed enough one_page 100 8 8 (memory_getptr2 enough one_page 100 8 8)
memory_getptr2-Accessed_example =
    memory_getptr2-Accessed enough one_page 100 8 8 one_page-IsValid (omega arith) (omega arith)
      (omega arith)

memory_grow_impl-Grown_example : Grown enough one_page 5 (memory_grow_impl enough one_page 5)
memory_grow_impl-Grown_example =
    memory_grow_impl-Grown enough one_page 5 one_page-IsValid (omega arith)

memory_init-Initialized_example :
    Initialized one_page hello 2 1 4 (memory_init enough one_page hello 2 1 4)
memory_init-Initialized_example =
    memory_init-Initialized enough one_page hello 2 1 4 one_page-IsValid (omega arith) (omega arith)
