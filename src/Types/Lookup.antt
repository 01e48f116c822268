-- ===== src/Types/Lookup.antt =====
-- The types that an instruction names: the block types of lib/insn.c, and the functions and tables of
-- a module in lib/type.c, imported ones first.
pub mod Typed
pub mod Blocktypes
use wasm_doctor.Prelude.{
  ℕ, zero, suc, ◌+◌, ◌-◌, ◌%◌, ◌^◌, Bool, true, false, Option, none, some, List, [], ◌∷◌, length,
  get_elem?, ltb, leb, ◌==◌, if◌then◌else◌, Result, ok, err, fault, einval, enomem, assert, ◌>>=◌,
  ◌>>◌,
}
use wasm_doctor.Prelude.Int.{ℤ, pos, negsuc}
use wasm_doctor.Types.{
  Valtype, i32, i64, f32, f64, v128, exnref, funcref, externref, Functype, Tabletype, Globaltype,
  Importdesc, func_import, table_import, memory_import, global_import, Module, Resulttype,
}
use wasm_doctor.Memory.{Realloc}

-- The value types by their bytes; others are no value types.
pub valtype_of : ℕ → Option Valtype
valtype_of u8 =
    if u8 == 0x7f
    then some i32
    else if u8 == 0x7e
    then some i64
    else if u8 == 0x7d
    then some f32
    else if u8 == 0x7c
    then some f64
    else if u8 == 0x7b
    then some v128
    else if u8 == 0x69
    then some exnref
    else if u8 == 0x70
    then some funcref
    else if u8 == 0x6f
    then some externref
    else none

pub get_functype : Module → ℕ → Result Functype
get_functype m typeidx = elim (get_elem? m.types typeidx) [ none ↦ err einval | some ft ↦ ok ft ]

-- A block type that is negative stands for its low seven bits, if those read as the same number. The
-- type with one result is allocated.
pub single_result : Realloc → ℕ → Result (Resulttype × Resulttype)
unfolding valtype_of
single_result realloc u8 = if u8 == 0x40 then ok ([], []) else elim (valtype_of u8) [
  | none ↦ err einval
  | some t ↦ if realloc 4 then ok ([], t ∷ []) else err enomem
]

pub get_functype_for_blocktype : Realloc → Module → ℤ → Result (Resulttype × Resulttype)
unfolding single_result get_functype
get_functype_for_blocktype realloc m (negsuc n) =
    let u8 = 127 - n % 128 in if 127 - u8 == n then single_result realloc u8 else err einval
get_functype_for_blocktype realloc m (pos n) =
    if leb n 0xffff_ffff
    then elim (get_functype m n) [
      | ok ft ↦ ok (ft.parameter, ft.result)
      | err e ↦ err e
      | fault ↦ fault
    ]
    else fault

-- module_find_importdesc for the functions: the type index of the `idx`-th of them.
pub find_func_import : List Importdesc → ℕ → Result ℕ
find_func_import [] idx = fault
find_func_import (func_import typeidx ∷ ims) zero = ok typeidx
find_func_import (func_import typeidx ∷ ims) (suc idx) = find_func_import ims idx
find_func_import (table_import t ∷ ims) idx = find_func_import ims idx
find_func_import (memory_import t ∷ ims) idx = find_func_import ims idx
find_func_import (global_import t ∷ ims) idx = find_func_import ims idx

-- module_find_importdesc for the tables.
pub find_table_import : List Importdesc → ℕ → Result Tabletype
find_table_import [] idx = fault
find_table_import (table_import t ∷ ims) zero = ok t
find_table_import (table_import t ∷ ims) (suc idx) = find_table_import ims idx
find_table_import (func_import t ∷ ims) idx = find_table_import ims idx
find_table_import (memory_import t ∷ ims) idx = find_table_import ims idx
find_table_import (global_import t ∷ ims) idx = find_table_import ims idx

-- module_find_importdesc for the globals.
pub find_global_import : List Importdesc → ℕ → Result Globaltype
find_global_import [] idx = fault
find_global_import (global_import t ∷ ims) zero = ok t
find_global_import (global_import t ∷ ims) (suc idx) = find_global_import ims idx
find_global_import (func_import t ∷ ims) idx = find_global_import ims idx
find_global_import (table_import t ∷ ims) idx = find_global_import ims idx
find_global_import (memory_import t ∷ ims) idx = find_global_import ims idx

-- The numbers of imports, which the loader counts as it reads the imports.
unfoldable pub nimportedfuncs : List Importdesc → ℕ
nimportedfuncs [] = 0
nimportedfuncs (func_import t ∷ ims) = suc (nimportedfuncs ims)
nimportedfuncs (table_import t ∷ ims) = nimportedfuncs ims
nimportedfuncs (memory_import t ∷ ims) = nimportedfuncs ims
nimportedfuncs (global_import t ∷ ims) = nimportedfuncs ims

unfoldable pub nimportedtables : List Importdesc → ℕ
nimportedtables [] = 0
nimportedtables (table_import t ∷ ims) = suc (nimportedtables ims)
nimportedtables (func_import t ∷ ims) = nimportedtables ims
nimportedtables (memory_import t ∷ ims) = nimportedtables ims
nimportedtables (global_import t ∷ ims) = nimportedtables ims

pub nimportedmems : List Importdesc → ℕ
nimportedmems [] = 0
nimportedmems (memory_import t ∷ ims) = suc (nimportedmems ims)
nimportedmems (func_import t ∷ ims) = nimportedmems ims
nimportedmems (table_import t ∷ ims) = nimportedmems ims
nimportedmems (global_import t ∷ ims) = nimportedmems ims

pub nimportedglobals : List Importdesc → ℕ
nimportedglobals [] = 0
nimportedglobals (global_import t ∷ ims) = suc (nimportedglobals ims)
nimportedglobals (func_import t ∷ ims) = nimportedglobals ims
nimportedglobals (table_import t ∷ ims) = nimportedglobals ims
nimportedglobals (memory_import t ∷ ims) = nimportedglobals ims

-- An element of an array; behind its end there is none.
abbrev pub elem_of : {A : Type 0} → List A → ℕ → Result A
elem_of xs i = elim (get_elem? xs i) [ none ↦ fault | some x ↦ ok x ]

pub module_functype : Module → ℕ → Result Functype
unfolding nimportedfuncs find_func_import
module_functype m idx = do
  let n = nimportedfuncs m.imports
  functypeidx ←
      if ltb idx n then find_func_import m.imports idx else elem_of m.functypeidxes (idx - n)
  assert (ltb functypeidx (length m.types))
  elem_of m.types functypeidx

pub module_tabletype : Module → ℕ → Result Tabletype
unfolding nimportedtables find_table_import
module_tabletype m idx =
    let n = nimportedtables m.imports in
    if ltb idx n then find_table_import m.imports idx else elem_of m.tables (idx - n)

pub module_globaltype : Module → ℕ → Result Globaltype
unfolding nimportedglobals find_global_import
module_globaltype m idx =
    let n = nimportedglobals m.imports in
    if ltb idx n then find_global_import m.imports idx else elem_of m.globals (idx - n)
