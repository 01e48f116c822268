-- ===== src/Loader/Sections.antt =====
-- The sections of lib/module.c that declare types, imports, functions, tables and memories. The names of
-- an import are checked, and not kept. Each section comes at most once, so its array is empty before.
pub mod Checked
use wasm_doctor.Prelude.{
  ℕ, zero, suc, ◌+◌, ◌*◌, ◌/◌, Bool, true, false, ◌||◌, List, [], ◌∷◌, length, ltb, ◌==◌,
  if◌then◌else◌, Result, ok, err, fault, einval, enomem, guard, ◌>>=◌, ◌>>◌,
}
use wasm_doctor.Types.{
  Functype, Importdesc, func_import, table_import, memory_import, global_import, Module, Memtype,
}
use wasm_doctor.Types.Lookup.{nimportedfuncs}
use wasm_doctor.Memory.{Realloc}
use wasm_doctor.Leb128.{read_leb_u32}
use wasm_doctor.Decode.{Reader, read_u8, read_vec, read_vec_with_ctx, read_vec_u32}
use wasm_doctor.Loader.{read_functype, read_memtype, read_globaltype, read_tabletype}
use wasm_doctor.Loader.Names.{read_name}

-- The sizes of the structures on the host.
pub record Layout : Type 0 where
  pub functype_size : ℕ
  pub import_size : ℕ
  pub tabletype_size : ℕ
  pub memtype_size : ℕ

-- bitmap_alloc, of which only the failure is seen here.
pub bitmap_alloc : Realloc → ℕ → Result (Unit {0})
bitmap_alloc realloc n = guard (n == 0 || realloc ((n + 31) / 32 * 4)) enomem

pub read_importdesc : ℕ → Reader Importdesc
read_importdesc ntypes src = do
  (u8, p) ← read_u8 src
  if u8 == 0x00
      then (do
        (typeidx, p') ← read_leb_u32 p
        guard (ltb typeidx ntypes) einval
        ok (func_import typeidx, p'))
      else if u8 == 0x01
      then (do (t, p') ← read_tabletype p; ok (table_import t, p'))
      else if u8 == 0x02
      then (do (t, p') ← read_memtype p; ok (memory_import t, p'))
      else if u8 == 0x03
      then (do (t, p') ← read_globaltype p; ok (global_import t, p'))
      else err einval

pub read_import : ℕ → Reader Importdesc
unfolding read_importdesc
read_import ntypes src = do
  (module_name, p) ← read_name src
  (name, p') ← read_name p
  read_importdesc ntypes p'

-- The loop over the type indexes.
pub check_indexes : ℕ → List ℕ → Result (Unit {0})
check_indexes ntypes [] = ok tt
check_indexes ntypes (typeidx ∷ idxes) = do
  guard (ltb typeidx ntypes) einval
  check_indexes ntypes idxes

module _ (realloc : Realloc) (layout : Layout) where
  pub read_type_section : Module → Reader Module
  read_type_section m src = do
    (types, p) ← read_vec_with_ctx realloc layout.functype_size (λ _. read_functype realloc) 0 src
    ok (record m { types = types }, p)

  pub read_import_section : Module → Reader Module
  unfolding read_import bitmap_alloc
  read_import_section m src = do
    (imports, p) ←
        read_vec_with_ctx realloc layout.import_size (λ _. read_import (length m.types)) 0 src
    bitmap_alloc realloc (nimportedfuncs imports)
    ok (record m { imports = imports }, p)

  pub read_function_section : Module → Reader Module
  unfolding check_indexes bitmap_alloc
  read_function_section m src = do
    (functypeidxes, p) ← read_vec_u32 realloc src
    check_indexes (length m.types) functypeidxes
    let nfuncs = length functypeidxes
    if nfuncs == 0 then ok tt else bitmap_alloc realloc (nimportedfuncs m.imports + nfuncs)
    ok (record m { functypeidxes = functypeidxes }, p)

  pub read_table_section : Module → Reader Module
  read_table_section m src = do
    (tables, p) ← read_vec realloc layout.tabletype_size read_tabletype src
    ok (record m { tables = tables }, p)

  pub read_memory_section : Reader (List Memtype)
  read_memory_section src = read_vec_with_ctx realloc layout.memtype_size (λ _. read_memtype) 0 src
