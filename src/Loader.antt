-- ===== src/Loader.antt =====
-- lib/module.c: the readers of the types and of the sections that declare them. A failure gives up the
-- module, so what is freed then is not modelled. The tables of cell indexes, whose failure is ignored,
-- are made and not kept.
pub mod Names
pub mod Sections
pub mod Forward
mod Tests
use wasm_doctor.Prelude.{
  Errno, enomem, ℕ, zero, suc, ◌+◌, ◌-◌, ◌*◌, ◌/◌, ◌%◌, ◌^◌, bit_and, Bool, true, false, not, ◌&&◌,
  ◌||◌, Option, none, some, List, [], ◌∷◌, length, take, drop, ltb, leb, ◌==◌, if◌then◌else◌,
  Result, ok, err, fault, einval, eoverflow, e2big, guard, ◌>>=◌, ◌>>◌,
}
use wasm_doctor.Types.{
  valtype_cellsize, Valtype, is_reftype, Resulttype, Functype, Limits, Tabletype, Memtype,
  Globaltype,
}
use wasm_doctor.Types.Lookup.{valtype_of}
use wasm_doctor.Memory.{Realloc}
use wasm_doctor.Leb128.{read_leb_u32}
use wasm_doctor.Decode.{Reader, read_u8, read_vec}

-- struct section, with the bytes of its contents.
pub record Section : Type 0 where
  pub id : ℕ
  pub size : ℕ
  pub data_bytes : List ℕ

pub section_load : Reader Section
section_load src = do
  (id, p) ← read_u8 src
  (size, p') ← read_leb_u32 p
  guard (leb size (length p')) einval
  ok (record { id = id; size = size; data_bytes = take size p' }, drop size p')

pub read_valtype : Reader Valtype
read_valtype src = do
  (u8, p) ← read_u8 src
  elim (valtype_of u8) [ none ↦ err einval | some t ↦ ok (t, p) ]

-- The cell indexes of the types behind the first ones, which take `off` cells.
pub cell_indexes : ℕ → Resulttype → Result (List ℕ)
cell_indexes off [] = ok []
cell_indexes off (t ∷ ts) = do
  csz ← valtype_cellsize t
  guard (leb csz (0xffff - off)) eoverflow
  idxes ← cell_indexes (off + csz) ts
  ok ((off + csz) ∷ idxes)

-- The array of 16-bit cell indexes, which starts with 0.
pub populate_resulttype_cellidx : Realloc → Resulttype → Result (List ℕ)
unfolding cell_indexes
populate_resulttype_cellidx realloc types = do
  guard (realloc (2 * (length types + 1))) enomem
  idxes ← cell_indexes 0 types
  ok (0 ∷ idxes)

-- A failure of it is ignored, but not the end of the program.
pub ignored : Result (List ℕ) → Result (Unit {0})
ignored (err Errno.xassert) = err Errno.xassert
ignored (err _) = ok tt
ignored (ok idxes) = ok tt
ignored fault = fault

-- With the option `generate_resulttype_cellidx`, which is on by default.
pub read_resulttype : Realloc → Bool → Reader Resulttype
unfolding read_valtype populate_resulttype_cellidx ignored
read_resulttype realloc populate_idx src = do
  (types, p) ← read_vec realloc 4 read_valtype src
  if populate_idx && ltb 0 (length types)
      then ignored (populate_resulttype_cellidx realloc types)
      else ok tt
  ok (types, p)

pub read_functype : Realloc → Reader Functype
unfolding read_resulttype
read_functype realloc src = do
  (u8, p) ← read_u8 src
  guard (u8 == 0x60) einval
  (parameter, p') ← read_resulttype realloc true p
  (result, p'') ← read_resulttype realloc false p'
  ok (record { parameter = parameter; result = result }, p'')

abbrev pub no_max : ℕ
no_max = 0xffff_ffff

-- MEMTYPE_FLAG_SHARED
abbrev pub flag_shared : ℕ
flag_shared = 0x02

-- The maximum, when there is one, and what stands for it when there is none.
pub read_max : Bool → ℕ → Reader ℕ
read_max true typemax src = do
  (max_size, p) ← read_leb_u32 src
  guard (leb max_size typemax) eoverflow
  ok (max_size, p)
read_max false typemax src = ok ((if ltb typemax no_max then typemax else no_max), src)

-- Without threads, no extra flag of a memory is allowed, so that the flags that are left are zero.
pub read_limits : ℕ → Reader Limits
unfolding read_max
read_limits typemax src = do
  (u8, p) ← read_u8 src
  let has_max = not (bit_and u8 0x01 == 0)
  guard (has_max || bit_and u8 flag_shared == 0) einval
  guard (bit_and u8 0xfe == 0) einval
  (min_size, p') ← read_leb_u32 p
  (max_size, p'') ← read_max has_max typemax p'
  guard (leb min_size typemax) eoverflow
  guard (leb min_size max_size) einval
  ok (record { min_size = min_size; max_size = max_size }, p'')

-- WASM_MAX_PAGES
abbrev pub wasm_max_pages : ℕ
wasm_max_pages = 65536

pub read_memtype : Reader Memtype
unfolding read_limits
read_memtype src = do
  (lim, p) ← read_limits wasm_max_pages src
  ok (record { lim = lim; flags = 0 }, p)

pub read_globaltype : Reader Globaltype
unfolding read_valtype
read_globaltype src = do
  (t, p) ← read_valtype src
  (u8, p') ← read_u8 p
  if u8 == 0x01
      then ok (record { t = t; is_var = true }, p')
      else if u8 == 0x00
      then ok (record { t = t; is_var = false }, p')
      else err einval

pub read_tabletype : Reader Tabletype
unfolding read_valtype read_limits
read_tabletype src = do
  (et, p) ← read_valtype src
  guard (is_reftype et) einval
  (lim, p') ← read_limits no_max p
  ok (record { et = et; lim = lim }, p')
