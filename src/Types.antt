-- ===== src/Types.antt =====
-- lib/valtype.h and the classification of value types in lib/type.c and lib/cell.c.
pub mod Lookup
use wasm_doctor.Prelude.{
  Result, ok, err, fault, Errno, xassert, ◌>>◌, ℕ, ◌+◌, Bool, true, false, ◌||◌, List, [], ◌∷◌,
  ◌==◌,
}

-- enum valtype, without its prefix; `anyref` and `unknown` are the pseudo types of the validation.
pub data Valtype : Type 0 where
  i32 i64 f32 f64 v128 exnref funcref externref anyref unknown : Valtype

-- The values of the C enumeration.
abbrev pub tag : Valtype → ℕ
tag i32 = 0x7f
tag i64 = 0x7e
tag f32 = 0x7d
tag f64 = 0x7c
tag v128 = 0x7b
tag exnref = 0x69
tag funcref = 0x70
tag externref = 0x6f
tag anyref = 0xfe
tag unknown = 0xff

-- `a == b` on the enumeration.
abbrev pub is : Valtype → Valtype → Bool
is a b = tag a == tag b

abbrev pub is_numtype : Valtype → Bool
is_numtype i32 = true
is_numtype i64 = true
is_numtype f32 = true
is_numtype f64 = true
is_numtype _ = false

abbrev pub is_vectype : Valtype → Bool
is_vectype v128 = true
is_vectype _ = false

abbrev pub is_reftype : Valtype → Bool
is_reftype exnref = true
is_reftype funcref = true
is_reftype externref = true
is_reftype _ = false

abbrev pub is_valtype : Valtype → Bool
is_valtype t = is_numtype t || is_vectype t || is_reftype t

-- The `sz` that valtype_cellsize sets, in the default configuration on a host with 64-bit pointers:
-- small cells of 32 bits, SIMD, no exception handling.
abbrev pub cellsize : Valtype → ℕ
cellsize i32 = 1
cellsize f32 = 1
cellsize i64 = 2
cellsize f64 = 2
cellsize v128 = 4
cellsize funcref = 2
cellsize externref = 2
cellsize _ = 0

-- The `default` of its switch, `xassert(false)`. A module can name `exnref`, which is_valtype accepts, so
-- that its failure there is the outcome `xassert`; a pseudo type is no input of the program.
abbrev pub counted : Valtype → Result (Unit {0})
counted exnref = err xassert
counted anyref = fault
counted unknown = fault
counted _ = ok tt

unfoldable pub valtype_cellsize : Valtype → Result ℕ
valtype_cellsize t = counted t >> ok (cellsize t)

-- The cells of a list of types.
abbrev pub cells : List Valtype → ℕ
cells [] = 0
cells (t ∷ ts) = cellsize t + cells ts

-- struct resulttype, less its cell index.
abbrev pub Resulttype : Type 0
Resulttype = List Valtype

pub record Functype : Type 0 where
  pub parameter : Resulttype
  pub result : Resulttype

-- struct limits; a `max` of 2^32 - 1 stands for none.
pub record Limits : Type 0 where
  pub min_size : ℕ
  pub max_size : ℕ

pub record Tabletype : Type 0 where
  pub et : Valtype
  pub lim : Limits

pub record Memtype : Type 0 where
  pub lim : Limits
  pub flags : ℕ

pub record Globaltype : Type 0 where
  pub t : Valtype
  pub is_var : Bool

-- struct importdesc, its union by the kind.
pub data Importdesc : Type 0 where
  func_import : ℕ → Importdesc
  table_import : Tabletype → Importdesc
  memory_import : Memtype → Importdesc
  global_import : Globaltype → Importdesc

-- The part of struct module that the validation of code uses; each number of imports is that of the
-- imports of the kind. Of `elems` there are the types.
pub record Module : Type 0 where
  pub types : List Functype
  pub imports : List Importdesc
  pub functypeidxes : List ℕ
  pub tables : List Tabletype
  pub mems : List Memtype
  pub globals : List Globaltype
  pub elem_types : List Valtype
