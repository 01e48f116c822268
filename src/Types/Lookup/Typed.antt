-- ===== src/Types/Lookup/Typed.antt =====
-- In a module that the loader has checked, the types that an instruction names are there, and are
-- made of value types.
use wasm_doctor.Prelude.{
  ℕ, zero, suc, ◌+◌, ◌-◌, ◌%◌, ◌<◌, ◌≡◌, refl, Bool, true, false, Option, none, some, List, [], ◌∷◌,
  length, get_elem?, ltb, ◌==◌, Result, ok, err, fault, einval, enomem, ◌>>=◌, ◌>>◌, assert, arith,
  Bool-cases, inl, inr, lt→ltb, le→leb, le→ltb, dec_lt, if◌then◌else◌,
}
use wasm_doctor.Prelude.Int.{ℤ, pos, negsuc}
use wasm_doctor.Types.{
  Valtype, Functype, Tabletype, Globaltype, Importdesc, func_import, table_import, memory_import,
  global_import, Module, Resulttype, is_valtype,
}
use wasm_doctor.Memory.{Realloc}
use wasm_doctor.Leb128.Forward.{IsBlocktype}
use wasm_doctor.Validation.Invariant.{Operands}
use wasm_doctor.Types.Lookup.{
  valtype_of, get_functype, single_result, get_functype_for_blocktype, find_func_import,
  find_table_import, find_global_import, nimportedfuncs, nimportedtables, nimportedglobals, elem_of,
  module_functype, module_tabletype, module_globaltype,
}

-- Value types only.
abbrev pub IsValued : Functype → Type 0
IsValued ft = Operands false ft.parameter × Operands false ft.result

abbrev pub AllValued : List Functype → Type 0
AllValued [] = Unit
AllValued (ft ∷ fts) = IsValued ft × AllValued fts

abbrev pub AllBelow : ℕ → List ℕ → Type 0
AllBelow n [] = Unit
AllBelow n (x ∷ xs) = (x < n) × AllBelow n xs

abbrev pub ImportsBelow : ℕ → List Importdesc → Type 0
ImportsBelow n [] = Unit
ImportsBelow n (func_import t ∷ ims) = (t < n) × ImportsBelow n ims
ImportsBelow n (table_import t ∷ ims) = (is_valtype t.et ≡ true) × ImportsBelow n ims
ImportsBelow n (memory_import t ∷ ims) = ImportsBelow n ims
ImportsBelow n (global_import t ∷ ims) = (is_valtype t.t ≡ true) × ImportsBelow n ims

-- Tables and globals of value types.
abbrev pub AllTables : List Tabletype → Type 0
AllTables [] = Unit
AllTables (t ∷ ts) = (is_valtype t.et ≡ true) × AllTables ts

abbrev pub AllGlobals : List Globaltype → Type 0
AllGlobals [] = Unit
AllGlobals (t ∷ ts) = (is_valtype t.t ≡ true) × AllGlobals ts

-- What the loader has checked.
pub record IsLoaded (m : Module) : Type 0 where
  pub valued : AllValued m.types
  pub indexed : AllBelow (length m.types) m.functypeidxes
  pub imported : ImportsBelow (length m.types) m.imports
  pub tabled : AllTables m.tables
  pub globed : AllGlobals m.globals

-- An error is allowed; a fault is not.
abbrev pub Yields : {A : Type 0} → (A → Type 0) → Result A → Type 0
Yields P (ok a) = P a
Yields P (err e) = Unit
Yields P fault = ⊥

Yields->>= :
    {A B : Type 0} (P : A → Type 0) (Q : B → Type 0) (r : Result A) (k : A → Result B)
    → Yields P r
    → ((a : A) → P a → Yields Q (k a))
    → Yields Q (r >>= k)
Yields->>= P Q (ok a) k h f = f a h
Yields->>= P Q (err e) k h f = tt
Yields->>= P Q fault k h f = h

pub elem_of-Valued :
    (fts : List Functype) (i : ℕ) → AllValued fts → i < length fts → Yields IsValued (elem_of fts i)
elem_of-Valued [] i v h = absurd (omega arith)
elem_of-Valued (ft ∷ fts) zero (v, vs) h = v
elem_of-Valued (ft ∷ fts) (suc i) (v, vs) h = elem_of-Valued fts i vs (omega arith)

elem_of-Below :
    (n : ℕ) (xs : List ℕ) (i : ℕ)
    → AllBelow n xs
    → i < length xs
    → Yields (λ x. x < n) (elem_of xs i)
elem_of-Below n [] i v h = absurd (omega arith)
elem_of-Below n (x ∷ xs) zero (v, vs) h = v
elem_of-Below n (x ∷ xs) (suc i) (v, vs) h = elem_of-Below n xs i vs (omega arith)

find_func_import-Below :
    (n : ℕ) (ims : List Importdesc) (i : ℕ)
    → ImportsBelow n ims
    → i < nimportedfuncs ims
    → Yields (λ x. x < n) (find_func_import ims i)
unfolding find_func_import nimportedfuncs
find_func_import-Below n [] i v h = absurd (omega arith)
find_func_import-Below n (func_import t ∷ ims) zero (v, vs) h = v
find_func_import-Below n (func_import t ∷ ims) (suc i) (v, vs) h =
    find_func_import-Below n ims i vs (omega arith)
find_func_import-Below n (table_import t ∷ ims) i (v, vs) h = find_func_import-Below n ims i vs h
find_func_import-Below n (memory_import t ∷ ims) i vs h = find_func_import-Below n ims i vs h
find_func_import-Below n (global_import t ∷ ims) i (v, vs) h = find_func_import-Below n ims i vs h

find_table_import-Valued :
    (n : ℕ) (ims : List Importdesc) (i : ℕ)
    → ImportsBelow n ims
    → i < nimportedtables ims
    → Yields (λ t. is_valtype t.et ≡ true) (find_table_import ims i)
unfolding find_table_import nimportedtables
find_table_import-Valued n [] i v h = absurd (omega arith)
find_table_import-Valued n (table_import t ∷ ims) zero (v, vs) h = v
find_table_import-Valued n (table_import t ∷ ims) (suc i) (v, vs) h =
    find_table_import-Valued n ims i vs (omega arith)
find_table_import-Valued n (func_import t ∷ ims) i (v, vs) h = find_table_import-Valued n ims i vs h
find_table_import-Valued n (memory_import t ∷ ims) i vs h = find_table_import-Valued n ims i vs h
find_table_import-Valued n (global_import t ∷ ims) i (v, vs) h =
    find_table_import-Valued n ims i vs h

elem_of_tables-Valued :
    (ts : List Tabletype) (i : ℕ)
    → AllTables ts
    → i < length ts
    → Yields (λ t. is_valtype t.et ≡ true) (elem_of ts i)
elem_of_tables-Valued [] i v h = absurd (omega arith)
elem_of_tables-Valued (t ∷ ts) zero (v, vs) h = v
elem_of_tables-Valued (t ∷ ts) (suc i) (v, vs) h = elem_of_tables-Valued ts i vs (omega arith)

find_global_import-Valued :
    (n : ℕ) (ims : List Importdesc) (i : ℕ)
    → ImportsBelow n ims
    → i < nimportedglobals ims
    → Yields (λ t. is_valtype t.t ≡ true) (find_global_import ims i)
unfolding find_global_import nimportedglobals
find_global_import-Valued n [] i v h = absurd (omega arith)
find_global_import-Valued n (global_import t ∷ ims) zero (v, vs) h = v
find_global_import-Valued n (global_import t ∷ ims) (suc i) (v, vs) h =
    find_global_import-Valued n ims i vs (omega arith)
find_global_import-Valued n (func_import t ∷ ims) i (v, vs) h =
    find_global_import-Valued n ims i vs h
find_global_import-Valued n (memory_import t ∷ ims) i vs h = find_global_import-Valued n ims i vs h
find_global_import-Valued n (table_import t ∷ ims) i (v, vs) h =
    find_global_import-Valued n ims i vs h

elem_of_globals-Valued :
    (ts : List Globaltype) (i : ℕ)
    → AllGlobals ts
    → i < length ts
    → Yields (λ t. is_valtype t.t ≡ true) (elem_of ts i)
elem_of_globals-Valued [] i v h = absurd (omega arith)
elem_of_globals-Valued (t ∷ ts) zero (v, vs) h = v
elem_of_globals-Valued (t ∷ ts) (suc i) (v, vs) h = elem_of_globals-Valued ts i vs (omega arith)

functypeidx-Below :
    (m : Module) (i : ℕ)
    → IsLoaded m
    → i < nimportedfuncs m.imports + length m.functypeidxes
    → Yields
        (λ x. x < length m.types)
        (if ltb i (nimportedfuncs m.imports)
          then find_func_import m.imports i
          else elem_of m.functypeidxes (i - nimportedfuncs m.imports))
functypeidx-Below m i l h = elim (dec_lt i (nimportedfuncs m.imports)) [
  | yes lt ↦
      rw (lt→ltb i (nimportedfuncs m.imports) lt)
        (find_func_import-Below (length m.types) m.imports i l.imported lt)
  | no ge ↦ rw (le→ltb i (nimportedfuncs m.imports) (omega arith)) (
      elem_of-Below (length m.types) m.functypeidxes (i - nimportedfuncs m.imports) l.indexed
        (omega arith))
]

-- In a loaded module, `module_functype` of a function index gives a type made of value types. No
-- assertion fails.
pub module_functype-Valued :
    (m : Module) (i : ℕ)
    → IsLoaded m
    → i < nimportedfuncs m.imports + length m.functypeidxes
    → Yields IsValued (module_functype m i)
unfolding module_functype
module_functype-Valued m i l h =
    Yields->>= (λ x. x < length m.types) IsValued
      (if ltb i (nimportedfuncs m.imports)
        then find_func_import m.imports i
        else elem_of m.functypeidxes (i - nimportedfuncs m.imports))
      (λ x. assert (ltb x (length m.types)) >> elem_of m.types x) (functypeidx-Below m i l h)
      λ x lt. rw (lt→ltb x (length m.types) lt) (elem_of-Valued m.types x l.valued lt)

-- In a loaded module, `module_tabletype` of an index in bounds finds one of a value type.
pub module_tabletype-Valued :
    (m : Module) (i : ℕ)
    → IsLoaded m
    → i < nimportedtables m.imports + length m.tables
    → Yields (λ t. is_valtype t.et ≡ true) (module_tabletype m i)
unfolding module_tabletype
module_tabletype-Valued m i l h = elim (dec_lt i (nimportedtables m.imports)) [
  | yes lt ↦
      rw (lt→ltb i (nimportedtables m.imports) lt)
        (find_table_import-Valued (length m.types) m.imports i l.imported lt)
  | no ge ↦
      rw (le→ltb i (nimportedtables m.imports) (omega arith))
        (elem_of_tables-Valued m.tables (i - nimportedtables m.imports) l.tabled (omega arith))
]

-- In a loaded module, `module_globaltype` of an index in bounds finds one of a value type.
pub module_globaltype-Valued :
    (m : Module) (i : ℕ)
    → IsLoaded m
    → i < nimportedglobals m.imports + length m.globals
    → Yields (λ t. is_valtype t.t ≡ true) (module_globaltype m i)
unfolding module_globaltype
module_globaltype-Valued m i l h = elim (dec_lt i (nimportedglobals m.imports)) [
  | yes lt ↦
      rw (lt→ltb i (nimportedglobals m.imports) lt)
        (find_global_import-Valued (length m.types) m.imports i l.imported lt)
  | no ge ↦
      rw (le→ltb i (nimportedglobals m.imports) (omega arith))
        (elem_of_globals-Valued m.globals (i - nimportedglobals m.imports) l.globed (omega arith))
]

-- The types of a block.
abbrev pub IsValuedPair : Resulttype × Resulttype → Type 0
IsValuedPair p = Operands false p.0 × Operands false p.1

abbrev pub AllValtype : Option Valtype → Type 0
AllValtype none = Unit
AllValtype (some t) = is_valtype t ≡ true

choose :
    (c : Bool) (a b : Option Valtype)
    → AllValtype a
    → AllValtype b
    → AllValtype (if c then a else b)
choose true a b h k = h
choose false a b h k = k

pub valtype_of-AllValtype : (u8 : ℕ) → AllValtype (valtype_of u8)
unfolding valtype_of
valtype_of-AllValtype u8 = choose (u8 == 0x7f) _ _ refl (
    choose (u8 == 0x7e) _ _ refl (
      choose (u8 == 0x7d) _ _ refl (
        choose (u8 == 0x7c) _ _ refl (
          choose (u8 == 0x7b) _ _ refl (
            choose (u8 == 0x69) _ _ refl
              (choose (u8 == 0x70) _ _ refl (choose (u8 == 0x6f) _ _ refl tt)))))))

single_result-Valued : (realloc : Realloc) (u8 : ℕ) → Yields IsValuedPair (single_result realloc u8)
unfolding single_result
single_result-Valued realloc u8 = elim (Bool-cases (u8 == 0x40)) [
  | inl e ↦ rw e (tt, tt)
  | inr e ↦ rw e (of_valtype (valtype_of u8) (realloc 4) (valtype_of-AllValtype u8))
]
  where
    of_valtype :
        (o : Option Valtype) (b : Bool)
        → AllValtype o
        → Yields IsValuedPair
            (elim o [ none ↦ err einval | some t ↦ if b then ok ([], t ∷ []) else err enomem ])
    of_valtype none b h = tt
    of_valtype (some t) true h = (tt, (rw h refl, tt))
    of_valtype (some t) false h = tt

get_functype-Valued : (m : Module) (i : ℕ) → IsLoaded m → Yields IsValued (get_functype m i)
unfolding get_functype
get_functype-Valued m i l = of_types m.types i l.valued
  where
    of_types :
        (fts : List Functype) (i : ℕ)
        → AllValued fts
        → Yields IsValued (elim (get_elem? fts i) [ none ↦ err einval | some ft ↦ ok ft ])
    of_types [] i v = tt
    of_types (ft ∷ fts) zero v = v.0
    of_types (ft ∷ fts) (suc i) v = of_types fts i v.1

-- In a loaded module, a block type that was read is refused or gives value types. No assertion fails.
pub get_functype_for_blocktype-Valued :
    (realloc : Realloc) (m : Module) (blocktype : ℤ)
    → IsLoaded m
    → IsBlocktype blocktype
    → Yields IsValuedPair (get_functype_for_blocktype realloc m blocktype)
unfolding get_functype_for_blocktype
get_functype_for_blocktype-Valued realloc m (negsuc n) l b =
    elim (Bool-cases (127 - (127 - n % 128) == n)) [
      | inl e ↦ rw e (single_result-Valued realloc (127 - n % 128))
      | inr e ↦ rw e tt
    ]
get_functype_for_blocktype-Valued realloc m (pos n) l b =
    rw (le→leb n 0xffff_ffff (omega arith))
      (of_functype (get_functype m n) (get_functype-Valued m n l))
  where
    of_functype :
        (r : Result Functype)
        → Yields IsValued r
        → Yields IsValuedPair
            (elim r [ ok ft ↦ ok (ft.parameter, ft.result) | err e ↦ err e | fault ↦ fault ])
    of_functype (ok ft) v = v
    of_functype (err e) v = tt
    of_functype fault v = v
