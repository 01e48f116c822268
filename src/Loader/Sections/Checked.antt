-- ===== src/Loader/Sections/Checked.antt =====
-- The sections leave a module in which every type index is below the number of types, and every type
-- is made of value types: what the validation of code relies on.
use wasm_doctor.Prelude.{
  ℕ, ◌+◌, ◌*◌, ◌/◌, ◌^◌, ◌<◌, ◌≡◌, ◌≢◌, Bool, true, false, ◌||◌, List, [], ◌∷◌, length, ltb, ◌==◌,
  if◌then◌else◌, Result, ok, err, fault, einval, enomem, guard, ◌>>=◌, ◌>>◌, arith, Bool-cases, inl,
  inr, ltb→lt,
}
use wasm_doctor.Types.{
  Functype, Importdesc, func_import, table_import, memory_import, global_import, Module, is_valtype,
}
use wasm_doctor.Types.Lookup.{nimportedfuncs}
use wasm_doctor.Types.Lookup.Typed.{IsValued, AllValued, AllBelow, ImportsBelow, IsLoaded, Yields}
use wasm_doctor.Memory.{Realloc}
use wasm_doctor.Leb128.{IsBytes, read_leb_u32}
use wasm_doctor.Leb128.Forward.{Behind, Gives, Gives->>=, Gives-mono, read_leb_u32-Gives}
use wasm_doctor.Decode.{Reader, read_u8, read_vec_with_ctx, read_vec_u32}
use wasm_doctor.Decode.Progress.{
  Reads, All, Yielding, Vector, IsWord, Gives->>, read_u8-Forward, read_vec_with_ctx-Vector,
  read_vec_u32-Vector,
}
use wasm_doctor.Loader.{read_functype, read_memtype, read_globaltype, read_tabletype}
use wasm_doctor.Loader.Forward.{
  Gives-guard, read_functype-IsValued, read_memtype-Reads, read_globaltype-Reads,
  read_tabletype-Reads,
}
use wasm_doctor.Loader.Names.{read_name}
use wasm_doctor.Loader.Names.Utf8.{read_name-Forward}
use wasm_doctor.Loader.Sections.{
  Layout, bitmap_alloc, read_importdesc, read_import, read_type_section, read_import_section,
  check_indexes, read_function_section,
}

-- The type index of an import of a function is below the number of types.
abbrev pub IsImport : ℕ → Importdesc → Type 0
IsImport n (func_import t) = t < n
IsImport n (table_import t) = is_valtype t.et ≡ true
IsImport n (memory_import t) = Unit
IsImport n (global_import t) = is_valtype t.t ≡ true

-- The kinds of an import, one after the other.
declared :
    {A : Type 0} (P : A → Type 0) (n : ℕ) (src p : List ℕ) (reader : Reader A)
    (desc : A → Importdesc)
    → Yielding P reader
    → ((a : A) → P a → IsImport n (desc a))
    → Behind src p
    → Gives (Reads (IsImport n) src) (reader p >>= λ x. ok (desc x.0, x.1))
declared P n src p reader desc fw i (b, l) =
    Gives->>= (Reads P p) (Reads (IsImport n) src) (reader p) (λ a q. ok (desc a, q)) (fw p b)
      λ a q (h, (b', l')). (i a h, (b', omega arith))

imported :
    (n : ℕ) (src p : List ℕ)
    → Behind src p
    → Gives
        (Reads (IsImport n) src)
        (read_leb_u32 p >>= λ x. guard (ltb x.0 n) einval >> ok (func_import x.0, x.1))
imported n src p (b, l) =
    Gives->>= (λ v q. (v < 2 ^ 32) × Behind p q) (Reads (IsImport n) src) (read_leb_u32 p)
      (λ v q. guard (ltb v n) einval >> ok (func_import v, q)) (read_leb_u32-Gives p b)
      λ v q (_, (b', l')).
        Gives-guard (Reads (IsImport n) src) (ltb v n) einval (ok (func_import v, q))
          λ h. (ltb→lt v n h, (b', omega arith))

Gives-if :
    {A : Type 0} (P : A → List ℕ → Type 0) (c : Bool) (x y : Result (A × List ℕ))
    → Gives P x
    → Gives P y
    → Gives P (if c then x else y)
Gives-if P true x y h k = h
Gives-if P false x y h k = k

pub read_importdesc-IsImport : (n : ℕ) → Yielding (IsImport n) (read_importdesc n)
unfolding read_importdesc
read_importdesc-IsImport n src b =
    Gives->>= (λ _ p. Behind src p) (Reads (IsImport n) src) (read_u8 src) _ (read_u8-Forward src b)
      λ u8 p l. Gives-if (Reads (IsImport n) src) (u8 == 0x00) _ _ (imported n src p l) (
        Gives-if (Reads (IsImport n) src) (u8 == 0x01) _ _
          (declared (λ t. is_valtype t.et ≡ true) n src p read_tabletype table_import
            read_tabletype-Reads (λ _ h. h) l)
          (Gives-if (Reads (IsImport n) src) (u8 == 0x02) _ _
            (declared (λ _. Unit {0}) n src p read_memtype memory_import read_memtype-Reads
              (λ _ _. tt) l)
            (Gives-if (Reads (IsImport n) src) (u8 == 0x03) _ _
              (declared (λ t. is_valtype t.t ≡ true) n src p read_globaltype global_import
                read_globaltype-Reads (λ _ h. h) l)
              tt)))

read_import-IsImport : (n : ℕ) → Yielding (IsImport n) (read_import n)
unfolding read_import
read_import-IsImport n src b =
    Gives->>= (λ _ p. Behind src p) (Reads (IsImport n) src) (read_name src)
      (λ _ p. read_name p >>= λ x. read_importdesc n x.1) (read_name-Forward src b)
      λ _ p (b1, l1).
        Gives->>= (λ _ q. Behind p q) (Reads (IsImport n) src) (read_name p)
          (λ _ q. read_importdesc n q) (read_name-Forward p b1)
          λ _ q (b2, l2).
            Gives-mono (Reads (IsImport n) q) (Reads (IsImport n) src) (read_importdesc n q)
              (read_importdesc-IsImport n q b2) λ d r (i, (b3, l3)). (i, (b3, omega arith))

All-AllValued : (fts : List Functype) → All IsValued fts → AllValued fts
All-AllValued [] h = tt
All-AllValued (ft ∷ fts) (h, hs) = (h, All-AllValued fts hs)

All-ImportsBelow : (n : ℕ) (ims : List Importdesc) → All (IsImport n) ims → ImportsBelow n ims
All-ImportsBelow n [] h = tt
All-ImportsBelow n (func_import t ∷ ims) (h, hs) = (h, All-ImportsBelow n ims hs)
All-ImportsBelow n (table_import t ∷ ims) (h, hs) = (h, All-ImportsBelow n ims hs)
All-ImportsBelow n (memory_import t ∷ ims) (h, hs) = All-ImportsBelow n ims hs
All-ImportsBelow n (global_import t ∷ ims) (h, hs) = (h, All-ImportsBelow n ims hs)

check_indexes-AllBelow :
    (n : ℕ) (idxes : List ℕ) → Yields (λ _. AllBelow n idxes) (check_indexes n idxes)
unfolding check_indexes
check_indexes-AllBelow n [] = tt
check_indexes-AllBelow n (i ∷ idxes) = elim (Bool-cases (ltb i n)) [
  | inr e ↦ rw e tt
  | inl e ↦ rw e (also (check_indexes n idxes) (check_indexes-AllBelow n idxes) (ltb→lt i n e))
]
  where
    also :
        (r : Result (Unit {0}))
        → Yields (λ _. AllBelow n idxes) r
        → i < n
        → Yields (λ _. (i < n) × AllBelow n idxes) r
    also (ok a) h lt = (lt, h)
    also (err e) h lt = tt
    also fault h lt = h

checked-then :
    {A : Type 0} (B : Type 0) (Q : A → List ℕ → Type 0) (r : Result (Unit {0}))
    (next : Result (A × List ℕ))
    → Yields (λ _. B) r
    → (B → Gives Q next)
    → Gives Q (r >> next)
checked-then B Q (ok a) next h f = f h
checked-then B Q (err e) next h f = tt
checked-then B Q fault next h f = h

module _ (realloc : Realloc) (layout : Layout) where
  -- For a module without imports, functions, tables and globals, with a size of types that is not
  -- 0, `read_type_section` of a list of bytes is an error, or goes forward and leaves a loaded
  -- module, whose types are made of value types. No assertion fails but that of `valtype_cellsize`
  -- on `exnref`, when the cells of the parameters are counted.
  pub read_type_section-IsLoaded :
      (m : Module) (src : List ℕ)
      → 0 < layout.functype_size
      → m.imports ≡ []
      → m.functypeidxes ≡ []
      → m.tables ≡ []
      → m.globals ≡ []
      → IsBytes src
      → Gives (Reads IsLoaded src) (read_type_section realloc layout m src)
  unfolding read_type_section
  read_type_section-IsLoaded m src h ei ef et eg b =
      Gives->>= (Vector IsValued src) (Reads IsLoaded src)
        (read_vec_with_ctx realloc layout.functype_size (λ _. read_functype realloc) 0 src)
        (λ types p. ok (record m { types = types }, p))
        (read_vec_with_ctx-Vector IsValued realloc layout.functype_size (λ _. read_functype realloc)
          src h (λ _. read_functype-IsValued realloc) b)
        λ types p (v, l, _). (
          record {
            valued = All-AllValued types v;
            indexed = rw ef tt;
            imported = rw ei tt;
            tabled = rw et tt;
            globed = rw eg tt;
          },
          l,
        )

  bitmap_alloc-ne-fault : (n : ℕ) → bitmap_alloc realloc n ≢ fault
  unfolding bitmap_alloc
  bitmap_alloc-ne-fault n =
      elim (n == 0 || realloc ((n + 31) / 32 * 4)) as (λ b. guard b enomem ≢ fault) [
        | true ↦ λ h. cc
        | false ↦ λ h. cc
      ]

  -- For a loaded module, with a size of imports that is not 0, `read_import_section` of a list of
  -- bytes is an error, or goes forward and leaves a loaded module, in which every imported
  -- function has a type. No assertion fails.
  pub read_import_section-IsLoaded :
      (m : Module) (src : List ℕ)
      → 0 < layout.import_size
      → IsLoaded m
      → IsBytes src
      → Gives (Reads IsLoaded src) (read_import_section realloc layout m src)
  unfolding read_import_section
  read_import_section-IsLoaded m src h k b =
      let n = length m.types in
      Gives->>= (Vector (IsImport n) src) (Reads IsLoaded src)
        (read_vec_with_ctx realloc layout.import_size (λ _. read_import n) 0 src)
        (λ ims p. bitmap_alloc realloc (nimportedfuncs ims) >> ok (record m { imports = ims }, p))
        (read_vec_with_ctx-Vector (IsImport n) realloc layout.import_size (λ _. read_import n) src h
          (λ _. read_import-IsImport n) b)
        λ ims p (v, l, _).
          Gives->> (Reads IsLoaded src) (bitmap_alloc realloc (nimportedfuncs ims)) _
            (bitmap_alloc-ne-fault (nimportedfuncs ims))
            (
              record {
                valued = k.valued;
                indexed = k.indexed;
                imported = All-ImportsBelow n ims v;
                tabled = k.tabled;
                globed = k.globed;
              },
              l,
            )

  -- The same for `read_function_section`.
  pub read_function_section-IsLoaded :
      (m : Module) (src : List ℕ)
      → IsLoaded m
      → IsBytes src
      → Gives (Reads IsLoaded src) (read_function_section realloc layout m src)
  unfolding read_function_section
  read_function_section-IsLoaded m src k b =
      let n = length m.types in
      Gives->>= (Vector IsWord src) (Reads IsLoaded src) (read_vec_u32 realloc src)
        (λ idxes p.
          check_indexes n idxes
          >> ((if length idxes == 0
                then ok tt
                else bitmap_alloc realloc (nimportedfuncs m.imports + length idxes))
              >> ok (record m { functypeidxes = idxes }, p)))
        (read_vec_u32-Vector realloc src b)
        λ idxes p (_, l, _).
          checked-then (AllBelow n idxes) (Reads IsLoaded src) (check_indexes n idxes) _
            (check_indexes-AllBelow n idxes)
            λ below.
              Gives->> (Reads IsLoaded src)
                (if length idxes == 0
                  then ok tt
                  else bitmap_alloc realloc (nimportedfuncs m.imports + length idxes))
                (ok (record m { functypeidxes = idxes }, p))
                (either (length idxes == 0) (nimportedfuncs m.imports + length idxes))
                (
                  record {
                    valued = k.valued;
                    indexed = below;
                    imported = k.imported;
                    tabled = k.tabled;
                    globed = k.globed;
                  },
                  l,
                )
    where
      either : (b : Bool) (n : ℕ) → (if b then ok tt else bitmap_alloc realloc n) ≢ fault
      either true n h = cc
      either false n h = bitmap_alloc-ne-fault n h
