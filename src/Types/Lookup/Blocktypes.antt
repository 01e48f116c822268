-- ===== src/Types/Lookup/Blocktypes.antt =====
-- What a block type stands for.
use wasm_doctor.Prelude.{
  ℕ, ◌+◌, ◌-◌, ◌<◌, ◌≡◌, ◌≢◌, true, false, Option, none, some, List, [], ◌∷◌, get_elem?, Result, ok,
  err, fault, ◌⊎◌,
}
use wasm_doctor.Prelude.Int.{ℤ, pos, negsuc}
use wasm_doctor.Types.{
  Valtype, i32, i64, f32, f64, v128, exnref, funcref, externref, tag, is_valtype, Functype, Module,
  Resulttype,
}
use wasm_doctor.Memory.{Realloc}

abbrev value_types : List Valtype
value_types = i32 ∷ i64 ∷ f32 ∷ f64 ∷ v128 ∷ exnref ∷ funcref ∷ externref ∷ []

-- No type of the list has the byte.
abbrev NoTag : ℕ → List Valtype → Type 0
NoTag u8 [] = Unit
NoTag u8 (t ∷ ts) = (u8 ≢ tag t) × NoTag u8 ts

abbrev Tagged : ℕ → Option Valtype → Type 0
Tagged u8 none = NoTag u8 value_types
Tagged u8 (some t) = (is_valtype t ≡ true) × (tag t ≡ u8)

-- The results of the block type `-1 - n`: none for -64, and a value type for its byte.
abbrev pub Results : ℕ → Resulttype → Type 0
Results n result =
    ((n ≡ 63) × (result ≡ []))
    ⊎ ((t : Valtype) × (is_valtype t ≡ true) × (tag t + n ≡ 127) × (result ≡ t ∷ []))

-- What a block type stands for, or why it is refused.
abbrev pub Denotes : Realloc → Module → ℤ → Result (Resulttype × Resulttype) → Type 0
Denotes realloc m (pos n) (ok (parameter, result)) =
    (ft : Functype) × (get_elem? m.types n ≡ some ft)
    × (parameter ≡ ft.parameter)
    × (result ≡ ft.result)
Denotes realloc m (pos n) (err e) = get_elem? m.types n ≡ none
Denotes realloc m (negsuc n) (ok (parameter, result)) = (parameter ≡ []) × Results n result
Denotes realloc m (negsuc n) (err e) =
    (n ≢ 63) × ((realloc 4 ≡ false) ⊎ ((127 < n) ⊎ NoTag (127 - n) value_types))
Denotes realloc m _ fault = ⊥

abbrev Found : Module → ℕ → Result Functype → Type 0
Found m n (ok ft) = get_elem? m.types n ≡ some ft
Found m n (err e) = get_elem? m.types n ≡ none
Found m n fault = ⊥
