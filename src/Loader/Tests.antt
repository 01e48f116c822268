-- ===== src/Loader/Tests.antt =====
-- Runs of the section readers.
use wasm_doctor.Prelude.{◌↔◌, err, einval, ℕ, ◌≡◌, refl, true, List, [], ◌∷◌, arith, ok}
use wasm_doctor.Types.{i32, Module}
use wasm_doctor.Types.Lookup.Typed.{IsLoaded}
use wasm_doctor.Leb128.Forward.{Gives}
use wasm_doctor.Decode.Progress.{Reads}
use wasm_doctor.Loader.{read_limits}
use wasm_doctor.Loader.Forward.{IsLimits, read_limits-IsLimits}
use wasm_doctor.Loader.Names.{lead, read_more, check_char, check_chars, check_utf8}
use wasm_doctor.Loader.Names.Encoded.Inverse.{IsUtf8, check_utf8-IsUtf8}
use wasm_doctor.Loader.Sections.{Layout, read_type_section, read_import_section}
use wasm_doctor.Loader.Sections.Checked.{read_type_section-IsLoaded, read_import_section-IsLoaded}

abbrev layout : Layout
layout = record { functype_size = 64; import_size = 48; tabletype_size = 12; memtype_size = 12 }

abbrev empty_module : Module
empty_module = record {
  types = [];
  imports = [];
  functypeidxes = [];
  tables = [];
  mems = [];
  globals = [];
  elem_types = [];
}

abbrev one_type : Module
one_type = record empty_module { types = record { parameter = []; result = i32 ∷ [] } ∷ [] }

one_type-IsLoaded : IsLoaded one_type
one_type-IsLoaded = record {
  valued = ((tt, (refl, tt)), tt);
  indexed = tt;
  imported = tt;
  tabled = tt;
  globed = tt;
}

abbrev type_bytes : List ℕ
type_bytes = 1 ∷ 0x60 ∷ 0 ∷ 1 ∷ 0x7f ∷ []

read_type_section-IsLoaded_example :
    Gives (Reads IsLoaded type_bytes) (read_type_section (λ _. true) layout empty_module type_bytes)
read_type_section-IsLoaded_example =
    read_type_section-IsLoaded (λ _. true) layout empty_module type_bytes (omega arith) refl refl
      refl refl (omega arith, (omega arith, (omega arith, (omega arith, (omega arith, tt)))))

-- A function f of the module m.
abbrev import_bytes : List ℕ
import_bytes = 1 ∷ 1 ∷ 0x6d ∷ 1 ∷ 0x66 ∷ 0 ∷ 0 ∷ []

read_import_section-IsLoaded_example :
    Gives
      (Reads IsLoaded import_bytes)
      (read_import_section (λ _. true) layout one_type import_bytes)
read_import_section-IsLoaded_example =
    read_import_section-IsLoaded (λ _. true) layout one_type import_bytes (omega arith)
      one_type-IsLoaded
      (
        omega arith,
        (
          omega arith,
          (omega arith, (omega arith, (omega arith, (omega arith, (omega arith, tt))))),
        ),
      )

abbrev function_bytes : List ℕ
function_bytes = 1 ∷ 0 ∷ []

abbrev limit_bytes : List ℕ
limit_bytes = 1 ∷ 2 ∷ 5 ∷ []

read_limits-IsLimits_example :
    Gives (Reads (IsLimits 65536) limit_bytes) (read_limits 65536 limit_bytes)
read_limits-IsLimits_example =
    read_limits-IsLimits 65536 limit_bytes (omega arith, (omega arith, (omega arith, tt)))

-- The euro sign.
euro_checks : check_utf8 (0xe2 ∷ 0x82 ∷ 0xac ∷ []) ≡ ok tt
unfolding check_utf8 check_chars check_char read_more lead
euro_checks = refl

-- A letter, the euro sign and a clef.
check_utf8-IsUtf8_example :
    (check_utf8 (0x61 ∷ 0xe2 ∷ 0x82 ∷ 0xac ∷ 0xf0 ∷ 0x9d ∷ 0x84 ∷ 0x9e ∷ []) ≡ ok tt)
    ↔ IsUtf8 (0x61 ∷ 0xe2 ∷ 0x82 ∷ 0xac ∷ 0xf0 ∷ 0x9d ∷ 0x84 ∷ 0x9e ∷ [])
check_utf8-IsUtf8_example =
    check_utf8-IsUtf8 (0x61 ∷ 0xe2 ∷ 0x82 ∷ 0xac ∷ 0xf0 ∷ 0x9d ∷ 0x84 ∷ 0x9e ∷ [])

-- A surrogate, and a byte too many for a letter.
surrogate_refused : check_utf8 (0xed ∷ 0xa0 ∷ 0x80 ∷ []) ≡ err einval
unfolding check_utf8 check_chars check_char read_more lead
surrogate_refused = refl

overlong_refused : check_utf8 (0xc1 ∷ 0xa1 ∷ []) ≡ err einval
unfolding check_utf8 check_chars check_char read_more lead
overlong_refused = refl
