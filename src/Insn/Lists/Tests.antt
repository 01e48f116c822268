-- ===== src/Insn/Lists/Tests.antt =====
-- A function that makes and drops a number, and calls itself.
use wasm_doctor.Prelude.{ℕ, ◌*◌, ◌≤◌, ◌<◌, ◌≡◌, fault, refl, false, List, [], ◌∷◌, length, arith}
use wasm_doctor.Types.{i32, i64, funcref, table_import}
use wasm_doctor.Types.Lookup.{nimportedtables, nimportedfuncs}
use wasm_doctor.Leb128.Forward.{Behind}
use wasm_doctor.Validation.{Context}
use wasm_doctor.Validation.Safe.{Safe}
use wasm_doctor.Insn.{Code}
use wasm_doctor.Insn.Opcodes.{no_insn}
use wasm_doctor.Insn.Expr.{read_expr_common}
use wasm_doctor.Insn.Expr.Runs.{IsFresh, read_expr_common-IsFresh}
use wasm_doctor.Insn.Operations.{nfuncs, ntables}
use wasm_doctor.Insn.Bulk.{process_table_copy}
use wasm_doctor.Insn.Bulk.Imported.{process_table_copy-faults}
use wasm_doctor.Insn.Annotations.{record_type_annotation}
use wasm_doctor.Insn.Annotations.Recorded.{Finds, record_type_annotation-Finds}
use wasm_doctor.Insn.Tests.{code, code-IsReady, root_frame}
use wasm_doctor.Insn.Lists.{other_instructions}
use wasm_doctor.Insn.Lists.Kept.{all_instructions-IsFresh}

-- i32.const 5; drop; call 0; end
abbrev body : List ℕ
body = 0x41 ∷ 5 ∷ 0x1a ∷ 0x10 ∷ 0 ∷ 0x0b ∷ []

abbrev fresh : Context
fresh = record {
  cframes = [];
  valtypes = [];
  ncells = 0;
  maxcells = 7;
  maxlabels = 3;
  jumps = [];
  annotations = record { default_size = 0; types = [] };
  refs = 0 ∷ [];
}

own_tables : nimportedtables code.m.imports ≡ 0
unfolding nimportedtables
own_tables = refl

all_listed : nfuncs code ≤ 32 * length fresh.refs
unfolding nimportedfuncs
all_listed = omega arith

all_instructions-IsFresh_example :
    Safe
      (λ p c. IsFresh c × Behind body p)
      (read_expr_common code (other_instructions code false λ _. no_insn) (i32 ∷ []) body fresh)
all_instructions-IsFresh_example =
    all_instructions-IsFresh code false (λ _. no_insn) (i32 ∷ []) body fresh code-IsReady own_tables
      (λ _. tt) (refl, tt)
      (omega arith, (omega arith, (omega arith, (omega arith, (omega arith, (omega arith, tt))))))
      (omega arith) (refl, refl, refl) all_listed

-- call 0; end
abbrev call_body : List ℕ
call_body = 0x10 ∷ 0 ∷ 0x0b ∷ []

read_expr_common-IsFresh_example :
    Safe
      (λ p c. IsFresh c × Behind call_body p)
      (read_expr_common code (λ _. no_insn) (i32 ∷ []) call_body fresh)
read_expr_common-IsFresh_example =
    read_expr_common-IsFresh code (λ _. no_insn) (i32 ∷ []) call_body fresh code-IsReady (λ _. tt)
      (refl, tt) (omega arith, (omega arith, (omega arith, tt))) (omega arith) (refl, refl, refl)
      all_listed

-- Behind a first `drop` of one cell, at 61.
abbrev noted : Context
noted = record fresh {
  cframes = root_frame ∷ [];
  annotations = record { default_size = 1; types = record { pc = 60; size = 1 } ∷ [] };
}

record_type_annotation-Finds_example :
    Safe
      (λ _ c. Finds 62 2 61 noted.annotations c.annotations)
      (record_type_annotation code (0 ∷ 0x0b ∷ []) i64 noted)
record_type_annotation-Finds_example =
    record_type_annotation-Finds code (0 ∷ 0x0b ∷ []) i64 root_frame [] noted 61 code-IsReady
      (omega arith) refl refl refl (omega arith) (omega arith) (omega arith, omega arith, tt)
      (omega arith)

-- A module with an imported table and none of its own.
abbrev importing : Code
importing = record code {
  m = record code.m {
    imports =
        table_import (record { et = funcref; lim = record { min_size = 1; max_size = 1 } }) ∷ [];
    tables = [];
  };
}

importing-ntables : 0 < ntables importing
unfolding nimportedtables
importing-ntables = omega arith

process_table_copy-faults_example : process_table_copy importing (0 ∷ 0 ∷ 0x0b ∷ []) fresh ≡ fault
process_table_copy-faults_example =
    process_table_copy-faults importing 0 0 (0x0b ∷ []) fresh (omega arith) (omega arith)
      importing-ntables importing-ntables (omega arith)
