-- ===== src/Insn/Tests.antt =====
-- The validation of a function that has an `if` open, with a jump table.
use wasm_doctor.Prelude.{ℕ, ◌^◌, ◌≡◌, refl, true, false, List, [], ◌∷◌, inr, leb, leb→le, arith}
use wasm_doctor.Types.{i32, funcref, Module}
use wasm_doctor.Types.Lookup.{module_functype}
use wasm_doctor.Types.Lookup.Typed.{IsValued, IsLoaded, Yields, module_functype-Valued}
use wasm_doctor.Validation.{
  if_, block, invoke, Ctrlframe, Context, Env, Jump, pop_ctrlframe, push_ctrlframe,
}
use wasm_doctor.Validation.Safe.{Safe}
use wasm_doctor.Validation.Slots.{is_open, JumpTable}
use wasm_doctor.Validation.Sound.{IsSound}
use wasm_doctor.Validation.Sound.Steps.{Sound}
use wasm_doctor.Validation.Sound.Blocks.{Ready, Closed, Opens, pop_ctrlframe-Closed, opened-Opens}
use wasm_doctor.Insn.{Code, process_end}
use wasm_doctor.Insn.Reads.{IsReady, IsCode, Ends}
use wasm_doctor.Insn.Ends.{process_end-Ends}

abbrev env : Env
env = record {
  generate_jump_table = true;
  valtypes_room = λ n. leb n (2 ^ 28);
  cframes_room = λ _. true;
  jumps_room = λ _. true;
}

-- One type, of functions that give an i32; one function of it, and one table.
abbrev sample : Module
sample = record {
  types = record { parameter = []; result = i32 ∷ [] } ∷ [];
  imports = [];
  functypeidxes = 0 ∷ [];
  tables = record { et = funcref; lim = record { min_size = 1; max_size = 1 } } ∷ [];
  mems = record { lim = record { min_size = 1; max_size = 1 }; flags = 0 } ∷ [];
  globals = record { t = i32; is_var = true } ∷ [];
  elem_types = [];
}

abbrev pub code : Code
code = record {
  env = env;
  m = sample;
  realloc = λ _. true;
  end_offset = 64;
  locals = i32 ∷ [];
  const_expr = false;
  has_datacount = false;
  ndatas_in_datacount = 0;
}

sample-IsLoaded : IsLoaded sample
sample-IsLoaded = record {
  valued = ((tt, (refl, tt)), tt);
  indexed = (omega arith, tt);
  imported = tt;
  tabled = (refl, tt);
  globed = (refl, tt);
}

pub code-IsReady : IsReady code
code-IsReady = record {
  modest = λ n h. leb→le n (2 ^ 28) h;
  loaded = sample-IsLoaded;
  short = omega arith;
  typed_locals = (refl, tt);
}

abbrev pub root_frame : Ctrlframe
root_frame = record {
  start_types = [];
  end_types = [];
  height = 0;
  height_cell = 0;
  jumpslot = 0;
  op = invoke;
  unreachable = false;
}

abbrev if_frame : Ctrlframe
if_frame = record root_frame { op = if_ }

abbrev open_jumps : List Jump
open_jumps = record { pc = 10; targetpc = 0 } ∷ record { pc = 11; targetpc = 0 } ∷ []

-- The context in the `if`, before it has any operand, and with an i32.
abbrev idle : Context
idle = record {
  cframes = if_frame ∷ root_frame ∷ [];
  valtypes = [];
  ncells = 0;
  maxcells = 1;
  maxlabels = 2;
  jumps = open_jumps;
  annotations = record { default_size = 0; types = [] };
  refs = [];
}

abbrev busy : Context
busy = record idle { valtypes = i32 ∷ []; ncells = 1 }

open_jumps-JumpTable : JumpTable env open_jumps (if_frame ∷ root_frame ∷ [])
unfolding is_open
open_jumps-JumpTable = inr (refl, ((omega arith, refl, refl), (tt, tt)))

idle-IsSound : IsSound env idle
idle-IsSound = record {
  valid = record {
    frames = (omega arith, tt, refl, (omega arith, tt, refl, (refl, refl)));
    cells_bound = omega arith;
    labels_bound = omega arith;
  };
  few = omega arith;
  typed = (tt, tt, (tt, tt, tt));
  table = open_jumps-JumpTable;
  rooted = (refl, (refl, tt));
  open_frame = λ h. cc;
}

pop_ctrlframe-Closed_example :
    Safe
      (λ g c. (g ≡ if_frame) × Closed env true if_frame (root_frame ∷ []) c)
      (pop_ctrlframe 20 true idle)
pop_ctrlframe-Closed_example =
    pop_ctrlframe-Closed env 20 true if_frame (root_frame ∷ []) idle refl idle-IsSound

idle-Ready : Ready env block [] (i32 ∷ []) idle
idle-Ready = record {
  valid = idle-IsSound.valid;
  few = idle-IsSound.few;
  typed = idle-IsSound.typed;
  rooted = idle-IsSound.rooted;
  typed_start = tt;
  typed_end = (refl, tt);
  root = refl;
}

opened-Opens_example :
    Safe
      (λ _ c. Opens env block 0 [] (i32 ∷ []) idle c)
      (push_ctrlframe env 20 block 0 [] (i32 ∷ []) idle)
opened-Opens_example =
    opened-Opens env code-IsReady.modest 20 block [] (i32 ∷ []) idle (omega arith) (omega arith)
      refl idle-Ready idle-IsSound.table

-- if (result i32)
abbrev if_bytes : List ℕ
if_bytes = 0x7f ∷ 0x0b ∷ []

abbrev zero_bytes : List ℕ
zero_bytes = 0 ∷ 0 ∷ 0x0b ∷ []

zero_bytes-IsCode : IsCode code zero_bytes
zero_bytes-IsCode = ((omega arith, (omega arith, (omega arith, tt))), omega arith)

process_end-Ends_example : Safe (Ends code zero_bytes) (process_end code zero_bytes idle)
process_end-Ends_example =
    process_end-Ends code code-IsReady zero_bytes idle zero_bytes-IsCode idle-IsSound

module_functype-Valued_example : Yields IsValued (module_functype sample 0)
module_functype-Valued_example = module_functype-Valued sample 0 sample-IsLoaded (omega arith)
