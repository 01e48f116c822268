-- ===== src/Validation/Tests.antt =====
-- Runs of the validation on a function with one block open.
use wasm_doctor.Prelude.{
  err, Errno, ok, ◌++◌, length, ◌≡◌, ◌≢◌, refl, true, false, List, [], ◌∷◌, arith,
}
use wasm_doctor.Types.{exnref, Valtype, i32, i64}
use wasm_doctor.Validation.{
  push_valtype, block, invoke, Ctrlframe, Context, Env, pop_valtype, mark_unreachable,
  push_ctrlframe,
}
use wasm_doctor.Validation.Invariant.{IsValid}
use wasm_doctor.Validation.Safe.{Safe}
use wasm_doctor.Validation.Operands.{PopsTo, pop_valtype-PopsTo}
use wasm_doctor.Validation.Control.{opened, mark_unreachable-unwinds, push_ctrlframe-IsValid}

abbrev body : Ctrlframe
body = record {
  start_types = [];
  end_types = i32 ∷ [];
  height = 1;
  height_cell = 2;
  jumpslot = 0;
  op = invoke;
  unreachable = false;
}

abbrev outer : Ctrlframe
outer = record {
  start_types = [];
  end_types = [];
  height = 0;
  height_cell = 0;
  jumpslot = 0;
  op = invoke;
  unreachable = false;
}

-- An i64 in the outer frame, and an i32 in the inner one.
abbrev sample : Context
sample = record {
  cframes = body ∷ outer ∷ [];
  valtypes = i32 ∷ i64 ∷ [];
  ncells = 3;
  maxcells = 3;
  maxlabels = 2;
  jumps = [];
  annotations = record { default_size = 0; types = [] };
  refs = [];
}

abbrev env : Env
env = record {
  generate_jump_table = false;
  valtypes_room = λ _. true;
  cframes_room = λ _. true;
  jumps_room = λ _. true;
}

sample-IsValid : IsValid sample
sample-IsValid = record {
  frames = (omega arith, (refl, tt), refl, (omega arith, (refl, tt), refl, (refl, refl)));
  cells_bound = omega arith;
  labels_bound = omega arith;
}

cons-ne-nil : {A : Type 0} {a : A} {xs : List A} → (a ∷ xs) ≢ []
cons-ne-nil h = cc

pop_valtype-PopsTo_example : Safe (PopsTo i32 sample) (pop_valtype i32 sample)
pop_valtype-PopsTo_example = pop_valtype-PopsTo i32 sample sample-IsValid cons-ne-nil

mark_unreachable-unwinds_example :
    (ctx' : Context) × (mark_unreachable sample ≡ ok (tt, ctx'))
    × IsValid ctx'
    × (ctx'.cframes ≡ record body { unreachable = true } ∷ outer ∷ [])
    × (length ctx'.valtypes ≡ 1)
    × ((popped : List Valtype) × (sample.valtypes ≡ popped ++ ctx'.valtypes))
    × (ctx'.ncells ≡ 2)
mark_unreachable-unwinds_example =
    mark_unreachable-unwinds body (outer ∷ []) sample refl sample-IsValid

push_ctrlframe-IsValid_example :
    Safe
      (λ _ ctx'.
        IsValid ctx'
        × (ctx'.cframes ≡ opened env block 0 (i32 ∷ []) (i64 ∷ []) sample ∷ sample.cframes))
      (push_ctrlframe env 7 block 0 (i32 ∷ []) (i64 ∷ []) sample)
push_ctrlframe-IsValid_example =
    push_ctrlframe-IsValid env 7 0 block (i32 ∷ []) (i64 ∷ []) sample refl (refl, tt) (omega arith)
      sample-IsValid

-- The assertion of valtype_cellsize that a module can make fail.
push_exnref : push_valtype env exnref sample ≡ err Errno.xassert
unfolding push_valtype
push_exnref = refl
