-- ===== src/Insn/Carried.antt =====
-- What an instruction keeps: the context is sound, the annotations lie in front of the program counter,
-- and the bitmap of references has a bit for each function.
use wasm_doctor.Prelude.{ℕ, ◌+◌, ◌-◌, ◌*◌, ◌≤◌, List, length, arith, inl}
use wasm_doctor.Decode.{Reader}
use wasm_doctor.Decode.Progress.{Reads, Yielding}
use wasm_doctor.Validation.{Context, Validator, pure, ◌>>◌}
use wasm_doctor.Validation.Safe.{Safe, Safe->>=, Safe-mono}
use wasm_doctor.Validation.Sound.{IsSound}
use wasm_doctor.Validation.Quiet.{Same, Quiet}
use wasm_doctor.Insn.{Code}
use wasm_doctor.Insn.Reads.{IsCode, Continues, Ends, Gives-then}
use wasm_doctor.Insn.Annotations.Found.{AllNoted, AllNoted-mono}
use wasm_doctor.Insn.Opcodes.{Instruction}
use wasm_doctor.Insn.Operations.{nfuncs, reads}
use wasm_doctor.Insn.Steady.{Steady, Remains, Safe-Leaves}

pub record Carried (code : Code) (n : ℕ) (ctx : Context) : Type 0 where
  pub noted : AllNoted n ctx.annotations.types
  pub fit : nfuncs code ≤ 32 * length ctx.refs

pub Carried-Same :
    (code : Code) (m n : ℕ) (ctx c : Context)
    → m ≤ n
    → Same ctx c
    → Carried code m ctx
    → Carried code n c
Carried-Same code m n ctx c l (ea, er) h = record {
  noted = rw ea (AllNoted-mono m n ctx.annotations.types l h.noted);
  fit = rw er h.fit;
}

-- The context behind the instruction that ends in front of `p`.
abbrev pub Follows : Code → List ℕ → List ℕ → Context → Type 0
Follows code src p c = Ends code src p c × Carried code (code.end_offset - length p + 1) c

abbrev pub Processes : Code → (List ℕ → Validator (List ℕ)) → Type 0
Processes code process =
    (src : List ℕ) (ctx : Context)
    → IsCode code src
    → IsSound code.env ctx
    → Carried code (code.end_offset - length src) ctx
    → Safe (Follows code src) (process src ctx)

abbrev pub Keeps : Code → Instruction → Type 0
Keeps code i = Processes code i.process

-- An instruction that leaves the annotations and references alone.
pub Quiet-Processes :
    (code : Code) (process : List ℕ → Validator (List ℕ))
    → ((src : List ℕ) (ctx : Context)
        → IsCode code src
        → IsSound code.env ctx
        → Safe (Ends code src) (process src ctx))
    → ((src : List ℕ) → Quiet (process src))
    → Processes code process
Quiet-Processes code process h q src ctx b s k =
    Safe-mono (λ p c. Ends code src p c × Same ctx c) (Follows code src)
      (λ p c (e, m). (
        e,
        Carried-Same code (code.end_offset - length src) (code.end_offset - length p + 1) ctx c
            (omega (arith, e.1.1)) m k,
      ))
      (process src ctx)
      (Safe-Leaves (Ends code src) ctx (process src ctx) (h src ctx b s) ((q src).at ctx))

-- One after which another one follows.
pub goes_on :
    (code : Code) (process : List ℕ → Validator (List ℕ))
    → ((src : List ℕ) (ctx : Context)
        → IsCode code src
        → IsSound code.env ctx
        → Safe (Continues code src) (process src ctx))
    → ((src : List ℕ) → Quiet (process src))
    → Processes code process
goes_on code process h = Quiet-Processes code process λ src ctx b s.
    Safe-mono (Continues code src) (Ends code src) (λ p c (s', r). (inl s', r)) (process src ctx)
      (h src ctx b s)

-- One that reads its immediates, and then goes by the operands.
pub reads-Processes :
    {A : Type 0} (P : A → Type 0) (code : Code) (reader : Reader A)
    (effect : A → Validator (Unit {0}))
    → Yielding P reader
    → ((a : A) → P a → Steady code.env (effect a))
    → Processes code (reads code reader effect)
reads-Processes P code reader effect y e src ctx (b, l) s k =
    Gives-then (Reads P src) (Follows code src) (reader src) _ ctx (y src b) λ a p (h, (b', l')).
      Safe->>= (λ _ c. Remains code.env ctx c) (Follows code src) (effect a) (λ _. pure p) ctx
        ((e a h).at ctx s)
        λ _ c (s', f, m). (
          (inl s', (b', omega arith)),
          Carried-Same code (code.end_offset - length src) (code.end_offset - length p + 1) ctx c
              (omega arith) m k,
        )

-- One without immediates.
pub operands-Processes :
    (code : Code) (effect : Validator (Unit {0}))
    → Steady code.env effect
    → Processes code (λ src. effect >> pure src)
operands-Processes code effect e src ctx (b, l) s k =
    Safe->>= (λ _ c. Remains code.env ctx c) (Follows code src) effect (λ _. pure src) ctx
      (e.at ctx s)
      λ _ c (s', f, m). (
        (inl s', (b, omega arith)),
        Carried-Same code (code.end_offset - length src) (code.end_offset - length src + 1) ctx c
            (omega arith) m k,
      )
