-- ===== src/Insn/Operations/Noted.antt =====
-- The instructions that note the type of an operand, or a reference, in a sound context.
use wasm_doctor.Prelude.{
  ap, ℕ, ◌+◌, ◌-◌, ◌*◌, ◌≤◌, ◌<◌, ◌≡◌, refl, ◌∙◌, Bool, true, false, ◌||◌, List, length, ltb,
  einval, guard, arith, ltb→lt, inl, ok, err, fault, Result, if◌then◌else◌,
}
use wasm_doctor.Types.{Valtype, i32, funcref, anyref, unknown, is, is_numtype, is_vectype}
use wasm_doctor.Leb128.{read_leb_u32}
use wasm_doctor.Decode.Progress.{Reads}
use wasm_doctor.Validation.{Context, Validator, ◌>>◌, lift, pure, pop_valtype, push_valtype}
use wasm_doctor.Validation.Safe.{Safe, Safe->>=, Safe-mono, Safe-guard}
use wasm_doctor.Validation.Operands.{Stands}
use wasm_doctor.Validation.Sound.Steps.{Stands-value}
use wasm_doctor.Validation.Sound.{IsSound}
use wasm_doctor.Insn.{Code}
use wasm_doctor.Insn.Reads.{IsReady, IsCode, Gives-then}
use wasm_doctor.Insn.Annotations.{record_type_annotation}
use wasm_doctor.Insn.Annotations.Found.{AllNoted-mono}
use wasm_doctor.Insn.Annotations.Notes.{Notes, record_type_annotation-Notes}
use wasm_doctor.Insn.Carried.{Carried, Carried-Same, Follows, Processes}
use wasm_doctor.Insn.Immediates.{bitmap_set, bitmap_test}
use wasm_doctor.Insn.Immediates.Forward.{Anything, read_index-Yielding}
use wasm_doctor.Insn.Immediates.Bitmaps.{bitmap_set-length, bitmap_test-there}
use wasm_doctor.Insn.Calls.{guarded}
use wasm_doctor.Types.Lookup.Typed.{Yields}
use wasm_doctor.Insn.Steady.{
  Remains, Remains-refl, Remains-trans, pop_valtype-Remains, push_valtype-Remains, pop-Steady,
}
use wasm_doctor.Insn.Operations.{
  nfuncs, pop, push, process_drop, process_select, process_ref_is_null, process_ref_func,
  declare_ref, check_ref, reference,
}

module _ (code : Code) (ready : IsReady code) where
  -- The context behind the note, before the operands that are pushed there.
  record Noted (src : List ℕ) (t : Valtype) (c : Context) : Type 0 where
    sound : IsSound code.env c
    stands : Stands c.cframes t
    carried : Carried code (code.end_offset - length src + 1) c

  -- A note behind steps on operands.
  note-then :
      (src : List ℕ) (t : Valtype) (ctx c : Context) (k : Validator (List ℕ))
      → IsCode code src
      → Carried code (code.end_offset - length src) ctx
      → Remains code.env ctx c
      → Stands c.cframes t
      → ((d : Context) → Noted src t d → Safe (Follows code src) (k d))
      → Safe (Follows code src) ((record_type_annotation code src t >> k) c)
  note-then src t ctx c k (b, l) ca (s, f, m) o h =
      let n = code.end_offset - length src in
      let cc' = Carried-Same code n n ctx c (omega arith) m ca in
      Safe->>= (λ _ d. Notes code (n + 1) c d) (Follows code src)
        (record_type_annotation code src t) (λ _. k) c
        (record_type_annotation-Notes code src t c ready (omega arith) o s cc'.noted)
        λ _ d ns. h d (record {
          sound = ns.sound;
          stands = rw ns.same_frames o;
          carried = record { noted = ns.noted; fit = rw ns.same_refs cc'.fit };
        })

  -- The end of an instruction without immediates.
  end_here :
      (src : List ℕ) (d c : Context)
      → IsCode code src
      → Carried code (code.end_offset - length src + 1) d
      → Remains code.env d c
      → Follows code src src c
  end_here src d c (b, l) ca (s, f, m) = (
    (inl s, (b, omega arith)),
    Carried-Same code (code.end_offset - length src + 1) (code.end_offset - length src + 1) d c
        (omega arith) m ca,
  )

  pub process_drop-Processes : Processes code (process_drop code)
  unfolding process_drop
  process_drop-Processes src ctx b s ca =
      Safe->>= (λ t c. Remains code.env ctx c × Stands c.cframes t) (Follows code src)
        (pop_valtype unknown) _ ctx (pop_valtype-Remains code.env unknown ctx s)
        λ t c (r, o).
          note-then src t ctx c (pure src) b ca r o
            λ d n. end_here src d d b n.carried (Remains-refl code.env d n.sound)

  push-then :
      (src : List ℕ) (t : Valtype) (d : Context)
      → IsCode code src
      → Stands d.cframes t
      → IsSound code.env d
      → Carried code (code.end_offset - length src + 1) d
      → Safe (Follows code src) ((push code t >> pure src) d)
  unfolding push
  push-then src t d b o s ca =
      Safe->>= (λ _ c. Remains code.env d c) (Follows code src) (push code t) (λ _. pure src) d
        (push_valtype-Remains code.env t d ready.modest o s) λ _ c r. end_here src d c b ca r

  pub process_ref_is_null-Processes : Processes code (process_ref_is_null code)
  unfolding process_ref_is_null
  process_ref_is_null-Processes src ctx b s ca =
      Safe->>= (λ t c. Remains code.env ctx c × Stands c.cframes t) (Follows code src)
        (pop_valtype anyref) _ ctx (pop_valtype-Remains code.env anyref ctx s)
        λ t c (r, o).
          note-then src t ctx c (push code i32 >> pure src) b ca r o λ d n.
            push-then src i32 d b (Stands-value code.env d.cframes i32 refl) n.sound n.carried

  pub process_select-Processes : Processes code (process_select code)
  unfolding process_select
  process_select-Processes src ctx b s ca =
      Safe->>= (λ _ c. Remains code.env ctx c) (Follows code src) (pop code i32) _ ctx
        ((pop-Steady code i32).at ctx s)
        λ _ c r.
          Safe->>= (λ t e. Remains code.env c e × Stands e.cframes t) (Follows code src)
            (pop_valtype unknown) _ c (pop_valtype-Remains code.env unknown c r.0)
            λ t e (r', o).
              Safe->>= (λ _ g. Remains code.env e g) (Follows code src) (pop code t) _ e
                ((pop-Steady code t).at e r'.0)
                λ _ g r''.
                  note-then src t ctx g
                    (lift (guard (is_numtype t || is_vectype t || is t unknown) einval)
                      >> (push code t >> pure src))
                    b ca (Remains-trans code.env ctx c g r (Remains-trans code.env c e g r' r''))
                    (rw r''.1 o)
                    λ d n.
                      Safe-guard (Follows code src) (is_numtype t || is_vectype t || is t unknown)
                        einval (push code t >> pure src) d
                        (push-then src t d b n.stands n.sound n.carried)

  -- Only words of the bitmap change.
  record Declared (ctx c : Context) : Type 0 where
    sound : IsSound code.env c
    same_annotations : c.annotations ≡ ctx.annotations
    same_length : length c.refs ≡ length ctx.refs

  put_refs :
      (words : List ℕ) (ctx : Context)
      → IsSound code.env ctx
      → length words ≡ length ctx.refs
      → Declared ctx (record ctx { refs = words })
  put_refs words ctx s e = record {
    sound = record {
      valid = record {
        frames = s.valid.frames;
        cells_bound = s.valid.cells_bound;
        labels_bound = s.valid.labels_bound;
      };
      few = s.few;
      typed = s.typed;
      table = s.table;
      rooted = s.rooted;
      open_frame = s.open_frame;
    };
    same_annotations = refl;
    same_length = e;
  }

  declare_ref-Declared :
      (funcidx : ℕ) (ctx : Context)
      → IsSound code.env ctx
      → funcidx < 32 * length ctx.refs
      → Safe (λ _ c. Declared ctx c) (declare_ref code funcidx ctx)
  unfolding declare_ref
  declare_ref-Declared funcidx ctx s lt =
      by_word (bitmap_set ctx.refs funcidx) (bitmap_set-length ctx.refs funcidx lt)
    where
      by_word :
          (r : Result (List ℕ))
          → Yields (λ words. length words ≡ length ctx.refs) r
          → Safe
              (λ _ c. Declared ctx c)
              (elim r [
                | ok words ↦ ok (tt, record ctx { refs = words })
                | err e ↦ err e
                | fault ↦ fault
              ])
      by_word (ok words) h = put_refs words ctx s h
      by_word (err e) h = tt
      by_word fault h = h

  check_ref-Declared :
      (funcidx : ℕ) (ctx : Context)
      → IsSound code.env ctx
      → funcidx < 32 * length ctx.refs
      → Safe (λ _ c. Declared ctx c) (check_ref code funcidx ctx)
  unfolding check_ref
  check_ref-Declared funcidx ctx s lt =
      by_bit (bitmap_test ctx.refs funcidx) (bitmap_test-there ctx.refs funcidx lt)
    where
      by_bit :
          (r : Result Bool)
          → Yields (λ _. Unit {0}) r
          → Safe
              (λ _ c. Declared ctx c)
              (elim r [
                | ok declared ↦ lift (guard declared einval) ctx
                | err e ↦ err e
                | fault ↦ fault
              ])
      by_bit (ok true) h = put_refs ctx.refs ctx s refl
      by_bit (ok false) h = tt
      by_bit (err e) h = tt
      by_bit fault h = h

  either-Declared :
      (k : Bool) (funcidx : ℕ) (ctx : Context)
      → IsSound code.env ctx
      → funcidx < 32 * length ctx.refs
      → Safe
          (λ _ c. Declared ctx c)
          ((if k then declare_ref code funcidx else check_ref code funcidx) ctx)
  either-Declared true funcidx ctx s i = declare_ref-Declared funcidx ctx s i
  either-Declared false funcidx ctx s i = check_ref-Declared funcidx ctx s i

  ref_effect-Declared :
      (funcidx : ℕ) (ctx : Context)
      → IsSound code.env ctx
      → nfuncs code ≤ 32 * length ctx.refs
      → Safe
          (λ _ c. Declared ctx c)
          ((do
            lift (guard (ltb funcidx (nfuncs code)) einval)
            if code.const_expr then declare_ref code funcidx else check_ref code funcidx
            push code funcref)
            ctx)
  unfolding push
  ref_effect-Declared funcidx ctx s fit =
      guarded (λ _ c. Declared ctx c) (ltb funcidx (nfuncs code)) _ ctx
        λ lt.
          Safe->>= (λ _ c. Declared ctx c) (λ _ c. Declared ctx c)
            (if code.const_expr then declare_ref code funcidx else check_ref code funcidx) _ ctx
            (either-Declared code.const_expr funcidx ctx s
              (omega (arith, ltb→lt funcidx (nfuncs code) lt)))
            λ _ c d.
              Safe-mono (λ _ e. Remains code.env c e) (λ _ e. Declared ctx e)
                (λ _ e (s', f, (an, rf)). record {
                  sound = s';
                  same_annotations = an ∙ d.same_annotations;
                  same_length = ap length rf ∙ d.same_length;
                })
                (push_valtype code.env funcref c)
                (push_valtype-Remains code.env funcref c ready.modest
                  (Stands-value code.env c.cframes funcref refl) d.sound)

  -- In code that is ready, with a bit for each function, `ref.func` keeps what holds of the context.
  pub process_ref_func-Processes : Processes code (process_ref_func code)
  unfolding process_ref_func reference
  process_ref_func-Processes src ctx (b, l) s ca =
      Gives-then (Reads Anything src) (Follows code src) (read_leb_u32 src) _ ctx
        (read_index-Yielding src b)
        λ funcidx p (_, (b', l')).
          Safe->>= (λ _ c. Declared ctx c) (Follows code src) (reference code funcidx) (λ _. pure p)
            ctx (ref_effect-Declared funcidx ctx s ca.fit)
            λ _ e d. (
              (inl d.sound, (b', omega arith)),
              record {
                noted = rw d.same_annotations (
                    AllNoted-mono (code.end_offset - length src) (code.end_offset - length p + 1)
                      ctx.annotations.types (omega arith) ca.noted);
                fit = rw d.same_length ca.fit;
              },
            )
