-- ===== src/Loader/Forward.antt =====
-- The readers of types go forward, and what they give is well formed.
use wasm_doctor.Prelude.{
  enomem, ltb, ◌-◌, ◌+◌, ◌*◌, ◌≢◌, ◌&&◌, fault, ℕ, ◌^◌, ◌≤◌, ◌<◌, ◌≡◌, refl, bit_and, Bool, true,
  false, not, ◌||◌, Option, none, some, List, [], ◌∷◌, length, leb, ◌==◌, if◌then◌else◌, Result, ok,
  err, Errno, einval, eoverflow, guard, ◌>>=◌, ◌>>◌, arith, leb→le,
}
use wasm_doctor.Types.{
  counted, cellsize, valtype_cellsize, Valtype, is_valtype, is_reftype, Limits, Globaltype,
}
use wasm_doctor.Validation.Invariant.{Operands}
use wasm_doctor.Types.Lookup.{valtype_of}
use wasm_doctor.Types.Lookup.Typed.{AllValtype, valtype_of-AllValtype, IsValued}
use wasm_doctor.Memory.{Realloc}
use wasm_doctor.Leb128.{IsBytes, read_leb_u32}
use wasm_doctor.Leb128.Forward.{Behind, Gives, Gives->>=, read_leb_u32-Gives}
use wasm_doctor.Decode.{read_u8, read_vec}
use wasm_doctor.Decode.Progress.{Reads, All, Yielding, read_u8-Forward, read_vec-Vector, Vector}
use wasm_doctor.Loader.{
  cell_indexes, populate_resulttype_cellidx, ignored, read_valtype, read_resulttype, read_functype,
  read_max, read_limits, read_memtype, read_globaltype, read_tabletype, no_max, wasm_max_pages,
  flag_shared,
}

-- A guard that holds is known to hold behind it.
pub Gives-guard :
    {A : Type 0} (P : A → List ℕ → Type 0) (b : Bool) (e : Errno) (next : Result (A × List ℕ))
    → (b ≡ true → Gives P next)
    → Gives P (guard b e >> next)
Gives-guard P true e next h = h refl
Gives-guard P false e next h = tt

pub read_valtype-Reads :
    (src : List ℕ) → IsBytes src → Gives (Reads (λ t. is_valtype t ≡ true) src) (read_valtype src)
unfolding read_valtype
read_valtype-Reads src b =
    Gives->>= (λ _ p. Behind src p) (Reads (λ t. is_valtype t ≡ true) src) (read_u8 src)
      (λ u8 p. elim (valtype_of u8) [ none ↦ err einval | some t ↦ ok (t, p) ])
      (read_u8-Forward src b) λ u8 p l. of_byte (valtype_of u8) p (valtype_of-AllValtype u8) l
  where
    of_byte :
        (o : Option Valtype) (p : List ℕ)
        → AllValtype o
        → Behind src p
        → Gives
            (Reads (λ t. is_valtype t ≡ true) src)
            (elim o [ none ↦ err einval | some t ↦ ok (t, p) ])
    of_byte none p h l = tt
    of_byte (some t) p h l = (h, l)

-- Limits in order, and within the maximum of their kind.
abbrev pub IsLimits : ℕ → Limits → Type 0
IsLimits typemax lim = (lim.min_size ≤ lim.max_size) × (lim.max_size ≤ typemax)

read_max-Reads :
    (has_max : Bool) (typemax : ℕ) (src : List ℕ)
    → IsBytes src
    → Gives
        (λ n p. (n ≤ typemax) × IsBytes p × (length p ≤ length src))
        (read_max has_max typemax src)
unfolding read_max
read_max-Reads true typemax src b =
    Gives->>= (λ v p. (v < 2 ^ 32) × Behind src p)
      (λ n p. (n ≤ typemax) × IsBytes p × (length p ≤ length src)) (read_leb_u32 src)
      (λ n p. guard (leb n typemax) eoverflow >> ok (n, p)) (read_leb_u32-Gives src b)
      λ n p (_, (b', l)).
        Gives-guard (λ n p. (n ≤ typemax) × IsBytes p × (length p ≤ length src)) (leb n typemax)
          eoverflow (ok (n, p)) (λ h. (leb→le n typemax h, b', omega arith))
read_max-Reads false typemax src b = (ground arith, b, omega arith)

-- The bounds of the limits, once they are read.
bounded :
    (typemax min_size max_size : ℕ) (src p : List ℕ)
    → max_size ≤ typemax
    → Behind src p
    → Gives (Reads (IsLimits typemax) src) (
        guard (leb min_size typemax) eoverflow
        >> (guard (leb min_size max_size) einval
            >> ok (record { min_size = min_size; max_size = max_size }, p)))
bounded typemax min_size max_size src p le l =
    Gives-guard (Reads (IsLimits typemax) src) (leb min_size typemax) eoverflow
      (guard (leb min_size max_size) einval
        >> ok (record { min_size = min_size; max_size = max_size }, p))
      λ _.
        Gives-guard (Reads (IsLimits typemax) src) (leb min_size max_size) einval
          (ok (record { min_size = min_size; max_size = max_size }, p))
          λ h. ((leb→le min_size max_size h, le), l)

sized :
    (has_max : Bool) (typemax : ℕ) (src p : List ℕ)
    → Behind src p
    → Gives (Reads (IsLimits typemax) src) (
        read_leb_u32 p >>= λ y. read_max has_max typemax y.1 >>= λ x.
        guard (leb y.0 typemax) eoverflow
        >> (guard (leb y.0 x.0) einval >> ok (record { min_size = y.0; max_size = x.0 }, x.1)))
sized has_max typemax src p (b1, l1) =
    Gives->>= (λ v q. (v < 2 ^ 32) × Behind p q) (Reads (IsLimits typemax) src) (read_leb_u32 p)
      (λ min_size p'. read_max has_max typemax p' >>= λ x.
        guard (leb min_size typemax) eoverflow
        >> (guard (leb min_size x.0) einval
            >> ok (record { min_size = min_size; max_size = x.0 }, x.1)))
      (read_leb_u32-Gives p b1)
      λ min_size p' (_, (b2, l2)).
        Gives->>= (λ n q. (n ≤ typemax) × IsBytes q × (length q ≤ length p'))
          (Reads (IsLimits typemax) src) (read_max has_max typemax p')
          (λ n q.
            guard (leb min_size typemax) eoverflow
            >> (guard (leb min_size n) einval
                >> ok (record { min_size = min_size; max_size = n }, q)))
          (read_max-Reads has_max typemax p' b2)
          λ n q (le, b3, l3). bounded typemax min_size n src q le (b3, omega arith)

-- On a list of bytes, `read_limits` is an error, or goes forward and gives a minimum that is not above
-- the maximum, which is not above that of the kind.
pub read_limits-IsLimits :
    (typemax : ℕ) (src : List ℕ)
    → IsBytes src
    → Gives (Reads (IsLimits typemax) src) (read_limits typemax src)
unfolding read_limits
read_limits-IsLimits typemax src b =
    Gives->>= (λ _ p. Behind src p) (Reads (IsLimits typemax) src) (read_u8 src) _
      (read_u8-Forward src b)
      λ u8 p l.
        let has_max = not (bit_and u8 0x01 == 0) in
        Gives-guard (Reads (IsLimits typemax) src) (has_max || bit_and u8 flag_shared == 0) einval _
          λ _.
            Gives-guard (Reads (IsLimits typemax) src) (bit_and u8 0xfe == 0) einval _
              λ _. sized has_max typemax src p l

pub read_memtype-Reads : Yielding (λ _. Unit {0}) read_memtype
unfolding read_memtype
read_memtype-Reads src b =
    Gives->>= (Reads (IsLimits wasm_max_pages) src) (Reads (λ _. Unit {0}) src)
      (read_limits wasm_max_pages src) (λ lim p. ok (record { lim = lim; flags = 0 }, p))
      (read_limits-IsLimits wasm_max_pages src b) λ lim p h. (tt, h.1)

pub read_globaltype-Reads : Yielding (λ t. is_valtype t.t ≡ true) read_globaltype
unfolding read_globaltype
read_globaltype-Reads src b =
    Gives->>= (Reads (λ t. is_valtype t ≡ true) src) (Reads (λ t. is_valtype t.t ≡ true) src)
      (read_valtype src)
      (λ t p. read_u8 p >>= λ x.
        if x.0 == 0x01
        then ok (record { t = t; is_var = true }, x.1)
        else if x.0 == 0x00
        then ok (record { t = t; is_var = false }, x.1)
        else err einval)
      (read_valtype-Reads src b)
      λ t p (v, (b1, l1)).
        Gives->>= (λ _ q. Behind p q) (Reads (λ t. is_valtype t.t ≡ true) src) (read_u8 p)
          (λ u8 p'.
            if u8 == 0x01
            then ok (record { t = t; is_var = true }, p')
            else if u8 == 0x00
            then ok (record { t = t; is_var = false }, p')
            else err einval)
          (read_u8-Forward p b1)
          λ u8 q (b2, l2). by_flag (u8 == 0x01) (u8 == 0x00) t q v (b2, omega arith)
  where
    by_flag :
        (v c : Bool) (t : Valtype) (q : List ℕ)
        → is_valtype t ≡ true
        → Behind src q
        → Gives {A = Globaltype} (Reads (λ t. is_valtype t.t ≡ true) src) (
            if v
            then ok (record { t = t; is_var = true }, q)
            else if c
            then ok (record { t = t; is_var = false }, q)
            else err einval)
    by_flag true c t q v h = (v, h)
    by_flag false true t q v h = (v, h)
    by_flag false false t q v h = tt

pub read_tabletype-Reads : Yielding (λ t. is_valtype t.et ≡ true) read_tabletype
unfolding read_tabletype
read_tabletype-Reads src b =
    Gives->>= (Reads (λ t. is_valtype t ≡ true) src) (Reads (λ t. is_valtype t.et ≡ true) src)
      (read_valtype src)
      (λ et p.
        guard (is_reftype et) einval
        >> (read_limits no_max p >>= λ x. ok (record { et = et; lim = x.0 }, x.1)))
      (read_valtype-Reads src b)
      λ et p (v, (b1, l1)).
        Gives-guard (Reads (λ t. is_valtype t.et ≡ true) src) (is_reftype et) einval _ λ _.
          Gives->>= (Reads (IsLimits no_max) p) (Reads (λ t. is_valtype t.et ≡ true) src)
            (read_limits no_max p) (λ lim q. ok (record { et = et; lim = lim }, q))
            (read_limits-IsLimits no_max p b1) λ lim q (_, (b2, l2)). (v, (b2, omega arith))

All-Operands : (ts : List Valtype) → All (λ t. is_valtype t ≡ true) ts → Operands false ts
All-Operands [] h = tt
All-Operands (t ∷ ts) (h, hs) = (rw h refl, All-Operands ts hs)

ignored-or :
    {A : Type 0} (P : A → List ℕ → Type 0) (r : Result (List ℕ)) (next : Result (A × List ℕ))
    → r ≢ fault
    → Gives P next
    → Gives P (ignored r >> next)
unfolding ignored
ignored-or P (err Errno.xassert) next ne h = tt
ignored-or P (err Errno.einval) next ne h = h
ignored-or P (err Errno.e2big) next ne h = h
ignored-or P (err Errno.eoverflow) next ne h = h
ignored-or P (err Errno.enomem) next ne h = h
ignored-or P (err Errno.erange) next ne h = h
ignored-or P (err Errno.enoent) next ne h = h
ignored-or P (err Errno.ebadf) next ne h = h
ignored-or P (err Errno.etimedout) next ne h = h
ignored-or P (err Errno.etoywasmtrap) next ne h = h
ignored-or P (err Errno.etoywasmrestart) next ne h = h
ignored-or P (ok a) next ne h = h
ignored-or P fault next ne h = absurd (ne refl)

counted-ne-fault : (t : Valtype) → is_valtype t ≡ true → counted t ≢ fault
counted-ne-fault Valtype.anyref h = cc
counted-ne-fault Valtype.unknown h = cc
counted-ne-fault Valtype.exnref h = λ e. cc
counted-ne-fault Valtype.i32 h = λ e. cc
counted-ne-fault Valtype.i64 h = λ e. cc
counted-ne-fault Valtype.f32 h = λ e. cc
counted-ne-fault Valtype.f64 h = λ e. cc
counted-ne-fault Valtype.v128 h = λ e. cc
counted-ne-fault Valtype.funcref h = λ e. cc
counted-ne-fault Valtype.externref h = λ e. cc

bind-ne-fault :
    {A B : Type 0} (r : Result A) (k : A → Result B)
    → r ≢ fault
    → ((a : A) → k a ≢ fault)
    → (r >>= k) ≢ fault
bind-ne-fault (ok a) k ne h = h a
bind-ne-fault (err e) k ne h = λ x. cc
bind-ne-fault fault k ne h = absurd (ne refl)

guard-ne-fault : (b : Bool) (e : Errno) → guard b e ≢ fault
guard-ne-fault true e = λ x. cc
guard-ne-fault false e = λ x. cc

cell_indexes-ne-fault :
    (off : ℕ) (ts : List Valtype) → All (λ t. is_valtype t ≡ true) ts → cell_indexes off ts ≢ fault
unfolding cell_indexes valtype_cellsize
cell_indexes-ne-fault off [] h = λ e. cc
cell_indexes-ne-fault off (t ∷ ts) (h, hs) =
    bind-ne-fault (valtype_cellsize t) _
      (bind-ne-fault (counted t) (λ _. ok (cellsize t)) (counted-ne-fault t h) λ _ e. cc)
      λ csz.
        bind-ne-fault (guard (leb csz (0xffff - off)) eoverflow) _
          (guard-ne-fault (leb csz (0xffff - off)) eoverflow)
          λ _.
            bind-ne-fault (cell_indexes (off + csz) ts) _ (cell_indexes-ne-fault (off + csz) ts hs)
              λ _ e. cc

populate_resulttype_cellidx-ne-fault :
    (realloc : Realloc) (ts : List Valtype)
    → All (λ t. is_valtype t ≡ true) ts
    → populate_resulttype_cellidx realloc ts ≢ fault
unfolding populate_resulttype_cellidx
populate_resulttype_cellidx-ne-fault realloc ts h =
    bind-ne-fault (guard (realloc (2 * (length ts + 1))) enomem) _
      (guard-ne-fault (realloc (2 * (length ts + 1))) enomem)
      λ _. bind-ne-fault (cell_indexes 0 ts) _ (cell_indexes-ne-fault 0 ts h) λ _ e. cc

pub read_resulttype-Operands :
    (realloc : Realloc) (populate_idx : Bool)
    → Yielding (Operands false) (read_resulttype realloc populate_idx)
unfolding read_resulttype
read_resulttype-Operands realloc populate_idx src b =
    Gives->>= (Vector (λ t. is_valtype t ≡ true) src) (Reads (Operands false) src)
      (read_vec realloc 4 read_valtype src) _
      (read_vec-Vector (λ t. is_valtype t ≡ true) realloc 4 read_valtype src (omega arith)
        read_valtype-Reads b)
      λ ts p (q, l, _). indexed (populate_idx && ltb 0 (length ts)) ts p q (All-Operands ts q, l)
  where
    indexed :
        (c : Bool) (ts : List Valtype) (p : List ℕ)
        → All (λ t. is_valtype t ≡ true) ts
        → Reads (Operands false) src ts p
        → Gives
            (Reads (Operands false) src)
            ((if c then ignored (populate_resulttype_cellidx realloc ts) else ok tt) >> ok (ts, p))
    indexed true ts p q h =
        ignored-or (Reads (Operands false) src) (populate_resulttype_cellidx realloc ts)
          (ok (ts, p)) (populate_resulttype_cellidx-ne-fault realloc ts q) h
    indexed false ts p q h = h

-- A function type that is read is made of value types.
pub read_functype-IsValued : (realloc : Realloc) → Yielding IsValued (read_functype realloc)
unfolding read_functype
read_functype-IsValued realloc src b =
    Gives->>= (λ _ p. Behind src p) (Reads IsValued src) (read_u8 src) _ (read_u8-Forward src b)
      λ u8 p (b1, l1). Gives-guard (Reads IsValued src) (u8 == 0x60) einval _ λ _.
        Gives->>= (Reads (Operands false) p) (Reads IsValued src) (read_resulttype realloc true p)
          (λ parameter p'. read_resulttype realloc false p' >>= λ x.
            ok (record { parameter = parameter; result = x.0 }, x.1))
          (read_resulttype-Operands realloc true p b1)
          λ parameter p' (o, (b2, l2)).
            Gives->>= (Reads (Operands false) p') (Reads IsValued src)
              (read_resulttype realloc false p')
              (λ result p''. ok (record { parameter = parameter; result = result }, p''))
              (read_resulttype-Operands realloc false p' b2)
              λ result p'' (o', (b3, l3)). ((o, o'), (b3, omega arith))
