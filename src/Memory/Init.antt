-- ===== src/Memory/Init.antt =====
-- memory_init copies a segment inside the bounds of both, or traps.
use wasm_doctor.Prelude.{
  ℕ, ◌+◌, ◌-◌, ◌^◌, ◌≤◌, ◌<◌, ◌≡◌, ap, ◌∙◌, Bool, true, false, not, ◌&&◌, ◌||◌, ltb, leb, ◌==◌, ◌⊎◌,
  if◌then◌else◌, Result, ok, err, fault, Errno, ◌>>=◌, arith, Bool-cases, inl, inr,
}
use wasm_doctor.Memory.{Meminst, Realloc, Access, Data, memory_init, store_bytes}
use wasm_doctor.Memory.Bounds.{IsValid, byte, InBounds, Accessed, memory_getptr2-Accessed}

-- The bytes `s` to `s + n` of the segment may be read.
abbrev pub Readable : Data → ℕ → ℕ → Type 0
Readable segment s n =
    (s + n ≤ segment.init_size) × ((segment.dropped ≡ false) ⊎ ((s ≡ 0) × (n ≡ 0)))

-- The outcomes of memory.init.
abbrev pub Initialized : Meminst → Data → ℕ → ℕ → ℕ → Result Meminst → Type 0
Initialized mi segment d s n (ok mi') =
    InBounds mi d 0 n
    × Readable segment s n
    × IsValid mi'
    × ((i : ℕ)
        → byte mi' i ≡ (if leb d i && ltb i (d + n) then segment.init (s + (i - d)) else byte mi i))
Initialized mi segment d s n (err Errno.etoywasmtrap) = ¬ (InBounds mi d 0 n × Readable segment s n)
Initialized mi segment d s n (err Errno.enomem) = InBounds mi d 0 n × Readable segment s n
Initialized mi segment d s n _ = ⊥

unreadable : Data → ℕ → ℕ → Bool
unreadable segment s n =
    (segment.dropped && not (s == 0 && n == 0))
    || ltb segment.init_size s
    || ltb (segment.init_size - s) n

unreadable-Readable :
    (segment : Data) (s n : ℕ) → unreadable segment s n ≡ false → Readable segment s n
unfolding unreadable
unreadable-Readable segment s n h = ground arith

not_Readable : (segment : Data) (s n : ℕ) → unreadable segment s n ≡ true → ¬ Readable segment s n
unfolding unreadable
not_Readable segment s n h r = ground arith

stored_at :
    (m : Meminst) (d n x i : ℕ)
    → ((n ≡ 0) ⊎ (d + n ≤ m.allocated))
    → (if ltb i m.allocated then (if leb d i && ltb i (d + n) then x else m.bytes i) else 0)
      ≡ (if leb d i && ltb i (d + n) then x else byte m i)
stored_at m d n x i b = ground arith

stored :
    (mi m : Meminst) (ea d n : ℕ) (src : ℕ → ℕ)
    → ea ≡ d
    → ((n ≡ 0) ⊎ (d + n ≤ m.allocated))
    → ((i : ℕ) → byte m i ≡ byte mi i)
    → (i : ℕ)
    → byte (store_bytes ea n src m) i
      ≡ (if leb d i && ltb i (d + n) then src (i - d) else byte mi i)
stored mi m ea d n src e b same i = rw e (
    stored_at m d n (src (i - d)) i b
    ∙ ap (λ x. if leb d i && ltb i (d + n) then src (i - d) else x) (same i))

access-Initialized :
    (realloc : Realloc) (mi : Meminst) (segment : Data) (d s n : ℕ) (r : Result Access)
    → Readable segment s n
    → Accessed realloc mi d 0 n r
    → Initialized mi segment d s n
        (r >>= λ access. ok (store_bytes access.ea n (λ i. segment.init (s + i)) access.mem))
access-Initialized realloc mi segment d s n (ok a) rd (b, e, al, (v, p, m, same)) = (
  b,
  rd,
  record {
    allocated_bound = v.allocated_bound;
    pages_bound = v.pages_bound;
    max_bound = v.max_bound;
  },
  λ i.
      stored mi a.mem a.ea d n (λ j. segment.init (s + j)) (omega (arith, e)) (ground (arith, al))
        same i,
)
access-Initialized realloc mi segment d s n (err Errno.etoywasmtrap) rd h = λ x. h x.0
access-Initialized realloc mi segment d s n (err Errno.enomem) rd h = (h.0, rd)
access-Initialized realloc mi segment d s n (err Errno.einval) rd h = elim h [ ]
access-Initialized realloc mi segment d s n (err Errno.e2big) rd h = elim h [ ]
access-Initialized realloc mi segment d s n (err Errno.eoverflow) rd h = elim h [ ]
access-Initialized realloc mi segment d s n (err Errno.erange) rd h = elim h [ ]
access-Initialized realloc mi segment d s n (err Errno.enoent) rd h = elim h [ ]
access-Initialized realloc mi segment d s n (err Errno.ebadf) rd h = elim h [ ]
access-Initialized realloc mi segment d s n (err Errno.etimedout) rd h = elim h [ ]
access-Initialized realloc mi segment d s n (err Errno.etoywasmrestart) rd h = elim h [ ]
access-Initialized realloc mi segment d s n (err Errno.xassert) rd h = elim h [ ]
access-Initialized realloc mi segment d s n fault rd h = elim h [ ]

-- On a valid memory and a 32-bit destination and size, memory_init traps only if the destination or the source is out of bounds or
-- dropped, and is ENOMEM only where both are in bounds. Otherwise they are in bounds, the memory is
-- valid, and its bytes are those of the segment in the destination and the former ones elsewhere. No
-- assertion fails.
pub memory_init-Initialized :
    (realloc : Realloc) (mi : Meminst) (segment : Data) (d s n : ℕ)
    → IsValid mi
    → d < 2 ^ 32
    → n < 2 ^ 32
    → Initialized mi segment d s n (memory_init realloc mi segment d s n)
unfolding memory_init unreadable
memory_init-Initialized realloc mi segment d s n v ld ln =
    elim (Bool-cases (unreadable segment s n)) [
      | inl e ↦ rw e λ x. not_Readable segment s n e x.1
      | inr e ↦ rw e (
          access-Initialized realloc mi segment d s n _ (unreadable-Readable segment s n e)
            (memory_getptr2-Accessed realloc mi d 0 n v ld (omega arith) ln))
    ]
