-- ===== src/Memory/Bounds.antt =====
-- A memory access is inside the memory or traps, and no assertion fails.
use wasm_doctor.Prelude.{
  ℕ, ◌+◌, ◌-◌, ◌*◌, ◌/◌, ◌%◌, ◌^◌, ◌≤◌, ◌<◌, ◌≡◌, refl, true, false, not, ◌&&◌, ltb, leb, ◌==◌, ◌⊎◌,
  if◌then◌else◌, Result, ok, err, Errno, enomem, etoywasmtrap, guard, ◌>>◌, arith, Bool-cases, inl,
  inr, le→leb, lt→leb, lt→ltb, le→ltb,
}
use native.Mathlib.Nat.{div_self}
use wasm_doctor.Memory.{
  Meminst, Realloc, Access, resize_array, extend, getptr_bytes, memory_getptr2, page_size,
  uint32_max,
}

pub record IsValid (mi : Meminst) : Type 0 where
  pub allocated_bound : mi.allocated ≤ mi.size_in_pages * 65536
  pub pages_bound : mi.size_in_pages ≤ mi.max
  pub max_bound : mi.max ≤ 65536

-- The byte that a program sees: what is not allocated yet is zero.
abbrev pub byte : Meminst → ℕ → ℕ
byte mi i = if ltb i mi.allocated then mi.bytes i else 0

-- The memory in bytes.
abbrev pub memory_size : Meminst → ℕ
memory_size mi = mi.size_in_pages * 65536

-- The access is inside the memory, and its first address is a 32-bit number.
abbrev pub InBounds : Meminst → ℕ → ℕ → ℕ → Type 0
InBounds mi ptr offset size = (ptr + offset < 2 ^ 32) × (ptr + offset + size ≤ memory_size mi)

-- The same memory for the program, with `n` bytes allocated.
abbrev pub Same : Meminst → Meminst → Type 0
Same mi mi' =
    IsValid mi'
    × (mi'.size_in_pages ≡ mi.size_in_pages)
    × (mi.allocated ≤ mi'.allocated)
    × ((i : ℕ) → byte mi' i ≡ byte mi i)

-- The outcomes of an access.
abbrev pub Accessed : Realloc → Meminst → ℕ → ℕ → ℕ → Result Access → Type 0
Accessed realloc mi ptr offset size (ok a) =
    InBounds mi ptr offset size
    × (a.ea ≡ ptr + offset)
    × ((size ≡ 0) ⊎ (ptr + offset + size ≤ a.mem.allocated))
    × Same mi a.mem
Accessed realloc mi ptr offset size (err Errno.etoywasmtrap) = ¬ InBounds mi ptr offset size
Accessed realloc mi ptr offset size (err Errno.enomem) =
    InBounds mi ptr offset size × (realloc (ptr + offset + size) ≡ false)
Accessed realloc mi ptr offset size _ = ⊥

pub byte-extend :
    (mi : Meminst) (need i : ℕ) → mi.allocated ≤ need → byte (extend need mi) i ≡ byte mi i
byte-extend mi need i h = ground arith

times_one : (n : ℕ) → n < 2 ^ 64 → n * 1 % 2 ^ 64 ≡ n
times_one n h = omega arith

ne_zero : (n : ℕ) → 0 < n → (n == 0) ≡ false
ne_zero n h = ground arith

resize_array-one :
    (realloc : Realloc) (need : ℕ)
    → 0 < need
    → need < 2 ^ 64
    → resize_array realloc need 1 ≡ guard (realloc need) enomem
unfolding resize_array
resize_array-one realloc need h lt =
    rw (lt→ltb 0 need h, times_one need lt, div_self h, ne_zero need h) refl

-- An access whose bytes are not all allocated.
deferred-Accessed :
    (realloc : Realloc) (mi : Meminst) (ptr offset size : ℕ)
    → IsValid mi
    → InBounds mi ptr offset size
    → 0 < size
    → mi.allocated < ptr + offset + size
    → Accessed realloc mi ptr offset size (
        resize_array realloc (ptr + offset + size) 1
        >> ok (record { ea = ptr + offset; moved = true; mem = extend (ptr + offset + size) mi }))
deferred-Accessed realloc mi ptr offset size v b h lt =
    rw
      (resize_array-one realloc (ptr + offset + size) (omega arith)
        (omega (arith, b.0, b.1, v.pages_bound, v.max_bound)))
      (elim (Bool-cases (realloc (ptr + offset + size))) [
        | inr e ↦ rw e (b, e)
        | inl e ↦ rw e (
          b,
          refl,
          inr (omega arith),
          (
            record { allocated_bound = b.1; pages_bound = v.pages_bound; max_bound = v.max_bound },
            refl,
            omega arith,
            λ i. byte-extend mi (ptr + offset + size) i (omega arith),
          ),
        )
      ])

last_byte :
    (ea size : ℕ) → 0 < size → ea + size ≤ 2 ^ 32 → (ea + (size - 1)) % 2 ^ 32 ≡ ea + size - 1
last_byte ea size h b = omega arith

sub_add : (n : ℕ) → 0 < n → n - 1 + 1 ≡ n
sub_add n h = omega arith

pages_mod : (n : ℕ) → n < 2 ^ 32 → (n / 65536 + 1) % 2 ^ 32 ≡ n / 65536 + 1
pages_mod n h = omega arith

pages_in : (n p : ℕ) → 0 < n → n ≤ p * 65536 → (n - 1) / 65536 + 1 ≤ p
pages_in n p z h = omega arith

pages_out : (n p : ℕ) → 0 < n → p * 65536 < n → p < (n - 1) / 65536 + 1
pages_out n p z h = omega arith

getptr_bytes-in :
    (realloc : Realloc) (mi : Meminst) (ptr offset size : ℕ)
    → IsValid mi
    → InBounds mi ptr offset size
    → 0 < size
    → Accessed realloc mi ptr offset size (getptr_bytes realloc mi (ptr + offset) size)
unfolding getptr_bytes
getptr_bytes-in realloc mi ptr offset size v b h =
    let bound : ptr + offset + size ≤ 2 ^ 32 = omega (arith, b.1, v.pages_bound, v.max_bound) in
    rw
      (
        le→leb (size - 1) (uint32_max - (ptr + offset)) (omega arith),
        last_byte (ptr + offset) size h bound,
      )
      (elim (Bool-cases (ltb (ptr + offset + size - 1) mi.allocated)) [
        | inl e ↦ rw e (b, refl, inr (ground arith), (v, refl, omega arith, λ i. refl))
        | inr e ↦
            rw
              (
                e,
                pages_mod (ptr + offset + size - 1) (omega arith),
                le→leb ((ptr + offset + size - 1) / 65536 + 1) mi.size_in_pages
                    (pages_in _ _ (omega arith) b.1),
                sub_add (ptr + offset + size) (omega arith),
                lt→ltb mi.allocated (ptr + offset + size) (ground arith),
              )
              (deferred-Accessed realloc mi ptr offset size v b h (ground arith))
      ])

getptr_bytes-out :
    (realloc : Realloc) (mi : Meminst) (ptr offset size : ℕ)
    → IsValid mi
    → ptr + offset < 2 ^ 32
    → memory_size mi < ptr + offset + size
    → 0 < size
    → getptr_bytes realloc mi (ptr + offset) size ≡ err etoywasmtrap
unfolding getptr_bytes
getptr_bytes-out realloc mi ptr offset size v lt b h =
    elim (Bool-cases (leb (size - 1) (uint32_max - (ptr + offset)))) [
      | inr e ↦ rw e refl
      | inl e ↦
          let bound : ptr + offset + size ≤ 2 ^ 32 = ground arith in
          rw
            (
              e,
              last_byte (ptr + offset) size h bound,
              le→ltb (ptr + offset + size - 1) mi.allocated (omega (arith, v.allocated_bound)),
              pages_mod (ptr + offset + size - 1) (omega arith),
              lt→leb ((ptr + offset + size - 1) / 65536 + 1) mi.size_in_pages
                  (pages_out _ _ (omega arith) b),
            )
            refl
    ]

pub small : (n : ℕ) → n < 2 ^ 32 → n % 2 ^ 32 ≡ n
small n h = omega arith

pub lt_or_le : (a b : ℕ) → (a < b) ⊎ (b ≤ a)
lt_or_le a b = elim (Bool-cases (ltb a b)) [
  | inl e ↦ inl (ground arith)
  | inr e ↦ inr (ground arith)
]

below_page : (n p : ℕ) → 0 < n → n ≤ p * 65536 → (n - 1) / 65536 < p
below_page n p z h = omega arith

first_page-in : (n p : ℕ) → n ≤ p * 65536 → (ltb 0 n && leb p ((n - 1) / 65536)) ≡ false
first_page-in n p h = elim (Bool-cases (ltb 0 n)) [
  | inr e ↦ rw e refl
  | inl e ↦ rw (e, lt→leb p ((n - 1) / 65536) (below_page n p (ground arith) h)) refl
]

first_page : (n p : ℕ) → (ltb 0 n && leb p ((n - 1) / 65536)) ≡ ltb (p * 65536) n
first_page n p = elim (lt_or_le (p * 65536) n) [
  | inl h ↦
      rw
        (lt→ltb (p * 65536) n h, lt→ltb 0 n (omega arith), le→leb p ((n - 1) / 65536) (omega arith))
        refl
  | inr h ↦ rw (le→ltb (p * 65536) n h) (first_page-in n p h)
]

-- An access of no byte.
empty-Accessed :
    (realloc : Realloc) (mi : Meminst) (ptr offset size : ℕ)
    → IsValid mi
    → ptr + offset < 2 ^ 32
    → size ≡ 0
    → Accessed realloc mi ptr offset size (
        guard
          (not (ltb 0 (ptr + offset) && leb mi.size_in_pages ((ptr + offset - 1) / page_size)))
          etoywasmtrap
        >> ok (record { ea = ptr + offset; moved = false; mem = mi }))
empty-Accessed realloc mi ptr offset size v lt z =
    rw (first_page (ptr + offset) mi.size_in_pages)
      (elim (Bool-cases (ltb (memory_size mi) (ptr + offset))) [
        | inl e ↦ rw e λ b. ground arith
        | inr e ↦ rw e ((lt, ground arith), refl, inl z, (v, refl, omega arith, λ i. refl))
      ])

-- On a valid memory and 32-bit arguments, memory_getptr2 traps only for an access out of bounds, and is ENOMEM only where
-- the access is in bounds and realloc refuses its bytes. Otherwise the access is in bounds, its
-- address is `ptr + offset`, its bytes are allocated, and the memory is valid, of the same size and
-- with the same bytes. No assertion fails.
pub memory_getptr2-Accessed :
    (realloc : Realloc) (mi : Meminst) (ptr offset size : ℕ)
    → IsValid mi
    → ptr < 2 ^ 32
    → offset < 2 ^ 32
    → size < 2 ^ 32
    → Accessed realloc mi ptr offset size (memory_getptr2 realloc mi ptr offset size)
unfolding memory_getptr2
memory_getptr2-Accessed realloc mi ptr offset size v lp lo ls =
    rw (le→leb mi.allocated (mi.size_in_pages * page_size) v.allocated_bound)
      (elim (Bool-cases (leb offset (uint32_max - ptr))) [
        | inr e ↦ rw e λ b. ground arith
        | inl e ↦
            rw (e, small (ptr + offset) (ground arith))
              (elim (Bool-cases (size == 0)) [
                | inl z ↦
                    rw z (empty-Accessed realloc mi ptr offset size v (ground arith) (ground arith))
                | inr z ↦ rw z (elim (lt_or_le (memory_size mi) (ptr + offset + size)) [
                  | inl o ↦
                      rw
                        (getptr_bytes-out realloc mi ptr offset size v (ground arith) o
                          (ground arith))
                        λ b. omega arith
                  | inr o ↦
                      getptr_bytes-in realloc mi ptr offset size v (ground arith, o) (ground arith)
                ])
              ])
      ])
