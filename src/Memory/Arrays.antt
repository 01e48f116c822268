-- ===== src/Memory/Arrays.antt =====
-- resize_array of lib/util.c, for the arrays of other components.
use wasm_doctor.Prelude.{
  ℕ, ◌*◌, ◌/◌, ◌%◌, ◌^◌, ◌<◌, ◌≢◌, Bool-cases, inl, inr, lt→ltb, ◌||◌, ◌==◌, fault,
}
use wasm_doctor.Memory.{Realloc, resize_array}

pub resize_array-ne-fault :
    (realloc : Realloc) (elem_size new_elem_count : ℕ)
    → 0 < elem_size
    → resize_array realloc elem_size new_elem_count ≢ fault
unfolding resize_array
resize_array-ne-fault realloc k n h =
    let bytesize = (k * n) % 2 ^ 64 in
    elim (Bool-cases (bytesize / k == n)) [
      | inr e ↦ rw (lt→ltb 0 k h, e) (λ p. cc)
      | inl e ↦ elim (Bool-cases (bytesize == 0 || realloc bytesize)) [
        | inr e' ↦ rw (lt→ltb 0 k h, e, e') (λ p. cc)
        | inl e' ↦ rw (lt→ltb 0 k h, e, e') (λ p. cc)
      ]
    ]
