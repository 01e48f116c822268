-- ===== src/Memory.antt =====
-- lib/exec_insn_subr.c: linear memories and the bounds of tables, as the build without threads has
-- them. A memory's bytes are a function of the address, read below `allocated` only; resize_array
-- of lib/util.c is on a host with a 64-bit size_t. What realloc answers is the environment's.
pub mod Bounds
pub mod Grow
pub mod Init
pub mod Arrays
mod Tests
use wasm_doctor.Prelude.{
  ℕ, ◌+◌, ◌-◌, ◌*◌, ◌/◌, ◌%◌, ◌^◌, Bool, true, false, not, ◌&&◌, ◌||◌, ltb, leb, ◌==◌,
  if◌then◌else◌, Result, ok, err, fault, enomem, eoverflow, etoywasmtrap, guard, assert, ◌>>=◌,
  ◌>>◌,
}

abbrev pub page_size : ℕ
page_size = 65536

abbrev pub uint32_max : ℕ
uint32_max = 2 ^ 32 - 1

-- struct meminst, with `max` for its type's `lim.max`.
pub record Meminst : Type 0 where
  pub bytes : ℕ → ℕ
  pub allocated : ℕ
  pub size_in_pages : ℕ
  pub max : ℕ

-- Whether realloc finds that many bytes.
abbrev pub Realloc : Type 0
Realloc = ℕ → Bool

-- resize_array, less the pointer.
pub resize_array : Realloc → ℕ → ℕ → Result (Unit {0})
resize_array realloc elem_size new_elem_count = do
  assert (ltb 0 elem_size)
  let bytesize = (elem_size * new_elem_count) % 2 ^ 64
  guard (bytesize / elem_size == new_elem_count) eoverflow
  guard (bytesize == 0 || realloc bytesize) enomem

-- Extend the allocation with zeros.
abbrev pub extend : ℕ → Meminst → Meminst
extend need mi = record mi {
  bytes = λ i. if leb mi.allocated i && ltb i need then 0 else mi.bytes i;
  allocated = need;
}

-- What memory_getptr2 stores: the address, and whether the data may have moved.
pub record Access : Type 0 where
  pub ea : ℕ
  pub moved : Bool
  pub mem : Meminst

-- The end of memory_getptr2, for an access that is not empty.
pub getptr_bytes : Realloc → Meminst → ℕ → ℕ → Result Access
unfolding resize_array
getptr_bytes realloc mi ea size = do
  guard (leb (size - 1) (uint32_max - ea)) etoywasmtrap
  let last_byte = (ea + (size - 1)) % 2 ^ 32
  if ltb last_byte mi.allocated then ok (record { ea = ea; moved = false; mem = mi }) else (do
    let need_in_pages = (last_byte / page_size + 1) % 2 ^ 32
    guard (leb need_in_pages mi.size_in_pages) etoywasmtrap
    let need = last_byte + 1
    assert (ltb mi.allocated need)
    resize_array realloc need 1
    ok (record { ea = ea; moved = true; mem = extend need mi }))

pub memory_getptr2 : Realloc → Meminst → ℕ → ℕ → ℕ → Result Access
unfolding getptr_bytes
memory_getptr2 realloc mi ptr offset size = do
  assert (leb mi.allocated (mi.size_in_pages * page_size))
  guard (leb offset (uint32_max - ptr)) etoywasmtrap
  let ea = (ptr + offset) % 2 ^ 32
  if size == 0
      then (do
        guard (not (ltb 0 ea && leb mi.size_in_pages ((ea - 1) / page_size))) etoywasmtrap
        ok (record { ea = ea; moved = false; mem = mi }))
      else getptr_bytes realloc mi ea size

-- memcpy into the memory, of bytes that `src` gives.
abbrev pub store_bytes : ℕ → ℕ → (ℕ → ℕ) → Meminst → Meminst
store_bytes ea n src mi = record mi {
  bytes = λ i. if leb ea i && ltb i (ea + n) then src (i - ea) else mi.bytes i;
}

-- struct data, and its bit of `data_dropped`.
pub record Data : Type 0 where
  pub init : ℕ → ℕ
  pub init_size : ℕ
  pub dropped : Bool

pub memory_init : Realloc → Meminst → Data → ℕ → ℕ → ℕ → Result Meminst
unfolding memory_getptr2
memory_init realloc mi segment d s n = do
  guard
      (not (
        (segment.dropped && not (s == 0 && n == 0))
        || ltb segment.init_size s
        || ltb (segment.init_size - s) n))
      etoywasmtrap
  access ← memory_getptr2 realloc mi d 0 n
  ok (store_bytes access.ea n (λ i. segment.init (s + i)) access.mem)

-- table_access, on the size of the table.
pub table_access : ℕ → ℕ → ℕ → Result (Unit {0})
table_access size offset n = guard (not (ltb size offset || ltb (size - offset) n)) etoywasmtrap

-- What memory_grow_impl returns, and the memory that it leaves.
abbrev pub grow_failed : ℕ
grow_failed = 2 ^ 32 - 1

-- The reallocation of memory_grow_impl.
pub grow_realloc : Realloc → Meminst → ℕ → Result (ℕ × Meminst)
unfolding resize_array
grow_realloc realloc mi new_size = elim (resize_array realloc page_size new_size) [
  | err _ ↦ ok (grow_failed, mi)
  | fault ↦ fault
  | ok _ ↦
      assert (ltb mi.allocated (new_size * page_size))
      >> ok
          (mi.size_in_pages, record (extend (new_size * page_size) mi) { size_in_pages = new_size })
]

pub memory_grow_impl : Realloc → Meminst → ℕ → Result (ℕ × Meminst)
unfolding grow_realloc
memory_grow_impl realloc mi sz =
    let orig_size = mi.size_in_pages in
    let new_size = (orig_size + sz) % 2 ^ 32 in
    assert (leb mi.max 65536)
    >> (if ltb mi.max new_size
        then ok (grow_failed, mi)
        else if new_size == orig_size || ltb new_size 4
        then ok (orig_size, record mi { size_in_pages = new_size })
        else assert (ltb (mi.allocated / page_size) new_size) >> grow_realloc realloc mi new_size)
