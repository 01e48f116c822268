-- ===== src/Decode/Progress.antt =====
-- The readers of vectors go forward, and write inside of the array that they have allocated.
use wasm_doctor.Prelude.{
  Bool, ℕ, zero, suc, ◌+◌, ◌%◌, ◌^◌, ◌≤◌, ◌<◌, ◌≡◌, ◌≢◌, refl, ap, List, [], ◌∷◌, length, Result,
  ok, err, fault, Errno, ◌>>=◌, ◌>>◌, arith, lt→ltb,
}
use wasm_doctor.Leb128.{IsBytes, read_leb_u32}
use wasm_doctor.Leb128.Forward.{Behind, Gives, Gives->>=, Gives-mono, read_leb_u32-Gives}
use wasm_doctor.Endian.Decode.{le32_decode-little, le64_decode-little}
use wasm_doctor.Memory.{Realloc, resize_array}
use wasm_doctor.Memory.Arrays.{resize_array-ne-fault}
use wasm_doctor.Decode.{
  read_u32, read_u64, Reader, read_u8, read_vec_count, read_elems, read_vec_with_ctx, read_vec,
  read_vec_u32,
}

-- A reader that goes forward.
abbrev pub Forward : {A : Type 0} → Reader A → Type 0
Forward reader = (src : List ℕ) → IsBytes src → Gives (λ _ rest. Behind src rest) (reader src)

pub read_u8-Forward : Forward read_u8
unfolding read_u8
read_u8-Forward [] h = tt
read_u8-Forward (b ∷ src) (_, h) = (h, omega arith)

-- What a reader gives, and that it goes forward.
abbrev pub Reads : {A : Type 0} → (A → Type 0) → List ℕ → A → List ℕ → Type 0
Reads P src a rest = P a × Behind src rest

abbrev pub All : {A : Type 0} → (A → Type 0) → List A → Type 0
All P [] = Unit
All P (a ∷ elems) = P a × All P elems

-- `count` elements, each of at least a byte.
abbrev pub Elements : {A : Type 0} → (A → Type 0) → List ℕ → ℕ → List A → List ℕ → Type 0
Elements P src count elems rest =
    All P elems × (length elems ≡ count) × IsBytes rest × (length rest + count ≤ length src)

-- A reader whose elements satisfy a predicate.
abbrev pub Yielding : {A : Type 0} → (A → Type 0) → Reader A → Type 0
Yielding P reader = (src : List ℕ) → IsBytes src → Gives (Reads P src) (reader src)

read_elems-Elements :
    {A : Type 0} (P : A → Type 0) (read_elem : ℕ → Reader A) (total i idx count : ℕ) (src : List ℕ)
    → ((idx : ℕ) → Yielding P (read_elem idx))
    → i + count ≤ total
    → IsBytes src
    → Gives (Elements P src count) (read_elems read_elem total i idx count src)
unfolding read_elems
read_elems-Elements P read_elem total i idx zero src fw h b = (tt, refl, b, omega arith)
read_elems-Elements P read_elem total i idx (suc n) src fw h b = rw (lt→ltb i total (omega arith)) (
    Gives->>= (Reads P src) (Elements P src (suc n)) (read_elem idx src)
      (λ a rest. read_elems read_elem total (suc i) (suc idx) n rest >>= λ x. ok (a ∷ x.0, x.1))
      (fw idx src b)
      λ a rest (pa, (b', l)).
        Gives->>= (Elements P rest n) (Elements P src (suc n))
          (read_elems read_elem total (suc i) (suc idx) n rest) (λ elems end_. ok (a ∷ elems, end_))
          (read_elems-Elements P read_elem total (suc i) (suc idx) n rest fw (omega arith) b')
          λ elems end_ (q, e, b'', l'). ((pa, q), ap suc e, b'', omega arith))

pub Gives->> :
    {A : Type 0} (P : A → List ℕ → Type 0) (r : Result (Unit {0})) (next : Result (A × List ℕ))
    → r ≢ fault
    → Gives P next
    → Gives P (r >> next)
Gives->> P (ok a) next ne h = h
Gives->> P (err e) next ne h = tt
Gives->> P fault next ne h = absurd (ne refl)

zero_add : (n : ℕ) → n < 2 ^ 32 → (0 + n) % 2 ^ 32 ≡ n
zero_add n h = omega arith

-- The elements satisfy the predicate, and take a byte each at least, behind the count.
abbrev pub Vector : {A : Type 0} → (A → Type 0) → List ℕ → List A → List ℕ → Type 0
Vector P src elems rest = All P elems × Behind src rest × (length elems + length rest < length src)

-- With a reader of elements that goes forward, reading a vector into an empty array on a list of bytes
-- is an error, or goes forward and gives at most as many elements as there were bytes, each of them
-- as the reader gives them. No element is written out of the array.
pub read_vec_with_ctx-Vector :
    {A : Type 0} (P : A → Type 0) (realloc : Realloc) (elem_size : ℕ) (read_elem : ℕ → Reader A)
    (src : List ℕ)
    → 0 < elem_size
    → ((idx : ℕ) → Yielding P (read_elem idx))
    → IsBytes src
    → Gives (Vector P src) (read_vec_with_ctx realloc elem_size read_elem 0 src)
unfolding read_vec_with_ctx read_vec_count
read_vec_with_ctx-Vector P realloc k read_elem src h fw b =
    Gives->>= (λ n rest. (n < 2 ^ 32) × Behind src rest) (Vector P src) (read_leb_u32 src)
      (λ n rest.
        resize_array realloc k ((0 + n) % 2 ^ 32)
        >> read_elems read_elem ((0 + n) % 2 ^ 32) 0 0 n rest)
      (read_leb_u32-Gives src b)
      λ n rest (lt, (b', l)).
        Gives->> (Vector P src) (resize_array realloc k ((0 + n) % 2 ^ 32)) _
          (resize_array-ne-fault realloc k ((0 + n) % 2 ^ 32) h)
          (Gives-mono (Elements P rest n) (Vector P src) _
            (read_elems-Elements P read_elem ((0 + n) % 2 ^ 32) 0 0 n rest fw
              (omega (arith, zero_add n lt)) b')
            λ elems end_ (q, e, b'', l'). (q, (b'', omega arith), omega arith))

-- With a reader of elements that goes forward, and a size of elements that is not 0, `read_vec` of
-- a list of bytes is an error, or goes forward and gives fewer elements than there were bytes,
-- each of them as the reader gives them. No element is written out of the array that was
-- allocated.
pub read_vec-Vector :
    {A : Type 0} (P : A → Type 0) (realloc : Realloc) (elem_size : ℕ) (read_elem : Reader A)
    (src : List ℕ)
    → 0 < elem_size
    → Yielding P read_elem
    → IsBytes src
    → Gives (Vector P src) (read_vec realloc elem_size read_elem src)
unfolding read_vec
read_vec-Vector P realloc k read_elem src h fw b =
    read_vec_with_ctx-Vector P realloc k (λ _. read_elem) src h (λ _. fw) b

-- Numbers of 32 bits.
abbrev pub IsWord : ℕ → Type 0
IsWord n = n < 2 ^ 32

pub read_vec_u32-Vector :
    (realloc : Realloc) (src : List ℕ)
    → IsBytes src
    → Gives (Vector IsWord src) (read_vec_u32 realloc src)
unfolding read_vec_u32
read_vec_u32-Vector realloc src b =
    read_vec-Vector IsWord realloc 4 read_leb_u32 src (omega arith) read_leb_u32-Gives b

pub read_vec_count-Gives : Yielding IsWord read_vec_count
unfolding read_vec_count
read_vec_count-Gives = read_leb_u32-Gives

-- A refusal.
abbrev pub IsRefused : {A : Type 0} → Result A → Type 0
IsRefused r = (e : Errno) × (r ≡ err e)

refused :
    {A : Type 0} (P : A → Type 0) (src : List ℕ) (n : ℕ) (r : Result (List A × List ℕ))
    → Gives (Elements P src n) r
    → length src < n
    → IsRefused r
refused P src n (ok (elems, rest)) (_, _, _, l) h = absurd (omega arith)
refused P src n (err e) g h = (e, refl)
refused P src n fault g h = absurd g

IsRefused-then :
    {A : Type 0} (r : Result (Unit {0})) (next : Result A)
    → r ≢ fault
    → IsRefused next
    → IsRefused (r >> next)
IsRefused-then (ok a) next ne h = h
IsRefused-then (err e) next ne h = (e, refl)
IsRefused-then fault next ne h = absurd (ne refl)

-- With a reader of elements that goes forward, and a size of elements that is not 0, a vector whose
-- count is more than the bytes behind it, on a list of bytes, is refused by `read_vec`.
pub read_vec-IsRefused :
    {A : Type 0} (P : A → Type 0) (realloc : Realloc) (elem_size : ℕ) (read_elem : Reader A)
    (src : List ℕ) (n : ℕ) (rest : List ℕ)
    → 0 < elem_size
    → Yielding P read_elem
    → IsBytes src
    → read_vec_count src ≡ ok (n, rest)
    → length rest < n
    → IsRefused (read_vec realloc elem_size read_elem src)
unfolding read_vec read_vec_with_ctx
read_vec-IsRefused P realloc k read_elem src n rest h fw b e lt =
    let g : Gives (Reads IsWord src) (ok (n, rest)) = rw e at (read_vec_count-Gives src b) in
    rw e (
      IsRefused-then (resize_array realloc k ((0 + n) % 2 ^ 32)) _
        (resize_array-ne-fault realloc k ((0 + n) % 2 ^ 32) h)
        (refused P rest n (read_elems (λ _. read_elem) ((0 + n) % 2 ^ 32) 0 0 n rest)
          (read_elems-Elements P (λ _. read_elem) ((0 + n) % 2 ^ 32) 0 0 n rest (λ _. fw)
            (omega (arith, zero_add n g.0)) g.1.0)
          lt))

-- The readers of fixed-size numbers.
pub read_u32-Forward : (big : Bool) → Forward (read_u32 big)
unfolding read_u32
read_u32-Forward big (a ∷ b ∷ c ∷ d ∷ rest) (ha, (hb, (hc, (hd, h)))) =
    rw (le32_decode-little big a b c d [] (ha, (hb, (hc, (hd, tt))))) (h, omega arith)
read_u32-Forward big [] h = tt
read_u32-Forward big (a ∷ []) h = tt
read_u32-Forward big (a ∷ b ∷ []) h = tt
read_u32-Forward big (a ∷ b ∷ c ∷ []) h = tt

pub read_u64-Forward : (big : Bool) → Forward (read_u64 big)
unfolding read_u64
read_u64-Forward big (a ∷ b ∷ c ∷ d ∷ e ∷ f ∷ g ∷ i ∷ rest)
      (ha, (hb, (hc, (hd, (he, (hf, (hg, (hi, h)))))))) =
    rw
      (le64_decode-little big a b c d e f g i [] (ha, (hb, (hc, (hd, (he, (hf, (hg, (hi, tt)))))))))
      (h, omega arith)
read_u64-Forward big [] h = tt
read_u64-Forward big (a ∷ []) h = tt
read_u64-Forward big (a ∷ b ∷ []) h = tt
read_u64-Forward big (a ∷ b ∷ c ∷ []) h = tt
read_u64-Forward big (a ∷ b ∷ c ∷ d ∷ []) h = tt
read_u64-Forward big (a ∷ b ∷ c ∷ d ∷ e ∷ []) h = tt
read_u64-Forward big (a ∷ b ∷ c ∷ d ∷ e ∷ f ∷ []) h = tt
read_u64-Forward big (a ∷ b ∷ c ∷ d ∷ e ∷ f ∷ g ∷ []) h = tt
