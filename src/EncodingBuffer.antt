-- ===== src/EncodingBuffer.antt =====
-- ccnx/common/codec/ccnxCodec_EncodingBuffer.c: a list of buffers that is written out as one vector.
--
-- The linked arrays are a list, the head first: `next` and `prev` are its order, `head` and `tail` its ends.
-- The operations of PARCBuffer that the code calls belong to another library, and are parameters.
pub mod Laws
pub mod Appends
pub mod Prepends
pub mod Slice
mod Tests
use libccnx_common.Prelude.{
  ℕ, zero, suc, ◌+◌, ◌%◌, ◌^◌, List, [], ◌∷◌, ◌++◌, Bool, true, false, ◌||◌, Option, none, some,
  map, length, get_elem?, set, take, replicate, ltb, leb, ℤ, to_int, ◌==◌, if◌then◌else◌, Result,
  ok, fault, ◌>>=◌, ◌>>◌, assert, or_fault,
}

-- `parcBuffer_Array`, where a NULL is `none`, `parcBuffer_ArrayOffset`, `parcBuffer_Position` and
-- `parcBuffer_Remaining`
pub record ArrayBuffer (B A : Type 0) : Type 0 where
  pub array_of : B → Option A
  pub array_offset : B → ℕ
  pub position_of : B → ℕ
  pub remaining_of : B → ℕ

-- A struct iovec: an address is an array and an offset in it, or NULL.
pub record IoVec (A : Type 0) : Type 0 where
  pub iov_base : Option (A × ℕ)
  pub iov_len : ℕ

pub record ArrayEntry (B A : Type 0) : Type 0 where
  pub vec : IoVec A
  pub buffer : Option B

pub record LinkedArray (B A : Type 0) : Type 0 where
  pub capacity : ℕ
  pub count : ℕ
  pub bytes : ℕ
  pub array : List (ArrayEntry B A)

pub record EncodingBuffer (B A : Type 0) : Type 0 where
  pub arrays : List (LinkedArray B A)
  pub total_count : ℕ
  pub total_bytes : ℕ

abbrev pub default_capacity : ℕ
default_capacity = 32

-- The tail of the arrays, and the arrays with another one in its place.
abbrev pub last {ℓ} : {X : Type ℓ} → List X → Option X
last [] = none
last (x ∷ []) = some x
last (x ∷ y ∷ xs) = last (y ∷ xs)

abbrev pub set_last {ℓ} : {X : Type ℓ} → List X → X → List X
set_last [] z = []
set_last (x ∷ []) z = z ∷ []
set_last (x ∷ y ∷ xs) z = x ∷ set_last (y ∷ xs) z

module _ {B A : Type 0} where
  -- The memory that `parcMemory_AllocateAndClear` returns for one entry.
  abbrev pub cleared : ArrayEntry B A
  cleared = record { vec = record { iov_base = none; iov_len = 0 }; buffer = none }

  unfoldable pub linked_array_create : ℕ → LinkedArray B A
  linked_array_create capacity = record {
    capacity = capacity;
    count = 0;
    bytes = 0;
    array = replicate capacity cleared;
  }

  unfoldable pub create : EncodingBuffer B A
  create = record { arrays = []; total_count = 0; total_bytes = 0 }

  unfoldable pub append_linked_array : EncodingBuffer B A → LinkedArray B A → EncodingBuffer B A
  append_linked_array list array = record list { arrays = list.arrays ++ (array ∷ []) }

  -- The code reads `list->head->prev`, also where the head is NULL.
  unfoldable pub prepend_linked_array :
      EncodingBuffer B A → LinkedArray B A → Result (EncodingBuffer B A)
  prepend_linked_array list array = elim list.arrays [
    | [] ↦ fault
    | head ∷ more ↦ ok (record list { arrays = array ∷ head ∷ more })
  ]

  unfoldable pub set_io_vec : ArrayBuffer B A → B → IoVec A
  set_io_vec P buffer = elim (P.array_of buffer) [
    | none ↦ record { iov_base = none; iov_len = 0 }
    | some array ↦ record {
      iov_base = some (array, P.array_offset buffer + P.position_of buffer);
      iov_len = P.remaining_of buffer;
    }
  ]

  abbrev pub entry_of : ArrayBuffer B A → B → ArrayEntry B A
  entry_of P buffer = record { vec = set_io_vec P buffer; buffer = some buffer }

  -- `array[i] = entry`
  abbrev pub put_entry : List (ArrayEntry B A) → ℕ → ArrayEntry B A → Result (List (ArrayEntry B A))
  put_entry array i entry = if ltb i (length array) then ok (set array i entry) else fault

  -- The test before an array is added. There is no array where `o` is `none`.
  abbrev pub is_full : Option (LinkedArray B A) → Bool
  is_full none = true
  is_full (some a) = a.count == a.capacity

  -- The array with one more entry in `array`.
  abbrev pub counted : LinkedArray B A → List (ArrayEntry B A) → ℕ → LinkedArray B A
  counted a array n = record a {
    array = array;
    bytes = (a.bytes + n) % 2 ^ 64;
    count = (a.count + 1) % 2 ^ 32;
  }

  abbrev pub with_tail : EncodingBuffer B A → EncodingBuffer B A
  with_tail list =
      if is_full (last list.arrays)
      then append_linked_array list (linked_array_create default_capacity)
      else list

  unfoldable pub append_buffer :
      ArrayBuffer B A → EncodingBuffer B A → B → Result (ℕ × EncodingBuffer B A)
  append_buffer P list buffer = do
    tail ← or_fault (last (with_tail list).arrays)
    assert (ltb tail.count tail.capacity)
    array ← put_entry tail.array tail.count (entry_of P buffer)
    ok (
      list.total_count,
      record {
        arrays =
            set_last (with_tail list).arrays (counted tail array (set_io_vec P buffer).iov_len);
        total_bytes = (list.total_bytes + (set_io_vec P buffer).iov_len) % 2 ^ 64;
        total_count = (list.total_count + 1) % 2 ^ 32;
      },
    )

  -- `for (i ...; i < count; i++) array[i + 1] = array[i]`, with `n` rounds left
  unfoldable pub shift : ℕ → ℕ → List (ArrayEntry B A) → Result (List (ArrayEntry B A))
  shift zero i array = ok array
  shift (suc n) i array = do
    entry ← or_fault (get_elem? array i)
    array' ← put_entry array (i + 1) entry
    shift n (i + 1) array'

  abbrev pub first : List (LinkedArray B A) → Option (LinkedArray B A)
  first [] = none
  first (a ∷ more) = some a

  abbrev pub with_head : EncodingBuffer B A → Result (EncodingBuffer B A)
  with_head list =
      if is_full (first list.arrays)
      then prepend_linked_array list (linked_array_create default_capacity)
      else ok list

  unfoldable pub prepend_buffer :
      ArrayBuffer B A → EncodingBuffer B A → B → Result (ℕ × EncodingBuffer B A)
  prepend_buffer P list buffer = do
    list' ← with_head list
    head ← or_fault (first list'.arrays)
    assert (ltb head.count head.capacity)
    array ← shift head.count 0 head.array
    array' ← put_entry array 0 (entry_of P buffer)
    ok (
      head.count,
      record {
        arrays = set list'.arrays 0 (counted head array' (set_io_vec P buffer).iov_len);
        total_bytes = (list.total_bytes + (set_io_vec P buffer).iov_len) % 2 ^ 64;
        total_count = (list.total_count + 1) % 2 ^ 32;
      },
    )

  unfoldable pub size : EncodingBuffer B A → ℕ
  size list = list.total_count

  unfoldable pub byte_length : EncodingBuffer B A → ℕ
  byte_length list = list.total_bytes

  -- The entries below `count`.
  abbrev pub entries : LinkedArray B A → List (ArrayEntry B A)
  entries a = take a.count a.array

  -- What the loops of `CreateIOVec` copy to `iov`, in order.
  unfoldable pub vectors : List (LinkedArray B A) → List (IoVec A)
  vectors [] = []
  vectors (a ∷ more) = map (λ e. e.vec) (entries a) ++ vectors more

  -- `iovcnt` and `iov`. The memory has room for `totalCount` elements, and their index is an int.
  unfoldable pub create_io_vec : EncodingBuffer B A → Result (ℤ × List (IoVec A))
  create_io_vec list =
      if ltb list.total_count (length (vectors list.arrays))
        || leb (2 ^ 31) (length (vectors list.arrays))
      then fault
      else ok (to_int list.total_count, vectors list.arrays)
