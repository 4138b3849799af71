-- ===== src/EncodingBuffer/Slice.antt =====
-- `ccnxCodecEncodingBuffer_Slice`: the vectors of a range of the bytes.
pub mod Bytes
mod Loops
pub mod Range
use libccnx_common.Prelude.{
  ℕ, ◌+◌, ◌-◌, ◌%◌, ◌^◌, List, [], ◌∷◌, Option, none, some, Bool, ◌&&◌, ltb, leb, ◌==◌,
  if◌then◌else◌, Result, ok, ◌>>=◌,
}
use libccnx_common.EncodingBuffer.{
  IoVec, ArrayEntry, LinkedArray, EncodingBuffer, linked_array_create, put_entry, counted, entries,
  append_linked_array, create,
}

-- A number that is stored in an int, as the size_t that it is compared as: the sign is extended.
unfoldable pub int_of : ℕ → ℕ
int_of n = if ltb (n % 2 ^ 32) (2 ^ 31) then n % 2 ^ 32 else n % 2 ^ 32 + (2 ^ 64 - 2 ^ 32)

-- The variables of the loops. `total_count` and `total_bytes` are those of the new list.
pub record SliceState (B A : Type 0) : Type 0 where
  pub offset : ℕ
  pub left : ℕ
  pub position : ℕ
  pub head : LinkedArray B A
  pub total_count : ℕ
  pub total_bytes : ℕ

-- The address `skipped` bytes further.
abbrev pub base_behind : {A : Type 0} → Option (A × ℕ) → ℕ → Option (A × ℕ)
base_behind none skipped = none
base_behind (some (array, offset)) skipped = some (array, offset + skipped)

-- `remainder`: no more than `left`
unfoldable pub cut_length : ℕ → ℕ → ℕ
cut_length length left = if ltb left (int_of length) then int_of left else int_of length

module _ {B A : Type 0} where
  abbrev pub cut_entry : ArrayEntry B A → ℕ → ℕ → ArrayEntry B A
  cut_entry e skipped remainder = record {
    vec = record { iov_base = base_behind e.vec.iov_base skipped; iov_len = remainder };
    buffer = e.buffer;
  }

  abbrev pub is_inside : SliceState B A → ArrayEntry B A → Bool
  is_inside s e = leb s.position s.offset && ltb s.offset ((s.position + e.vec.iov_len) % 2 ^ 64)

  abbrev pub passed : SliceState B A → ArrayEntry B A → SliceState B A
  passed s e = record s { position = int_of ((s.position + e.vec.iov_len) % 2 ^ 64) }

  abbrev pub taken : SliceState B A → ArrayEntry B A → ℕ → List (ArrayEntry B A) → SliceState B A
  taken s e remainder array = record {
    offset = (s.offset + remainder) % 2 ^ 64;
    left = (s.left + (2 ^ 64 - remainder)) % 2 ^ 64;
    position = int_of ((s.position + e.vec.iov_len) % 2 ^ 64);
    head = counted s.head array remainder;
    total_count = (s.total_count + 1) % 2 ^ 32;
    total_bytes = (s.total_bytes + remainder) % 2 ^ 64;
  }

  unfoldable pub slice_entry : SliceState B A → ArrayEntry B A → Result (SliceState B A)
  slice_entry s e =
      if is_inside s e
      then (do
        array ← put_entry s.head.array s.head.count (
            cut_entry e (s.offset - s.position)
              (cut_length (e.vec.iov_len - (s.offset - s.position)) s.left))
        ok (taken s e (cut_length (e.vec.iov_len - (s.offset - s.position)) s.left) array))
      else ok (passed s e)

  -- The inner loop, over the entries below `count`.
  unfoldable pub slice_entries : List (ArrayEntry B A) → SliceState B A → Result (SliceState B A)
  slice_entries [] s = ok s
  slice_entries (e ∷ es) s =
      if s.left == 0 then ok s else (do s' ← slice_entry s e; slice_entries es s')

  -- The outer loop, over the arrays.
  unfoldable pub slice_arrays : List (LinkedArray B A) → SliceState B A → Result (SliceState B A)
  slice_arrays [] s = ok s
  slice_arrays (a ∷ more) s =
      if s.left == 0 then ok s else (do s' ← slice_entries (entries a) s; slice_arrays more s')

  abbrev pub slice_start : EncodingBuffer B A → ℕ → ℕ → SliceState B A
  slice_start list offset length = record {
    offset = offset;
    left = length;
    position = 0;
    head = linked_array_create list.total_count;
    total_count = 0;
    total_bytes = 0;
  }

  abbrev pub sliced : SliceState B A → EncodingBuffer B A
  sliced s = record {
    arrays = s.head ∷ [];
    total_count = s.total_count;
    total_bytes = s.total_bytes;
  }

  -- An empty slice is released, and NULL returned.
  unfoldable pub slice : EncodingBuffer B A → ℕ → ℕ → Result (Option (EncodingBuffer B A))
  slice list offset length = do
    s ← slice_arrays list.arrays (slice_start list offset length)
    ok (if s.total_count == 0 then none else some (sliced s))
