-- ===== src/EncodingBuffer/Tests.antt =====
-- Encoding buffers at concrete buffers, which are lists of bytes from an offset on.
use libccnx_common.Prelude.{
  ℕ, ◌+◌, ◌≡◌, refl, List, [], ◌∷◌, ◌++◌, some, pos, ok, fault, replicate, arith,
}
use libccnx_common.EncodingBuffer.{
  ArrayBuffer, IoVec, ArrayEntry, LinkedArray, EncodingBuffer, cleared, create, set_io_vec,
  append_buffer, prepend_buffer, prepend_linked_array, vectors, size, byte_length, create_io_vec,
}
use libccnx_common.EncodingBuffer.Laws.{IsArrayValid, IsValid}
use libccnx_common.EncodingBuffer.Appends.{create_io_vec-append_buffer}

-- A buffer is the number of its array, its position and the bytes that remain.
abbrev Buffer : Type 0
Buffer = ℕ × ℕ × ℕ

abbrev buffers : ArrayBuffer Buffer ℕ
buffers = record {
  array_of = λ b. some b.0;
  array_offset = λ b. 0;
  position_of = λ b. b.1;
  remaining_of = λ b. b.2;
}

abbrev vec_at : ℕ → IoVec ℕ
vec_at n = record { iov_base = some (n, 0); iov_len = 5 }

abbrev entry_at : ℕ → ArrayEntry Buffer ℕ
entry_at n = record { vec = vec_at n; buffer = some (n, 0, 5) }

-- Two entries and room for one more.
abbrev two_entries : LinkedArray Buffer ℕ
two_entries = record {
  capacity = 3;
  count = 2;
  bytes = 10;
  array = entry_at 1 ∷ entry_at 2 ∷ cleared ∷ [];
}

two_entries-IsArrayValid : IsArrayValid two_entries
two_entries-IsArrayValid = record {
  fits = omega arith;
  narrow = omega arith;
  allocated = refl;
  summed = refl;
}

abbrev list_of_two : EncodingBuffer Buffer ℕ
list_of_two = record { arrays = two_entries ∷ []; total_count = 2; total_bytes = 10 }

list_of_two-IsValid : IsValid list_of_two
unfolding vectors
list_of_two-IsValid = record {
  each = (two_entries-IsArrayValid, tt);
  total = refl;
  bytes_total = refl;
}

create_io_vec-append_buffer_example :
    (list' : EncodingBuffer Buffer ℕ) × (vs : List (IoVec ℕ)) × (append_buffer buffers list_of_two
        (3, 0, 5)
      ≡ ok (size list_of_two, list'))
    × IsValid list'
    × (size list' ≡ size list_of_two + 1)
    × (byte_length list' ≡ byte_length list_of_two + (set_io_vec buffers (3, 0, 5)).iov_len)
    × (create_io_vec list_of_two ≡ ok (pos (size list_of_two), vs))
    × (create_io_vec list'
        ≡ ok (pos (size list_of_two + 1), vs ++ (set_io_vec buffers (3, 0, 5) ∷ [])))
unfolding size byte_length set_io_vec
create_io_vec-append_buffer_example =
    create_io_vec-append_buffer buffers list_of_two (3, 0, 5) list_of_two-IsValid (omega arith)
      (omega arith)

-- A prepend to an empty list reads through its NULL head.
prepend_to_empty : prepend_buffer buffers create (3, 0, 5) ≡ fault
unfolding prepend_buffer create prepend_linked_array
prepend_to_empty = refl

-- Array `n` holds `n` five times.
abbrev five_times : ℕ → List ℕ
five_times n = replicate 5 n
