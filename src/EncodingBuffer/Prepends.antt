-- ===== src/EncodingBuffer/Prepends.antt =====
-- `ccnxCodecEncodingBuffer_PrependBuffer`, which moves the entries of the head with a loop that counts up.
use libccnx_common.Prelude.{◌+◌, ◌%◌, ◌^◌, ◌≡◌, refl, sym, ap, List, ◌∷◌, replicate, ok, ==_true}
use libccnx_common.EncodingBuffer.{
  ArrayBuffer, LinkedArray, EncodingBuffer, set_io_vec, entry_of, counted, shift, prepend_buffer,
  prepend_linked_array, linked_array_create, cleared, vectors,
}

module _ {B A : Type 0} where
  -- PrependBuffer on a list whose head array is full returns 0, and the vector of the buffer comes before all vectors of
  -- the list, which stay as they are.
  pub prepend_buffer-full :
      (P : ArrayBuffer B A) (list : EncodingBuffer B A) (b : B) (head : LinkedArray B A)
      (others : List (LinkedArray B A))
      → list.arrays ≡ head ∷ others
      → head.count ≡ head.capacity
      → (list' : EncodingBuffer B A) × (prepend_buffer P list b ≡ ok (0, list'))
        × (vectors list'.arrays ≡ set_io_vec P b ∷ vectors list.arrays)
  unfolding prepend_buffer prepend_linked_array linked_array_create shift vectors
  prepend_buffer-full P list b head others h k = (
    record {
      arrays =
          counted (linked_array_create 32) (entry_of P b ∷ replicate 31 cleared)
            (set_io_vec P b).iov_len
          ∷ head
          ∷ others;
      total_bytes = (list.total_bytes + (set_io_vec P b).iov_len) % 2 ^ 64;
      total_count = (list.total_count + 1) % 2 ^ 32;
    },
    rw (h, ==_true head.count head.capacity k) refl,
    ap (λ l. set_io_vec P b ∷ vectors l) (sym h),
  )
