-- ===== src/EncodingBuffer/Appends.antt =====
-- `ccnxCodecEncodingBuffer_AppendBuffer` and `ccnxCodecEncodingBuffer_CreateIOVec` on a valid encoding buffer.
use libccnx_common.Prelude.{
  pos, to_int_small, lt→leb, ℕ, ◌+◌, ◌%◌, ◌^◌, ◌≤◌, ◌<◌, ◌≡◌, refl, sym, ap, subst, ◌∙◌, inl, inr,
  List, [], ◌∷◌, ◌++◌, append_assoc, append-nil, true, length, set, ◌==◌, ok, arith, length-append,
  Bool-cases, lt→ltb, le→ltb, ==_false,
}
use libccnx_common.EncodingBuffer.{
  ArrayBuffer, IoVec, LinkedArray, EncodingBuffer, last, linked_array_create, set_io_vec, entry_of,
  counted, with_tail, is_full, append_buffer, append_linked_array, vectors, create_io_vec, size,
  byte_length,
}
use libccnx_common.EncodingBuffer.Laws.{
  lengths, IsArrayValid, AllValid, IsValid, lengths-append, vecs_of, vectors_snoc, all_split,
  all_join, last_snoc, set_last_snoc, last_cases, vecs_of-counted, counted-IsArrayValid,
}

module _ {B A : Type 0} where
  pub linked_array_create-IsArrayValid : IsArrayValid {B = B} {A = A} (linked_array_create 32)
  unfolding linked_array_create
  linked_array_create-IsArrayValid = record {
    fits = omega arith;
    narrow = omega arith;
    allocated = refl;
    summed = refl;
  }

  -- The arrays end in one that has room, and hold the same vectors.
  abbrev HasRoom : List (LinkedArray B A) → List (LinkedArray B A) → Type 0
  HasRoom before after =
      (front : List (LinkedArray B A)) × (a : LinkedArray B A) × (after ≡ front ++ (a ∷ []))
      × AllValid front
      × IsArrayValid a
      × (a.count < a.capacity)
      × (vectors front ++ vecs_of a ≡ vectors before)

  new_tail :
      (list : EncodingBuffer B A)
      → AllValid list.arrays
      → HasRoom list.arrays (append_linked_array list (linked_array_create 32)).arrays
  unfolding append_linked_array linked_array_create
  new_tail list v = (
    list.arrays,
    linked_array_create 32,
    refl,
    v,
    linked_array_create-IsArrayValid,
    omega arith,
    append-nil (vectors list.arrays),
  )

  with_tail-HasRoom :
      (list : EncodingBuffer B A)
      → AllValid list.arrays
      → HasRoom list.arrays (with_tail list).arrays
  with_tail-HasRoom list v = elim (last_cases list.arrays) [
    | inl e ↦
        let t : is_full (last list.arrays) ≡ true = ap (λ l. is_full (last l)) e in
        rw t (new_tail list v)
    | inr (front, a, e) ↦
        let l = ap is_full (ap last e ∙ last_snoc front a) in
        let (u, w) = all_split front a (subst AllValid e v) in
        elim (Bool-cases (a.count == a.capacity)) [
          | inl t ↦ rw (l ∙ t) (new_tail list v)
          | inr t ↦ rw (l ∙ t) (
            front,
            a,
            e,
            u,
            w,
            omega (arith, ==_false a.count a.capacity t, w.fits),
            sym (ap vectors e ∙ vectors_snoc front a),
          )
        ]
  ]

  vectors_bound :
      (front : List (LinkedArray B A)) (a : LinkedArray B A) (n : ℕ)
      → IsArrayValid a
      → n ≡ lengths (vectors front ++ vecs_of a)
      → a.bytes ≤ n
  vectors_bound front a n v e = omega (arith, v.summed, lengths-append (vectors front) (vecs_of a))

  -- Behind the test and the choice of the tail.
  put_at_tail :
      (P : ArrayBuffer B A) (list : EncodingBuffer B A) (b : B)
      → IsValid list
      → list.total_count + 1 < 2 ^ 32
      → list.total_bytes + (set_io_vec P b).iov_len < 2 ^ 64
      → HasRoom list.arrays (with_tail list).arrays
      → (list' : EncodingBuffer B A) × (append_buffer P list b ≡ ok (list.total_count, list'))
        × IsValid list'
        × (vectors list'.arrays ≡ vectors list.arrays ++ (set_io_vec P b ∷ []))
  unfolding append_buffer
  put_at_tail P list b v small_count small (front, a, e, u, w, room, same) =
      let n = (set_io_vec P b).iov_len in
      let fits = vectors_bound front a list.total_bytes w (v.bytes_total ∙ ap lengths (sym same)) in
      let small' : a.bytes + n < 2 ^ 64 = omega arith in
      let entry = entry_of P b in
      let a' = counted a (set a.array a.count entry) n in
      let vs : vectors (front ++ (a' ∷ [])) ≡ vectors list.arrays ++ (set_io_vec P b ∷ []) =
        vectors_snoc front a'
        ∙ ap (λ l. vectors front ++ l) (vecs_of-counted a entry w room small')
        ∙ sym (append_assoc (vectors front) (vecs_of a) (set_io_vec P b ∷ []))
        ∙ ap (λ l. l ++ (set_io_vec P b ∷ [])) same in
      (
        record {
          arrays = front ++ (a' ∷ []);
          total_bytes = (list.total_bytes + n) % 2 ^ 64;
          total_count = (list.total_count + 1) % 2 ^ 32;
        },
        rw
            (
              e,
              last_snoc front a,
              lt→ltb a.count a.capacity room,
              lt→ltb a.count (length a.array) (omega (arith, w.allocated)),
              set_last_snoc front a a',
            )
            refl,
        record {
          each = all_join front a' u (counted-IsArrayValid a entry w room small');
          total = omega (
            arith,
            v.total,
            ap length vs,
            length-append (vectors list.arrays) (set_io_vec P b ∷ []),
          );
          bytes_total = omega (
            arith,
            v.bytes_total,
            ap lengths vs,
            lengths-append (vectors list.arrays) (set_io_vec P b ∷ []),
          );
        },
        vs,
      )

  create_io_vec_lem :
      (list : EncodingBuffer B A)
      → IsValid list
      → list.total_count < 2 ^ 31
      → create_io_vec list ≡ ok (pos list.total_count, vectors list.arrays)
  unfolding create_io_vec
  create_io_vec_lem list v h =
      rw
        (
          le→ltb list.total_count (length (vectors list.arrays)) (omega (arith, v.total)),
          lt→leb (2 ^ 31) (length (vectors list.arrays)) (omega (arith, v.total)),
          to_int_small list.total_count h,
        )
        refl

  -- On a valid encoding buffer that holds fewer than 2 ^ 31 - 1 buffers, and fewer than 2 ^ 64 bytes together with
  -- the new buffer, AppendBuffer returns the number of buffers before the call. The encoding buffer is valid
  -- after it, its Size is one larger and its Length larger by the buffer's vector, and CreateIOVec returns the
  -- vectors that it returned before the call, followed by the vector of the buffer.
  pub create_io_vec-append_buffer :
      (P : ArrayBuffer B A) (list : EncodingBuffer B A) (b : B)
      → IsValid list
      → size list + 1 < 2 ^ 31
      → byte_length list + (set_io_vec P b).iov_len < 2 ^ 64
      → (list' : EncodingBuffer B A) × (vs : List (IoVec A)) × (append_buffer P list b
          ≡ ok (size list, list'))
        × IsValid list'
        × (size list' ≡ size list + 1)
        × (byte_length list' ≡ byte_length list + (set_io_vec P b).iov_len)
        × (create_io_vec list ≡ ok (pos (size list), vs))
        × (create_io_vec list' ≡ ok (pos (size list + 1), vs ++ (set_io_vec P b ∷ [])))
  unfolding size byte_length
  create_io_vec-append_buffer P list b v small_count small =
      let (list', r, v', vs) =
        put_at_tail P list b v (omega (arith, small_count)) small (with_tail-HasRoom list v.each) in
      let more = (set_io_vec P b ∷ []) in
      let counts : list'.total_count ≡ list.total_count + 1 =
        omega (arith, v.total, v'.total, ap length vs, length-append (vectors list.arrays) more) in
      (
        list',
        vectors list.arrays,
        r,
        v',
        counts,
        omega (
          arith,
          v.bytes_total,
          v'.bytes_total,
          ap lengths vs,
          lengths-append (vectors list.arrays) more,
        ),
        create_io_vec_lem list v (omega (arith, small_count)),
        create_io_vec_lem list' v' (omega (arith, small_count, counts))
            ∙ ap (λ p. ok p) (rw (counts, vs) refl),
      )
