-- ===== src/EncodingBuffer/Slice/Loops.antt =====
-- The loop of `ccnxCodecEncodingBuffer_Slice` over entries, which copies a range of their bytes.
use libccnx_common.Prelude.{
  ℕ, suc, ◌+◌, ◌-◌, ◌%◌, ◌^◌, ◌≤◌, ◌<◌, ◌≡◌, refl, sym, ap, subst, ◌∙◌, inl, inr, List, [], ◌∷◌,
  ◌++◌, append_assoc, append-nil, length, take, drop, leb, ◌==◌, ok, arith, length-drop, Bool-cases,
  leb→le, ==_iff, ==_false,
}
use libccnx_common.Prelude.Segments.{take-append_left, take-all, drop-append, drop-nil}
use libccnx_common.EncodingBuffer.{ArrayEntry}
use libccnx_common.EncodingBuffer.Laws.{vecs_of, lengths}
use libccnx_common.EncodingBuffer.Slice.{SliceState, passed, slice_entry, slice_entries}
use libccnx_common.EncodingBuffer.Slice.Bytes.{
  take_long, drop_long, bytes_of, flat, AllInside, vecs, IsReady, passed_lem, passed-IsReady, cut,
  taken_lem, cut_left, cut_bytes, cut-IsReady, cut_gap, Sliced, slice_done, slice_step,
}

module _ {A : Type 0} (view : A → List ℕ) {B : Type 0} where
  -- The range ends in this entry.
  last_entry :
      (s : SliceState B A) (e : ArrayEntry B A) (es : List (ArrayEntry B A)) (l : ℕ)
      → IsReady view s (suc (length es)) (e.vec.iov_len + l)
      → AllInside view (vecs view (e ∷ es))
      → 0 < s.left
      → s.offset < s.position + e.vec.iov_len
      → s.left ≤ e.vec.iov_len - (s.offset - s.position)
      → (s' : SliceState B A) × Sliced view s (e ∷ es) s'
  last_entry s e es l r (i, _) h t m =
      let k = s.offset - s.position in
      let (valid, bytes) = cut_bytes view s e (length es) l s.left r (omega (arith, r.behind)) in
      let step =
        subst (λ x. slice_entry s e ≡ ok (cut view s e x)) {y = s.left} (omega arith)
          (taken_lem view s e (length es) l r t) in
      (
        cut view s e s.left,
        (
          slice_step view s (cut view s e s.left) e es h step
              ∙ slice_done view (cut view s e s.left) es
                  (cut_left view s e s.left (omega arith) (omega (arith, r.ends)) ∙ omega arith),
          valid,
          ap (λ c. (c + 1) % 2 ^ 32) r.counts,
          bytes
              ∙ ap (λ x. flat view (vecs_of s.head) ++ x)
                  (sym (
                    ap (take s.left) (
                      drop-append k (bytes_of view e.vec) (flat view (vecs view es))
                        (omega (arith, i, r.behind)))
                    ∙ take-append_left s.left (drop k (bytes_of view e.vec))
                        (flat view (vecs view es))
                        (omega (arith, length-drop k (bytes_of view e.vec), i)))),
        ),
      )

  -- The range begins behind this entry.
  passed_entry :
      (s s' : SliceState B A) (e : ArrayEntry B A) (es : List (ArrayEntry B A)) (l : ℕ)
      → IsReady view s (suc (length es)) (e.vec.iov_len + l)
      → AllInside view (vecs view (e ∷ es))
      → 0 < s.left
      → s.position + e.vec.iov_len ≤ s.offset
      → Sliced view (passed s e) es s'
      → Sliced view s (e ∷ es) s'
  passed_entry s s' e es l r (i, _) h t (run, valid, counts, bytes) =
      let (step, at) = passed_lem view s e (length es) l r t in
      let F = flat view (vecs view es) in
      (
        slice_step view s (passed s e) e es h step ∙ run,
        valid,
        counts,
        bytes
            ∙ ap (λ x. flat view (vecs_of s.head) ++ take s.left x)
                (ap (λ n. drop n F) {y = (s.offset - s.position) - length (bytes_of view e.vec)}
                    (omega (arith, at, i))
                  ∙ sym (
                      drop_long (s.offset - s.position) (bytes_of view e.vec) F
                        (omega (arith, i)))),
      )

  -- The range goes on behind this entry.
  whole_entry :
      (s s' : SliceState B A) (e : ArrayEntry B A) (es : List (ArrayEntry B A)) (l : ℕ)
      → IsReady view s (suc (length es)) (e.vec.iov_len + l)
      → AllInside view (vecs view (e ∷ es))
      → 0 < s.left
      → s.offset < s.position + e.vec.iov_len
      → e.vec.iov_len - (s.offset - s.position) ≤ s.left
      → IsReady view (cut view s e (e.vec.iov_len - (s.offset - s.position))) (length es) l
      → Sliced view (cut view s e (e.vec.iov_len - (s.offset - s.position))) es s'
      → Sliced view s (e ∷ es) s'
  whole_entry s s' e es l r (i, _) h t m next (run, valid, counts, bytes) =
      let k = s.offset - s.position in
      let n = e.vec.iov_len - k in
      let B' = drop k (bytes_of view e.vec) in
      let F = flat view (vecs view es) in
      let s₁ = cut view s e n in
      let long : length B' ≡ n = omega (arith, length-drop k (bytes_of view e.vec), i) in
      let (_, first) = cut_bytes view s e (length es) l n r (omega (arith, r.behind)) in
      let step =
        subst (λ x. slice_entry s e ≡ ok (cut view s e x)) {y = n} (omega arith)
          (taken_lem view s e (length es) l r t) in
      let start : s₁.offset - s₁.position ≡ 0 = cut_gap view s e (length es) l r t m in
      (
        slice_step view s s₁ e es h step ∙ run,
        valid,
        counts,
        bytes
            ∙ ap (λ x. x ++ take s₁.left (drop (s₁.offset - s₁.position) F))
                (first
                  ∙ ap (λ x. flat view (vecs_of s.head) ++ x) (take-all n B' (omega (arith, long))))
            ∙ append_assoc (flat view (vecs_of s.head)) B'
                (take s₁.left (drop (s₁.offset - s₁.position) F))
            ∙ ap (λ x. flat view (vecs_of s.head) ++ x)
                (ap (λ d. B' ++ take s₁.left (drop d F)) start
                  ∙ ap (λ d. B' ++ take d F) {y = s.left - length B'}
                      (cut_left view s e n m (omega (arith, r.ends)) ∙ omega (arith, long))
                  ∙ sym (take_long s.left B' F (omega (arith, long)))
                  ∙ sym (
                      ap (take s.left)
                        (drop-append k (bytes_of view e.vec) F (omega (arith, i, r.behind))))),
      )

  pub slice_entries_lem :
      (es : List (ArrayEntry B A)) (s : SliceState B A)
      → IsReady view s (length es) (lengths (vecs view es))
      → AllInside view (vecs view es)
      → (s' : SliceState B A) × Sliced view s es s'
  unfolding slice_entries
  slice_entries_lem [] s r i = (
    s,
    (
      refl,
      r.valid,
      r.counts,
      sym (
          ap (λ x. flat view (vecs_of s.head) ++ take s.left x) (drop-nil (s.offset - s.position))
          ∙ ap (λ x. flat view (vecs_of s.head) ++ x) (take-all s.left [] (omega arith))
          ∙ append-nil (flat view (vecs_of s.head))),
    ),
  )
  slice_entries_lem (e ∷ es) s r (i, is) = elim (Bool-cases (s.left == 0)) [
    | inl z ↦
        let q : s.left ≡ 0 = (==_iff s.left 0).0 z in
        (
          s,
          (
            slice_done view s (e ∷ es) q,
            r.valid,
            r.counts,
            sym (
                ap
                  (λ n.
                    flat view (vecs_of s.head)
                    ++ take n (drop (s.offset - s.position) (flat view (vecs view (e ∷ es)))))
                  q
                ∙ append-nil (flat view (vecs_of s.head))),
          ),
        )
    | inr z ↦
        let h : 0 < s.left = omega (arith, ==_false s.left 0 z) in
        let l = lengths (vecs view es) in
        let n = e.vec.iov_len - (s.offset - s.position) in
        elim (Bool-cases (leb (s.position + e.vec.iov_len) s.offset)) [
          | inl t ↦
              let t' = leb→le (s.position + e.vec.iov_len) s.offset t in
              let (s', q) =
                slice_entries_lem es (passed s e) (passed-IsReady view s e (length es) l r t') is in
              (s', passed_entry s s' e es l r (i, is) h t' q)
          | inr t ↦
              let t' : s.offset < s.position + e.vec.iov_len = ground arith in
              elim (Bool-cases (leb s.left n)) [
                | inl m ↦ last_entry s e es l r (i, is) h t' (leb→le s.left n m)
                | inr m ↦
                    let m' : n ≤ s.left = ground arith in
                    let next = cut-IsReady view s e (length es) l r t' m' in
                    let (s', q) = slice_entries_lem es (cut view s e n) next is in
                    (s', whole_entry s s' e es l r (i, is) h t' m' next q)
              ]
        ]
  ]
