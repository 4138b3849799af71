-- ===== src/Parc/Zipper.antt =====
-- A PARCBuffer as the bytes before its position and the bytes behind it. It keeps the laws, and serves the tests.
use libccnx_common.Prelude.{
  ℕ, ◌-◌, ◌≡◌, refl, sym, ap, ◌∙◌, List, [], ◌++◌, append_assoc, length, length-append, length-take,
  take, drop, take-drop, arith, leb, ltb, le→leb, ◌&&◌, if◌then◌else◌, Result, ok, trap,
}
use libccnx_common.Prelude.Segments.{take-append_right, drop-append_right, take-length}
use libccnx_common.Parc.{ParcBuffer, number_from, Reads, IsLawful}

abbrev pub Zipper : Type 0
Zipper = List ℕ × List ℕ

abbrev pub zipper_bytes : Zipper → List ℕ
zipper_bytes (before, after) = before ++ after

abbrev pub zipper_move : Zipper → ℕ → Result Zipper
zipper_move (before, after) p =
    if leb p (length (before ++ after))
    then ok (take p (before ++ after), drop p (before ++ after))
    else trap

abbrev pub zipper_limit : Zipper → ℕ → Result Zipper
zipper_limit (before, after) n =
    if leb (length before) n && leb n (length (before ++ after))
    then ok (before, take (n - length before) after)
    else trap

abbrev pub zipper_get : ℕ → Zipper → Result (ℕ × Zipper)
zipper_get n (before, after) =
    if leb n (length after)
    then ok (number_from 0 (take n after), (before ++ take n after, drop n after))
    else trap

abbrev pub zipper : ParcBuffer Zipper
zipper = record {
  position = λ z. length z.0;
  remaining = λ z. length z.1;
  has_remaining = λ z. ltb 0 (length z.1);
  set_position = zipper_move;
  set_limit = zipper_limit;
  slice = λ z. ([], z.1);
  get_uint8 = zipper_get 1;
  get_uint16 = zipper_get 2;
  get_uint32 = zipper_get 4;
  get_uint64 = zipper_get 8;
}

rest_after : (before after : List ℕ) → drop (length before) (before ++ after) ≡ after
rest_after before after = drop-append_right (length before) 0 before after (omega arith)

zipper-Reads : (n : ℕ) → Reads zipper zipper_bytes (zipper_get n) n
zipper-Reads n (before, after) ys more l e =
    let here = sym (rest_after before after) ∙ e in
    let size = ap length here ∙ length-append ys more in
    let first : take n after ≡ ys =
      ap (λ k. take n k) here ∙ ap (λ k. take k (ys ++ more)) (sym l) ∙ take-length ys more in
    (
      (before ++ take n after, drop n after),
      rw (le→leb n (length after) (omega arith))
          (ap (λ k. ok (number_from 0 k, (before ++ take n after, drop n after))) first),
      record {
        same =
            append_assoc before (take n after) (drop n after)
            ∙ ap (λ k. before ++ k) (take-drop n after);
        at = length-append before (take n after) ∙ omega (arith, length-take n after);
      },
    )

pub zipper-IsLawful : IsLawful zipper zipper_bytes
zipper-IsLawful = record {
  inside = λ (before, after). omega (arith, length-append before after);
  counts = λ (before, after). omega (arith, length-append before after);
  has_counts = λ b. refl;
  moves = λ (before, after) p h. (
    (take p (before ++ after), drop p (before ++ after)),
    rw (le→leb p (length (before ++ after)) h) refl,
    take-drop p (before ++ after),
    omega (arith, length-take p (before ++ after)),
  );
  limits = λ (before, after) n h k. (
    (before, take (n - length before) after),
    rw (le→leb (length before) n h, le→leb n (length (before ++ after)) k) refl,
    sym (take-append_right n (n - length before) before after (omega arith)),
    refl,
  );
  slices = λ (before, after). (sym (rest_after before after), refl);
  reads_8 = zipper-Reads 1;
  reads_16 = zipper-Reads 2;
  reads_32 = zipper-Reads 4;
  reads_64 = zipper-Reads 8;
}
