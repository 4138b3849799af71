-- ===== src/SchemaV1/FixedHeader/Reads.antt =====
-- What the decoder of the fixed header does with eight bytes.
use libccnx_common.Prelude.{
  ℕ, ◌+◌, ◌*◌, ◌≤◌, ◌≡◌, refl, sym, ap, subst, ◌∙◌, true, List, [], ◌∷◌, ◌++◌, length, drop, arith,
  Result, ok, le→leb,
}
use libccnx_common.Parc.{ParcBuffer, number_from, rest, IsAdvanced, Reads, IsLawful}
use libccnx_common.Parc.Laws.{remaining-rest}
use libccnx_common.Decoder.{TlvDecoder, ensure_remaining}
use libccnx_common.Decoder.Tlv.{get_value_lem}
use libccnx_common.Dictionary.{Values, Dictionary, unset, buffer, integer, entry_at}
use libccnx_common.Dictionary.FastArray.{
  IsValid, with_slot, put_entry, put_entry_lem, entry_at-after_put, after_put-IsValid,
}
use libccnx_common.SchemaV1.{headers_fixed_header, headers_interest_return_code, message_hoplimit}
use libccnx_common.SchemaV1.FixedHeader.{read_at, validate, decode}

module _ {B : Type 0} (P : ParcBuffer B) (bytes : B → List ℕ) (p : IsLawful P bytes) where
  pub read_at_lem :
      (width : ℕ) (get : B → Result (ℕ × B)) (b : B) (offset value : ℕ) (xs ys more : List ℕ)
      → Reads P bytes get width
      → bytes b ≡ xs
      → offset ≤ length xs
      → drop offset xs ≡ ys ++ more
      → length ys ≡ width
      → number_from 0 ys ≡ value
      → (b' : B) × (read_at P b offset get ≡ ok (value, b')) × (bytes b' ≡ xs)
  unfolding read_at
  read_at_lem width get b offset value xs ys more r e h d l v =
      let (c, q, s, t) = p.moves b offset (subst (λ k. offset ≤ length k) (sym e) h) in
      let (b', q', a) =
        r c ys more l (ap (λ k. drop k (bytes c)) t ∙ ap (λ k. drop offset k) (s ∙ e) ∙ d) in
      (b', rw (q, q') (ap (λ k. ok (k, b')) v), a.same ∙ s ∙ e)

-- No entry for the header yet.
pub record IsFresh {V : Values} (d : Dictionary V) : Type 0 where
  pub valid : IsValid d
  pub header : entry_at d headers_fixed_header ≡ ok unset
  pub hoplimit : entry_at d message_hoplimit ≡ ok unset
  pub return_code : entry_at d headers_interest_return_code ≡ ok unset

module _ {V : Values} where
  -- The dictionary with the entries of a header.
  abbrev pub with_header : Dictionary V → V.Buffer → ℕ → ℕ → Dictionary V
  with_header d b hop_limit return_code =
      with_slot
        (with_slot (with_slot d headers_fixed_header (buffer b)) message_hoplimit
          (integer hop_limit))
        headers_interest_return_code (integer return_code)

  -- The puts of a header.
  puts_lem :
      (d : Dictionary V) (b : V.Buffer) (hop_limit return_code : ℕ)
      → IsFresh d
      → (put_entry d headers_fixed_header (buffer b)
          ≡ ok (with_slot d headers_fixed_header (buffer b), true))
        × (put_entry
              (with_slot d headers_fixed_header (buffer b))
              message_hoplimit
              (integer hop_limit)
            ≡ ok (
              with_slot
                  (with_slot d headers_fixed_header (buffer b))
                  message_hoplimit
                  (integer hop_limit),
              true,
            ))
        × (put_entry
              (with_slot
                (with_slot d headers_fixed_header (buffer b))
                message_hoplimit
                (integer hop_limit))
              headers_interest_return_code
              (integer return_code)
            ≡ ok (with_header d b hop_limit return_code, true))
  puts_lem d b hop_limit return_code f =
      let read1 =
        λ (j : ℕ). entry_at-after_put headers_fixed_header j (buffer b) f.valid f.header in
      let v1 = after_put-IsValid headers_fixed_header unset (buffer b) f.valid in
      let at27 = read1 message_hoplimit ∙ f.hoplimit in
      let read2 = λ (j : ℕ). entry_at-after_put message_hoplimit j (integer hop_limit) v1 at27 in
      (
        put_entry_lem d headers_fixed_header unset (buffer b) f.header,
        put_entry_lem _ message_hoplimit unset (integer hop_limit) at27,
        put_entry_lem _ headers_interest_return_code unset (integer return_code) (
            read2 headers_interest_return_code
            ∙ read1 headers_interest_return_code
            ∙ f.return_code),
      )

module _ {V : Values} (P : ParcBuffer V.Buffer) (bytes : V.Buffer → List ℕ)
    (p : IsLawful P bytes) where
  -- On eight bytes at least, and a dictionary with no entries of a header, Decode validates the version and the
  -- two lengths, whatever the result stores the header, its hop limit and its return code, and the decoder is
  -- behind the eight bytes.
  pub decode-header :
      (decoder : TlvDecoder V.Buffer) (d : Dictionary V) (v t l1 l0 h r f n : ℕ) (more : List ℕ)
      → IsFresh d
      → rest P bytes decoder.buffer ≡ v ∷ t ∷ l1 ∷ l0 ∷ h ∷ r ∷ f ∷ n ∷ more
      → (b : V.Buffer) × (c : V.Buffer) × (decode P decoder d
          ≡ ok (
            (validate (record decoder { buffer = c }) true v (l1 * 256 + l0) n).1,
            (validate (record decoder { buffer = c }) true v (l1 * 256 + l0) n).0,
            with_header d b h r,
          ))
        × (bytes b ≡ v ∷ t ∷ l1 ∷ l0 ∷ h ∷ r ∷ f ∷ n ∷ [])
        × IsAdvanced P bytes decoder.buffer 8 c
  unfolding decode ensure_remaining put_entry
  decode-header decoder d v t l1 l0 h r f n more x e =
      let xs : List ℕ = v ∷ t ∷ l1 ∷ l0 ∷ h ∷ r ∷ f ∷ n ∷ [] in
      let m = remaining-rest P bytes p decoder.buffer ∙ ap length e in
      let (w, (c, q, a), s, _) = get_value_lem P bytes p decoder xs more e in
      let (b1, q1, s1) =
        read_at_lem P bytes p 1 P.get_uint8 w 0 v xs (v ∷ []) (drop 1 xs) p.reads_8 s (omega arith)
          refl refl (omega arith) in
      let (b2, q2, s2) =
        read_at_lem P bytes p 2 P.get_uint16 b1 2 (l1 * 256 + l0) xs (l1 ∷ l0 ∷ []) (drop 4 xs)
          p.reads_16 s1 (omega arith) refl refl (omega arith) in
      let (b3, q3, s3) =
        read_at_lem P bytes p 1 P.get_uint8 b2 5 r xs (r ∷ []) (drop 6 xs) p.reads_8 s2
          (omega arith) refl refl (omega arith) in
      let (b4, q4, s4) =
        read_at_lem P bytes p 1 P.get_uint8 b3 4 h xs (h ∷ []) (drop 5 xs) p.reads_8 s3
          (omega arith) refl refl (omega arith) in
      let (b5, q5, s5) =
        read_at_lem P bytes p 1 P.get_uint8 b4 7 n xs (n ∷ []) [] p.reads_8 s4 (omega arith) refl
          refl (omega arith) in
      let (z1, z2, z3) = puts_lem d b5 h r x in
      (
        b5,
        c,
        rw
            (
              le→leb 8 (P.remaining decoder.buffer) (omega (arith, m)),
              q,
              q1,
              q2,
              q3,
              q4,
              q5,
              z1,
              z2,
              z3,
            )
            refl,
        s5,
        a,
      )
