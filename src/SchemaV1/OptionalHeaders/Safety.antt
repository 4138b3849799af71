-- ===== src/SchemaV1/OptionalHeaders/Safety.antt =====
-- The decoder of the optional headers on any bytes.
use libccnx_common.Prelude.{
  ℕ, zero, suc, ◌+◌, ◌*◌, ◌%◌, ◌^◌, ◌≤◌, ◌<◌, ◌≡◌, refl, sym, ap, subst, List, length, take, drop,
  take-drop, length-take, arith, Bool, true, false, inl, inr, some, ◌&&◌, leb, Bool-cases, ◌==◌,
  Result, ok,
}
use libccnx_common.Parc.{ParcBuffer, rest, number_from, IsLawful}
use libccnx_common.Parc.Laws.{remaining-rest}
use libccnx_common.Decoder.{
  TlvDecoder, get_value, get_var_int, buffer_to_var_int, read_bytes, set_error, has_error, position,
}
use libccnx_common.Errors.{CodecError, err_decode}
use libccnx_common.Errors
use libccnx_common.Decoder.Tlv.{get_value_lem}
use libccnx_common.Dictionary.{Values, Dictionary, Entry, buffer, integer}
use libccnx_common.Dictionary.FastArray.{
  IsValid, put_entry, after_put, accepts, entry_at_ok, put_entry_lem, after_put-IsValid,
}
use libccnx_common.Dictionary.Lists.{put_list_buffer}
use libccnx_common.Dictionary.Lists.Laws.{list_get-put}
use libccnx_common.Utilities.Decode.{put_as_buffer, put_as_integer, put_as_list_buffer}
use libccnx_common.Utilities.Loop.{IsForward, decode_container-returns}
use libccnx_common.SchemaV1.OptionalHeaders.{
  put_header, decode_header_type, decode_optional_headers,
}

module _ {B : Type 0} (P : ParcBuffer B) (bytes : B → List ℕ) (p : IsLawful P bytes) where
  -- A value of any bytes that are left.
  value_any :
      (decoder : TlvDecoder B) (n : ℕ)
      → n ≤ P.remaining decoder.buffer
      → (w : B) × (b : B) × (get_value P decoder n ≡ ok (some w, record decoder { buffer = b }))
        × (P.remaining b ≤ P.remaining decoder.buffer)
  value_any decoder n h =
      let xs = rest P bytes decoder.buffer in
      let l : length (take n xs) ≡ n =
        omega (arith, length-take n xs, remaining-rest P bytes p decoder.buffer) in
      let (w, (b, q, a), _, _) =
        get_value_lem P bytes p decoder (take n xs) (drop n xs) (sym (take-drop n xs)) in
      (
        w,
        b,
        subst (λ k. get_value P decoder k ≡ ok (some w, record decoder { buffer = b })) l q,
        omega (arith, p.counts b, p.counts decoder.buffer, ap length a.same, a.at),
      )

  byte_any :
      (b : B)
      → 1 ≤ P.remaining b
      → (x : ℕ) × (b' : B) × (P.get_uint8 b ≡ ok (x, b')) × (P.remaining b' + 1 ≡ P.remaining b)
  byte_any b h =
      let xs = rest P bytes b in
      let (b', q, a) =
        p.reads_8 b (take 1 xs) (drop 1 xs)
          (omega (arith, length-take 1 xs, remaining-rest P bytes p b)) (sym (take-drop 1 xs)) in
      (
        number_from 0 (take 1 xs),
        b',
        q,
        omega (arith, p.counts b, p.counts b', ap length a.same, a.at),
      )

  -- The loop of the integers, on any bytes.
  bytes_any :
      (n value : ℕ) (b : B)
      → n ≤ P.remaining b
      → (v : ℕ) × (b' : B) × (read_bytes P n b value ≡ ok (v, b'))
        × (P.remaining b' ≤ P.remaining b)
  unfolding read_bytes
  bytes_any zero value b h = (value, b, refl, omega arith)
  bytes_any (suc n) value b h =
      let (x, b1, q, m) = byte_any b (omega arith) in
      let (v, b2, r, k) = bytes_any n (value * 256 % 2 ^ 64 + x) b1 (omega arith) in
      (v, b2, rw (q, r) refl, omega arith)

set_error_buffer :
    {B : Type 0} (d : TlvDecoder B) (e : CodecError) → ((set_error d e).0).buffer ≡ d.buffer
unfolding set_error
set_error_buffer d e = elim (Bool-cases (has_error d)) [ inl t ↦ rw t refl | inr t ↦ rw t refl ]

-- The arrays have their sizes, and the keys and the list of the headers are among them.
pub record IsReady {V : Values} (d : Dictionary V) : Type 0 where
  pub valid : IsValid d
  pub keys : 13 ≤ d.fast_array_size
  pub lists : 0 < d.list_size

module _ {V : Values} where
  put_any :
      (d : Dictionary V) (key : ℕ) (e : Entry V)
      → IsReady d
      → key < 13
      → (d' : Dictionary V) × (s : Bool) × (put_entry d key e ≡ ok (d', s)) × IsReady d'
  put_any d key e r h =
      let (old, _, q) = entry_at_ok key r.valid (omega (arith, r.keys)) in
      elim (Bool-cases (accepts old e)) [
        | inl t ↦
            let v = after_put-IsValid key old e r.valid in
            (
              after_put d key old e,
              accepts old e,
              put_entry_lem d key old e q,
              record { valid = v; keys = rw t r.keys; lists = rw t r.lists },
            )
        | inr t ↦ (after_put d key old e, accepts old e, put_entry_lem d key old e q, rw t r)
      ]

module _ {V : Values} where
  list_insert :
      (d : Dictionary V) (type : ℕ) (w : V.Buffer)
      → IsReady d
      → (d' : Dictionary V) × (put_list_buffer d 0 type w ≡ ok (d', true)) × IsReady d'
  list_insert d type w r =
      let (d', q, i) = list_get-put d 0 type w r.valid r.lists in
      (
        d',
        q,
        record {
          valid = i.valid;
          keys = subst (λ k. 13 ≤ k) (sym (ap (λ x. x.0) i.kept)) r.keys;
          lists = subst (λ k. 0 < k) (sym (ap (λ x. x.1) i.kept)) r.lists;
        },
      )

module _ {V : Values} (P : ParcBuffer V.Buffer) (bytes : V.Buffer → List ℕ)
    (p : IsLawful P bytes) where
  -- The call returns a dictionary that is ready, and does not move the decoder back.
  abbrev Keeps : TlvDecoder V.Buffer → Result (Bool × TlvDecoder V.Buffer × Dictionary V) → Type 0
  Keeps decoder r =
      (s : Bool) × (decoder' : TlvDecoder V.Buffer) × (d' : Dictionary V) × (r
        ≡ ok (s, decoder', d'))
      × (P.remaining decoder'.buffer ≤ P.remaining decoder.buffer)
      × IsReady d'

  buffer-Keeps :
      (decoder : TlvDecoder V.Buffer) (d : Dictionary V) (n key : ℕ)
      → IsReady d
      → key < 13
      → n ≤ P.remaining decoder.buffer
      → Keeps decoder (put_as_buffer P decoder d n key)
  unfolding put_as_buffer put_entry
  buffer-Keeps decoder d n key r h k =
      let (w, b, q, l) = value_any P bytes p decoder n k in
      let (d', s, q', r') = put_any d key (buffer w) r h in
      (s, record decoder { buffer = b }, d', rw (q, q') refl, l, r')

  list-Keeps :
      (decoder : TlvDecoder V.Buffer) (d : Dictionary V) (type n : ℕ)
      → IsReady d
      → n ≤ P.remaining decoder.buffer
      → Keeps decoder (put_as_list_buffer P decoder d type n 0)
  unfolding put_as_list_buffer
  list-Keeps decoder d type n r k =
      let (w, b, q, l) = value_any P bytes p decoder n k in
      let i = list_insert d type w r in
      (true, record decoder { buffer = b }, i.0, rw (q, i.1) refl, l, i.2)

  integer-Keeps :
      (decoder : TlvDecoder V.Buffer) (d : Dictionary V) (n key : ℕ)
      → IsReady d
      → key < 13
      → Keeps decoder (put_as_integer P decoder d n key)
  unfolding put_as_integer get_var_int buffer_to_var_int put_entry
  integer-Keeps decoder d n key r h =
      elim (Bool-cases (leb 1 n && (leb n 8 && leb n (P.remaining decoder.buffer)))) [
        | inr t ↦ (false, decoder, d, rw t refl, omega arith, r)
        | inl t ↦
            let (v, b, q, l) = bytes_any P bytes p n 0 decoder.buffer (ground arith) in
            let (d', s, q', r') = put_any d key (integer v) r h in
            (s, record decoder { buffer = b }, d', rw (t, q, q') refl, l, r')
      ]

  header-Keeps :
      (decoder : TlvDecoder V.Buffer) (d : Dictionary V) (type n : ℕ)
      → IsReady d
      → n ≤ P.remaining decoder.buffer
      → Keeps decoder (put_header P decoder d type n)
  unfolding put_header
  header-Keeps decoder d type n r k = elim (Bool-cases (type == 3)) [
    | inl t ↦ rw t (buffer-Keeps decoder d n 2 r (omega arith) k)
    | inr t ↦ elim (Bool-cases (type == 4)) [
      | inl u ↦ rw (t, u) (buffer-Keeps decoder d n 3 r (omega arith) k)
      | inr u ↦ elim (Bool-cases (type == 1)) [
        | inl v ↦ rw (t, u, v) (integer-Keeps decoder d n 6 r (omega arith))
        | inr v ↦ elim (Bool-cases (type == 2)) [
          | inl w ↦ rw (t, u, v, w) (integer-Keeps decoder d n 7 r (omega arith))
          | inr w ↦ rw (t, u, v, w) (list-Keeps decoder d type n r k)
        ]
      ]
    ]
  ]

  header_type-IsForward : IsForward P IsReady (decode_header_type {V = V} P)
  unfolding decode_header_type
  header_type-IsForward decoder d type n r k =
      let (s, c, d', q, l, r') = header-Keeps decoder d type n r k in
      elim (Bool-cases s) [
        | inl t ↦ (s, c, d', rw (q, t) refl, l, r')
        | inr t ↦
            let e = Errors.create err_decode "_decodeType" 104 (position P c) in
            (
              s,
              (set_error c e).0,
              d',
              rw (q, t) refl,
              subst (λ b. P.remaining b ≤ P.remaining decoder.buffer) (sym (set_error_buffer c e))
                  l,
              r',
            )
      ]

  -- On any bytes, with a dictionary that has the keys and the list of the headers, the decoder of the optional headers
  -- returns, in no more rounds than there are bytes left, and one: it stops at no assertion and reads nothing past the
  -- end; and the dictionary still has its arrays.
  pub decode_optional_headers-returns :
      (fuel : ℕ) (decoder : TlvDecoder V.Buffer) (d : Dictionary V)
      → IsReady d
      → P.remaining decoder.buffer < fuel
      → (s : Bool) × (decoder' : TlvDecoder V.Buffer) × (d' : Dictionary V)
        × (decode_optional_headers P fuel decoder d ≡ ok (s, decoder', d'))
        × IsReady d'
  unfolding decode_optional_headers
  decode_optional_headers-returns fuel decoder d r h =
      decode_container-returns P bytes p IsReady (decode_header_type P) fuel decoder d
        header_type-IsForward r h
