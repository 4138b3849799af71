-- ===== src/Dictionary/FastArray/Reads.antt =====
-- The getters of the fast array after a put.
use libccnx_common.Prelude.{
  ℕ, ◌≤◌, ◌<◌, ◌≡◌, refl, ◌≢◌, ◌⊎◌, inl, inr, true, false, none, some, arith, ltb, ==_refl, ==_ne,
  ok_pair, ltb→lt, ok, trap, Bool-cases,
}
use libccnx_common.Dictionary.{
  Values, Entry, unset, integer, Dictionary, entry_at, put_buffer, put_name, put_io_vec, put_json,
  put_integer, put_object, get_buffer, get_name, get_io_vec, get_json, get_integer, get_object,
  is_value_buffer, is_value_object, is_value_integer, is_value_name, is_value_io_vec, is_value_json,
  as_buffer, as_name, as_integer, as_io_vec, as_json, as_object, is_some,
}
use libccnx_common.Dictionary.FastArray.{
  IsValid, put_entry, accepts, after_put, entry_at_ok, put_entry_lem, entry_at-after_put,
  after_put-IsValid,
}

-- What the getters and the type tests answer for the value `e` at a key.
pub record Reads {V : Values} (d : Dictionary V) (key : ℕ) (e : Entry V) : Type 0 where
  pub buffer : get_buffer d key ≡ ok (as_buffer e)
  pub name : get_name d key ≡ ok (as_name e)
  pub io_vec : get_io_vec d key ≡ ok (as_io_vec e)
  pub json : get_json d key ≡ ok (as_json e)
  pub object : get_object d key ≡ ok (as_object e)
  pub integer : get_integer d key ≡ (elim (as_integer e) [ none ↦ trap | some n ↦ ok n ])
  pub has_buffer : is_value_buffer d key ≡ ok (is_some (as_buffer e))
  pub has_name : is_value_name d key ≡ ok (is_some (as_name e))
  pub has_io_vec : is_value_io_vec d key ≡ ok (is_some (as_io_vec e))
  pub has_json : is_value_json d key ≡ ok (is_some (as_json e))
  pub has_object : is_value_object d key ≡ ok (is_some (as_object e))
  pub has_integer : is_value_integer d key ≡ ok (is_some (as_integer e))

module _ {V : Values} where
  pub Reads-of_entry :
      {d : Dictionary V} {key : ℕ} {e : Entry V} → entry_at d key ≡ ok e → Reads d key e
  unfolding get_buffer get_name get_io_vec get_json get_integer get_object is_value_buffer
      is_value_object is_value_integer is_value_name is_value_io_vec is_value_json
  Reads-of_entry {d} {key} {e} h = record {
    buffer = rw h;
    name = rw h;
    io_vec = rw h;
    json = rw h;
    object = rw h;
    integer = rw h;
    has_buffer = rw h;
    has_name = rw h;
    has_io_vec = rw h;
    has_json = rw h;
    has_object = rw h;
    has_integer = rw h;
  }

  put_entry_out :
      (d : Dictionary V) (key : ℕ) (e : Entry V)
      → ltb key d.fast_array_size ≡ false
      → e ≢ unset
      → put_entry d key e ≡ trap
  unfolding put_entry put_buffer put_name put_io_vec put_json put_integer put_object
  put_entry_out d key unset t ne = absurd (ne refl)
  put_entry_out d key (integer n) t ne = rw t
  put_entry_out d key e t ne = rw t

  -- A put that reports success leaves a valid dictionary in which every getter and type test answers
  -- for the value that was put, and in which every other key reads as before.
  pub get-put :
      (d d' : Dictionary V) (key : ℕ) (e : Entry V)
      → IsValid d
      → key < d.fast_array_size
      → put_entry d key e ≡ ok (d', true)
      → Reads d' key e × ((j : ℕ) → key ≢ j → entry_at d' j ≡ entry_at d j) × IsValid d'
  get-put d d' key e v h p =
      let (old, _, q) = entry_at_ok key v h in
      let (same, done) = ok_pair (put_entry d key e) p (put_entry_lem d key old e q) in
      let read = λ (j : ℕ). entry_at-after_put key j e v q in
      rw same (
        Reads-of_entry (rw (read key, ← done, ==_refl)),
        (λ j ne. rw (read j, ← done, ==_ne ne)),
        after_put-IsValid key old e v,
      )

  -- A put either stops at the assertion, since the key is out of range, or stores the value exactly
  -- when the entry accepts it, and otherwise changes nothing and returns false; it never reads or
  -- writes outside the array, and keeps the dictionary valid.
  pub put_entry_cases :
      (d : Dictionary V) (key : ℕ) (e : Entry V)
      → IsValid d
      → e ≢ unset
      → (d.fast_array_size ≤ key) × (put_entry d key e ≡ trap)
        ⊎ ((old : Entry V) × (entry_at d key ≡ ok old)
            × (put_entry d key e ≡ ok (after_put d key old e, accepts old e))
            × IsValid (after_put d key old e))
  put_entry_cases d key e v ne = elim (Bool-cases (ltb key d.fast_array_size)) [
    | inl t ↦
        let (old, _, q) = entry_at_ok key v (ltb→lt _ _ t) in
        inr (old, q, put_entry_lem d key old e q, after_put-IsValid key old e v)
    | inr t ↦ inl (ground arith, put_entry_out d key e t ne)
  ]
