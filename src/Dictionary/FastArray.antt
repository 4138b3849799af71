-- ===== src/Dictionary/FastArray.antt =====
-- The fast array of `ccnx_TlvDictionary.c`: what the puts store and the getters return.
pub mod Reads
use libccnx_common.Prelude.{
  ℕ, ◌-◌, ◌^◌, ◌≤◌, ◌<◌, ◌≡◌, refl, ap, ◌≢◌, Bool, true, false, ◌&&◌, ◌||◌, Option, none, some,
  arith, ltb, lt→ltb, ◌==◌, if◌then◌else◌, length, get_elem?, set, length-set, length-replicate,
  get_elem?-set_self, get_elem?-set_ne, get_elem?-some, Result, ok, trap, ◌>>=◌, ◌>>◌, assert,
  or_fault, Bool-cases, inl, inr, ==_iff,
}
use libccnx_common.Dictionary.{
  Values, Entry, unset, buffer, name, integer, io_vec, json, object, Dictionary, create,
  fixed_list_length, message_fast_array_end, entry_at, is_unset, takes_integer, put_unset,
  put_buffer, put_name, put_io_vec, put_json, put_integer, put_object, get_buffer, get_name,
  get_io_vec, get_json, get_integer, get_object, as_buffer, as_name, as_integer, as_io_vec, as_json,
  as_object,
}

-- The arrays have the sizes that the header fields promise, and an int can count the lists.
pub record IsValid {V : Values} (d : Dictionary V) : Type 0 where
  pub fixed : length d.fixed_list_heads ≡ fixed_list_length
  pub extra : length d.extra_list_heads ≡ d.list_size - fixed_list_length
  pub slots : length d.direct_array ≡ message_fast_array_end
  pub fits : d.fast_array_size ≤ message_fast_array_end
  pub few : d.list_size < 2 ^ 31

if_pair {ℓ} :
    {A : Type ℓ} (b : Bool) (x y : A)
    → ◌≡◌ {A = A × Bool} (if b then (x, true) else (y, false)) (if b then x else y, b)
if_pair true x y = refl
if_pair false x y = refl

pub create-IsValid :
    (V : Values) (buffers lists : ℕ)
    → buffers ≤ message_fast_array_end
    → lists < 2 ^ 31
    → IsValid (create V buffers lists)
unfolding create
create-IsValid V buffers lists h k = record {
  fixed = refl;
  extra = length-replicate _ _;
  slots = refl;
  fits = h;
  few = k;
}

module _ {V : Values} where
  -- The put for the kind of a value; there is none that stores ENTRY_UNSET.
  unfoldable pub put_entry : Dictionary V → ℕ → Entry V → Result (Dictionary V × Bool)
  put_entry d key unset = ok (d, false)
  put_entry d key (buffer b) = put_buffer d key b
  put_entry d key (name n) = put_name d key n
  put_entry d key (integer n) = put_integer d key n
  put_entry d key (io_vec v) = put_io_vec d key v
  put_entry d key (json j) = put_json d key j
  put_entry d key (object o) = put_object d key o

  -- Whether the entry `old` gives way to the value `e`.
  abbrev pub accepts : Entry V → Entry V → Bool
  accepts old unset = false
  accepts old (integer n) = takes_integer old
  accepts old _ = is_unset old

  -- The dictionary with one slot written.
  abbrev pub with_slot : Dictionary V → ℕ → Entry V → Dictionary V
  with_slot d key e = record d { direct_array = set d.direct_array key e }

  abbrev pub after_put : Dictionary V → ℕ → Entry V → Entry V → Dictionary V
  after_put d key old e = if accepts old e then with_slot d key e else d

  pub entry_at_ok :
      {d : Dictionary V} (key : ℕ)
      → IsValid d
      → key < d.fast_array_size
      → (e : Entry V) × (get_elem? d.direct_array key ≡ some e) × (entry_at d key ≡ ok e)
  entry_at_ok {d} key v h =
      let (e, p) = get_elem?-some d.direct_array key (omega arith) in (e, p, rw (lt→ltb _ _ h, p))

  entry_at_lt :
      (d : Dictionary V) (key : ℕ) {e : Entry V} → entry_at d key ≡ ok e → key < d.fast_array_size
  entry_at_lt d key h = ground arith

  entry_at-with_slot :
      {d : Dictionary V} (key j : ℕ) (e : Entry V)
      → IsValid d
      → key < d.fast_array_size
      → entry_at (with_slot d key e) j ≡ (if key == j then ok e else entry_at d j)
  entry_at-with_slot {d} key j e v h = elim (Bool-cases (key == j)) [
    | inl t ↦
        let p : key ≡ j = (==_iff key j).0 t in
        rw (t, ← p, lt→ltb _ _ h, get_elem?-set_self d.direct_array key e (omega arith))
    | inr t ↦
        rw (t, get_elem?-set_ne d.direct_array e (λ (p : key ≡ j). cc (t, (==_iff key j).1 p)))
  ]

  -- A put in range stores the value where the entry accepts it, reports whether it did, and otherwise
  -- leaves the dictionary alone.
  pub put_entry_lem :
      (d : Dictionary V) (key : ℕ) (old e : Entry V)
      → entry_at d key ≡ ok old
      → put_entry d key e ≡ ok (after_put d key old e, accepts old e)
  unfolding put_entry put_buffer put_name put_io_vec put_json put_integer put_object
  put_entry_lem d key old unset h = refl
  put_entry_lem d key old (integer n) h = rw h (ap ok (if_pair (takes_integer old) _ d))
  put_entry_lem d key old e h = rw h (ap ok (if_pair (is_unset old) _ d))

  -- The other slots, and the slot itself, after a put.
  pub entry_at-after_put :
      {d : Dictionary V} (key j : ℕ) {old : Entry V} (e : Entry V)
      → IsValid d
      → entry_at d key ≡ ok old
      → entry_at (after_put d key old e) j
        ≡ (if accepts old e && key == j then ok e else entry_at d j)
  entry_at-after_put {d} key j {old} e v h = elim (Bool-cases (accepts old e)) [
    | inl t ↦ rw t (entry_at-with_slot key j e v (entry_at_lt d key h))
    | inr t ↦ rw t
  ]

  pub after_put-IsValid :
      {d : Dictionary V} (key : ℕ) (old e : Entry V) → IsValid d → IsValid (after_put d key old e)
  after_put-IsValid {d} key old e v = elim (Bool-cases (accepts old e)) [
    | inl t ↦ rw t (record {
      fixed = v.fixed;
      extra = v.extra;
      slots = rw length-set v.slots;
      fits = v.fits;
      few = v.few;
    })
    | inr t ↦ rw t v
  ]
