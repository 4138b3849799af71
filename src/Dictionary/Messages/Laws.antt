-- ===== src/Dictionary/Messages/Laws.antt =====
-- The message types of a dictionary.
use libccnx_common.Prelude.{ℕ, ◌≡◌, refl, Bool, true, false, arith}
use libccnx_common.Dictionary.{Values, Dictionary}
use libccnx_common.Dictionary.FastArray.{IsValid}
use libccnx_common.Dictionary.Messages.{
  set_message_type_interest, set_message_type_content_object, set_message_type_control,
  set_message_type_interest_return, set_message_type_manifest, is_interest, is_interest_return,
  is_content_object, is_control, is_manifest, get_schema_version, create_interest,
  create_content_object, create_manifest, create_control, create_interest_return,
}

-- The answers of the five type tests: interest, interest return, content object, control, manifest.
abbrev pub answers : {V : Values} → Dictionary V → Bool × Bool × Bool × Bool × Bool
answers d = (is_interest d, is_interest_return d, is_content_object d, is_control d, is_manifest d)

-- After each `SetMessageType_*` exactly the test of that type holds, the schema version reads back, and
-- the rest of the dictionary is as before.
pub record TypeSet {V : Values} (d d' : Dictionary V) (version : ℕ)
    (tests : Bool × Bool × Bool × Bool × Bool) : Type 0 where
  pub tested : answers d' ≡ tests
  pub versioned : get_schema_version d' ≡ version
  pub entries : d'.direct_array ≡ d.direct_array
  pub fixed : d'.fixed_list_heads ≡ d.fixed_list_heads
  pub extra : d'.extra_list_heads ≡ d.extra_list_heads
  pub sizes : (d'.fast_array_size ≡ d.fast_array_size) × (d'.list_size ≡ d.list_size)

-- Each `SetMessageType_*` makes exactly the test of that type true and the others false, sets the
-- schema version, and keeps the stored values and the sizes.
pub set_message_type-answers :
    {V : Values} (d : Dictionary V) (version : ℕ)
    → TypeSet d (set_message_type_interest d version) version (true, false, false, false, false)
      × TypeSet d
          (set_message_type_interest_return d version)
          version
          (false, true, false, false, false)
      × TypeSet d
          (set_message_type_content_object d version)
          version
          (false, false, true, false, false)
      × TypeSet d (set_message_type_control d version) version (false, false, false, true, false)
      × TypeSet d (set_message_type_manifest d version) version (false, false, false, false, true)
unfolding is_interest is_interest_return is_content_object is_control is_manifest get_schema_version
    set_message_type_interest set_message_type_content_object set_message_type_control
    set_message_type_interest_return set_message_type_manifest
set_message_type-answers d version = (
  record {
    tested = refl;
    versioned = refl;
    entries = refl;
    fixed = refl;
    extra = refl;
    sizes = (refl, refl);
  },
  record {
    tested = refl;
    versioned = refl;
    entries = refl;
    fixed = refl;
    extra = refl;
    sizes = (refl, refl);
  },
  record {
    tested = refl;
    versioned = refl;
    entries = refl;
    fixed = refl;
    extra = refl;
    sizes = (refl, refl);
  },
  record {
    tested = refl;
    versioned = refl;
    entries = refl;
    fixed = refl;
    extra = refl;
    sizes = (refl, refl);
  },
  record {
    tested = refl;
    versioned = refl;
    entries = refl;
    fixed = refl;
    extra = refl;
    sizes = (refl, refl);
  },
)

-- The schema constructors make valid dictionaries that pass exactly the test of their type.
pub create-answers :
    (V : Values)
    → IsValid (create_interest V)
      × (answers (create_interest V) ≡ (true, false, false, false, false))
      × IsValid (create_interest_return V)
      × (answers (create_interest_return V) ≡ (false, true, false, false, false))
      × IsValid (create_content_object V)
      × (answers (create_content_object V) ≡ (false, false, true, false, false))
      × IsValid (create_control V)
      × (answers (create_control V) ≡ (false, false, false, true, false))
      × IsValid (create_manifest V)
      × (answers (create_manifest V) ≡ (false, false, false, false, true))
unfolding is_interest is_interest_return is_content_object is_control is_manifest create_interest
    create_content_object create_manifest create_control create_interest_return
create-answers V =
    (omega arith, refl, omega arith, refl, omega arith, refl, omega arith, refl, omega arith, refl)
