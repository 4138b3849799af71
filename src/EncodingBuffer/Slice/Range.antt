-- ===== src/EncodingBuffer/Slice/Range.antt =====
-- `ccnxCodecEncodingBuffer_Slice`, over all arrays of an encoding buffer.
use libccnx_common.Prelude.{ℕ, List, [], ◌∷◌, ◌++◌, Option, none, some}
use libccnx_common.EncodingBuffer.{ArrayEntry, LinkedArray, EncodingBuffer, entries, vectors}
use libccnx_common.EncodingBuffer.Slice.Bytes.{flat}

module _ {A : Type 0} (view : A → List ℕ) {B : Type 0} where
  abbrev all_entries : List (LinkedArray B A) → List (ArrayEntry B A)
  all_entries [] = []
  all_entries (a ∷ more) = entries a ++ all_entries more

  -- The bytes of a slice. There are none where it is NULL.
  abbrev pub slice_bytes : Option (EncodingBuffer B A) → List ℕ
  slice_bytes none = []
  slice_bytes (some list) = flat view (vectors list.arrays)
