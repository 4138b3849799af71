-- ===== src/SchemaV1/CryptoSuites.antt =====
-- ccnx/common/codec/schema_v1/ccnxCodecSchemaV1_CryptoSuite.c: the suites of the cryptography library, and the
-- types of the validation algorithms on the wire.
use libccnx_common.Prelude.{
  ℕ, ◌≡◌, ◌↔◌, refl, sym, ap, Option, none, some, some_inj, ◌==◌, ==_iff, Bool-cases, inl, inr,
  if◌then◌else◌,
}

-- The suites that the code names; the others that a PARCCryptoSuite may be.
pub data ParcCryptoSuite : Type 0 where
  parc_rsa_sha256 : ParcCryptoSuite
  parc_dsa_sha256 : ParcCryptoSuite
  parc_rsa_sha512 : ParcCryptoSuite
  parc_hmac_sha256 : ParcCryptoSuite
  parc_hmac_sha512 : ParcCryptoSuite
  parc_null_crc32c : ParcCryptoSuite
  parc_other_suite : ℕ → ParcCryptoSuite

pub data ParcSigningAlgorithm : Type 0 where
  signing_rsa : ParcSigningAlgorithm
  signing_hmac : ParcSigningAlgorithm
  signing_null : ParcSigningAlgorithm
  signing_other : ℕ → ParcSigningAlgorithm

pub data ParcCryptoHashType : Type 0 where
  hash_sha256 : ParcCryptoHashType
  hash_sha512 : ParcCryptoHashType
  hash_crc32c : ParcCryptoHashType
  hash_null : ParcCryptoHashType
  hash_other : ℕ → ParcCryptoHashType

-- `CCNxCodecSchemaV1TlvDictionary_CryptoSuite`
abbrev pub suite_crc32c : ℕ
suite_crc32c = 2

abbrev pub suite_hmac_sha256 : ℕ
suite_hmac_sha256 = 4

abbrev pub suite_rsa_sha256 : ℕ
suite_rsa_sha256 = 6

-- No value where the code finds no match.
unfoldable pub parc_to_tlv : ParcCryptoSuite → Option ℕ
parc_to_tlv parc_rsa_sha256 = some suite_rsa_sha256
parc_to_tlv parc_dsa_sha256 = none
parc_to_tlv parc_rsa_sha512 = none
parc_to_tlv parc_hmac_sha256 = some suite_hmac_sha256
parc_to_tlv parc_hmac_sha512 = none
parc_to_tlv parc_null_crc32c = some suite_crc32c
parc_to_tlv (parc_other_suite n) = none

unfoldable pub tlv_to_parc : ℕ → Option ParcCryptoSuite
tlv_to_parc tlv_value =
    if tlv_value == suite_rsa_sha256
    then some parc_rsa_sha256
    else (if tlv_value == suite_crc32c
        then some parc_null_crc32c
        else (if tlv_value == suite_hmac_sha256 then some parc_hmac_sha256 else none))

unfoldable pub sign_and_hash_to_tlv : ParcSigningAlgorithm → ParcCryptoHashType → Option ℕ
sign_and_hash_to_tlv signing_rsa hash_sha256 = some suite_rsa_sha256
sign_and_hash_to_tlv signing_hmac hash_sha256 = some suite_hmac_sha256
sign_and_hash_to_tlv signing_null hash_crc32c = some suite_crc32c
sign_and_hash_to_tlv _ _ = none

back :
    (tlv_value : ℕ) (suite : ParcCryptoSuite)
    → parc_to_tlv suite ≡ some tlv_value
    → tlv_to_parc tlv_value ≡ some suite
unfolding parc_to_tlv tlv_to_parc
back v parc_rsa_sha256 h = rw (← some_inj h) refl
back v parc_dsa_sha256 h = cc
back v parc_rsa_sha512 h = cc
back v parc_hmac_sha256 h = rw (← some_inj h) refl
back v parc_hmac_sha512 h = cc
back v parc_null_crc32c h = rw (← some_inj h) refl
back v (parc_other_suite n) h = cc

forth :
    (tlv_value : ℕ) (suite : ParcCryptoSuite)
    → tlv_to_parc tlv_value ≡ some suite
    → parc_to_tlv suite ≡ some tlv_value
unfolding parc_to_tlv tlv_to_parc
forth v suite h = elim (Bool-cases (v == 6)) [
  | inl t ↦ let q = rw t at h in rw (← some_inj q) (ap some (sym ((==_iff v 6).0 t)))
  | inr t ↦ elim (Bool-cases (v == 2)) [
    | inl u ↦ let q = rw (t, u) at h in rw (← some_inj q) (ap some (sym ((==_iff v 2).0 u)))
    | inr u ↦ elim (Bool-cases (v == 4)) [
      | inl w ↦ let q = rw (t, u, w) at h in rw (← some_inj q) (ap some (sym ((==_iff v 4).0 w)))
      | inr w ↦ let q = rw (t, u, w) at h in cc
    ]
  ]
]

-- A suite is written as a type exactly when the type is read as the suite: each of the two tables is the other, read
-- backwards.
pub parc_to_tlv-tlv_to_parc :
    (tlv_value : ℕ) (suite : ParcCryptoSuite)
    → (parc_to_tlv suite ≡ some tlv_value) ↔ (tlv_to_parc tlv_value ≡ some suite)
parc_to_tlv-tlv_to_parc tlv_value suite = (back tlv_value suite, forth tlv_value suite)
