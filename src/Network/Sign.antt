-- ===== src/Network/Sign.antt =====
-- `ccnxCodecNetworkBuffer_ComputeSignature`: which bytes it hands to the hasher.
use libccnx_common.Prelude.{
  ℕ, ◌+◌, ◌-◌, List, [], ◌∷◌, ◌++◌, Option, none, some, length, take, drop, ltb, leb, if◌then◌else◌,
  Result, ok, fault, assert, ◌>>=◌, ◌>>◌,
}
use libccnx_common.Network.{Block, NetworkBuffer, sub_size, contains_position}

-- `parcCryptoHasher_UpdateBytes(hasher, &memory[start], n)`; a read past the memory is a fault.
abbrev pub region : List ℕ → ℕ → ℕ → Result (List ℕ)
region memory start n =
    if leb (start + n) (length memory) then ok (take n (drop start memory)) else fault

-- The loop over the blocks, with the bytes hashed so far. `roof` is the block's limit, counted in the
-- block, or the end, counted from the head.
unfoldable pub hash_blocks : List Block → ℕ → ℕ → List ℕ → Result (List ℕ)
unfolding contains_position
hash_blocks [] position end hashed = ok hashed
hash_blocks (b ∷ chain) position end hashed =
    if ltb position (b.begin + b.limit)
    then (if contains_position b position
        then (do
          let roof = if ltb (b.begin + b.limit) end then b.limit else end
          let n = sub_size roof position
          bytes ← region b.memory (position - b.begin) n
          hash_blocks chain (position + n) end (hashed ++ bytes))
        else hash_blocks chain position end hashed)
    else ok hashed

-- The signer's hasher and `parcSigner_SignDigest` as one function of the hashed bytes; no signer is NULL.
module _ {U Signature : Type 0} where
  unfoldable pub compute_signature :
      NetworkBuffer U → ℕ → ℕ → Option (List ℕ → Signature) → Result (Option Signature)
  unfolding hash_blocks
  compute_signature nb start end none = do assert (leb start end); ok none
  compute_signature nb start end (some sign) = do
    assert (leb start end)
    bytes ← hash_blocks nb.chain start end []
    ok (some (sign bytes))
