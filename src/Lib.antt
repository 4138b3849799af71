-- ===== src/Lib.antt =====
-- A verification library of the codecs of ccnx/common: the TLV dictionary, the network buffer, the TLV encoder
-- and decoder, the TLV utilities, the codec errors, the encoding buffer, and the codecs of schema V1 for fixed headers, optional
-- headers, names, links, hashes, cipher suites and messages.
--
-- The program. A packet is held in a TLV dictionary (ccnx/common/internal/ccnx_TlvDictionary.c): a fast
-- array of typed entries, indexed by key, and lists of entries for what may repeat. The schema
-- (ccnx/common/codec/schema_v1/ccnxCodecSchemaV1_TlvDictionary.c) makes dictionaries of each message type.
-- A packet is written by a TLV encoder (ccnx/common/codec/ccnxCodec_TlvEncoder.c), which puts types,
-- lengths and values into a network buffer (ccnx/common/codec/ccnxCodec_NetworkBuffer.c): a chain of memory
-- blocks that grows as it is written, read back as one buffer or as a vector of blocks. A packet is read by
-- a TLV decoder (ccnx/common/codec/ccnxCodec_TlvDecoder.c), a cursor in a buffer that slices its parts. The
-- utilities (ccnx/common/codec/ccnxCodec_TlvUtilities.c) nest an encoder in a container, loop over the TLVs
-- of a container with a callback, and put what the callback reads into the dictionary. The codecs of
-- ccnx/common/codec/schema_v1 are such callbacks and their encoders. The first error of an encoder or a
-- decoder is kept in it (ccnx/common/codec/ccnxCodec_Error.c). An encoding buffer
-- (ccnx/common/codec/ccnxCodec_EncodingBuffer.c) collects buffers that are sent as one vector.
--
-- The files. Prelude and its children pass the library's names on and hold what the components share:
-- tests on numbers, lists indexed by numbers, the result type, signed numbers, and writes of a segment into a list.
--   Dictionary          the state (Dictionary, Entry, ListEntry), Create, the puts, getters and type tests
--   Dictionary.FastArray  the invariant, and what the puts do to the getters (FastArray.Reads)
--   Dictionary.Lists    the lists: PutListBuffer, ListGetByPosition, ListGetByType, ListSize; Views, Laws
--                       and Search hold their theorems
--   Dictionary.Copy     ShallowCopy, with its theorems in Copy.Laws and Copy.Entries
--   Dictionary.Equals   Equals, its tests (Laws), what it decides (Agreement), that it is an equivalence, and
--                       copies compared
--   Dictionary.Messages  the message types and the constructors of the schema
--   Network             the state (Block, NetworkBuffer), Create, Expand, AllocateIfNeeded, EnsureRemaining
--   Network.Put         the puts; Network.Position: SetPosition and Finalize; Network.Read: the readers and
--                       the I/O vector; Network.Sign: ComputeSignature
--   Network.Chain, Network.Inv  well-formed chains, the bytes that they hold, and the invariant
--   Network.Grow, Writes, Integers, Arrays, Moves, Final, Readers, Signatures  the theorems, by operation
--   Errors              the error codes, their messages, and the error object of an encoder or a decoder
--   Parc                the operations of PARCBuffer that the decoders call, and their laws; Parc.Laws: what
--                       follows of them; Parc.Zipper: a buffer with these laws
--   EncodingBuffer      the list of buffers (EncodingBuffer, LinkedArray), its puts and its I/O vector; Laws: the
--                       invariant; Appends, Prepends: AppendBuffer and PrependBuffer; Slice: Slice, with its
--                       bytes in Slice.Bytes, Loops and Range
--   Encoder             the state (TlvEncoder) and all its operations over a network buffer
--   Encoder.Appends, VarInt, Containers  the theorems, by operation; Fixture: an encoder for the tests
--   Decoder             the state (TlvDecoder) and all its operations
--   Decoder.Tlv, Integers, Misses, RoundTrip, VarInt  the theorems, by operation
--   Utilities           NestedEncode; Utilities.Nested: what it leaves
--   Utilities.Decode    the puts of a decoded value, DecodeContainer, DecodeSubcontainer, EncodeCustomList
--   Utilities.Fields, Loop, Cut  the loop of DecodeContainer: over whole TLVs, on any bytes, on a cut TLV
--   Utilities.Custom, VarInt  EncodeCustomList, GetVarInt
--   SchemaV1            the numbers of the schema: keys, lists and TLV types
--   SchemaV1.CryptoSuites  the types of the validation algorithms
--   SchemaV1.FixedHeader  the encoder and the decoder of the fixed header; Reads, Refusals, RoundTrip
--   SchemaV1.OptionalHeaders  the decoder and the encoder of the optional headers; Safety, Written
--   SchemaV1.Names      name segments and names, with what the decoder calls of ccnx/common/ccnx_Name.c,
--                       ccnx_NameSegment.c and ccnx_NameLabel.c; Decodes, Encodes
--   SchemaV1.Hashes     hashes; Laws
--   SchemaV1.Links      links; Reads
--   SchemaV1.Message    the decoder of a message; BadNames
-- The files called Tests apply the theorems at concrete inputs.
--
-- How the code corresponds. A function of the code is the definition with its name in small letters: the
-- prefix of its module is dropped, so ccnxCodecNetworkBuffer_PutUint16 is put_uint16 of Network.Put. A call
-- that changes an object returns the new one. Result says how a call ends: with a value, in a trap (an
-- assertion or an out-of-memory trap), or in a fault, which is an access outside the memory that is meant.
-- A pointer to an optional object is an Option; pointers to a block are indices into the chain. The
-- assertions are those of a build without Libccnx_DISABLE_VALIDATION.
--
-- What is taken as given. The buffers, names and JSON objects of a dictionary and their comparisons are
-- parameters (Values of Dictionary). The allocator of a network buffer is a parameter; the theorems that
-- need memory assume that it grants what is asked for (Grants of Network.Inv). A signer is a function of
-- the bytes that its hasher is given. A PARCBuffer that is written is the list of its remaining
-- bytes; where it is read, its operations are parameters (ParcBuffer) with the laws IsLawful of Parc, or
-- IsParcBuffer of Utilities.VarInt. How a PARCCryptoHash is made, and its kind and digest, are parameters
-- of Hashes; the name that a dictionary holds for a list of segments is the parameter name_of of Message.
--
-- Bounds and fuel. A block's capacity is below 2 ^ 64, and a dictionary has fewer than 2 ^ 31 lists, which an
-- int counts. A size that is cast to an int keeps its low 32 bits, with their sign; a reference count has 32 bits. The difference of two sizes is taken modulo 2 ^ 64
-- where the code may go below zero; sums of sizes do not wrap, since all blocks lie in one address space.
-- The loop of PutArray has fuel of two rounds for each byte: a round writes a byte at least, or moves to a
-- block with room. The loops over the TLVs of a buffer have fuel of more rounds than the buffer has bytes:
-- a round takes the four bytes of a type and a length at least, or is the last. No other loop needs fuel. A
-- theorem on a put or on such a loop says that it returns, so the fuel is enough.
--
-- Not modelled: reference counts and frees (except the count that Acquire raises), the display functions,
-- the info and lifetime parts of a dictionary, the encoders of messages and of whole
-- packets and the packet decoder, the codecs of validation, manifests and payloads, the other names
-- of ccnx/common/ccnx_Name.c, the facades of the messages, the computation of validation and the key stores.
pub mod Prelude
pub mod Dictionary
pub mod Encoder
pub mod Network
pub mod SchemaV1
pub mod Utilities
pub mod Parc
pub mod Errors
pub mod EncodingBuffer
pub mod Decoder
