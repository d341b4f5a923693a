-- ===== src/Lib.antt =====
-- corebc.js: the data formats below a client of the Core blockchain.
--
-- The library turns values into bytes and texts, and back. utils/data.ts holds the two basic forms,
-- byte arrays and hexadecimal texts; utils/rlp-encode.ts and utils/rlp-decode.ts, and a second copy
-- of them in crypto/rlp.ts, nest data in arrays; utils/maths.ts reads and writes numbers;
-- utils/base58.ts is another notation of them; crypto/signature.ts keeps a signature, and
-- address/index.ts puts the check digits on addresses and tests them. A transaction is written as
-- nested data of these forms, and read back. utils/utf8.ts writes texts as bytes, and abi/coders
-- writes the arguments of contract calls as words of 32 bytes and reads their results.
-- utils/fixednumber.ts computes with decimal fractions, and providers/signer-noncemanager.ts counts
-- the nonces of the transactions that a signer sends; providers/provider-fallback.ts takes votes.
--
-- Common        lists, tests and numbers that the parts share; Common/Outcome has Result, which is a
--               value, a thrown error by its code, or `stuck`, a loop that does not end; Common/Radix
--               is the loop that divides a number into digits.
-- Utils/Data    src.ts/utils/data.ts. A byte array is a list of numbers, a text is a list of code
--               units. Data: isBytes, isHexString, getBytes, hexlify; Data/Slices: concat, the
--               slices, the paddings, arrayify, stripZeros; Hex, Texts and Pad have the proofs.
-- Utils/Rlp     src.ts/utils/rlp-encode.ts and rlp-decode.ts. encode and decode are `_encode` and
--               `_decode`, decode_children is `_decodeChildren`, encode_rlp and decode_rlp are the
--               exported functions. arrayifyInteger shifts its operand as a 32-bit integer, so the
--               loop does not end on a length whose bit 31 is set; five rounds are enough for any
--               other. The decoder calls itself with fuel, twice the number of bytes and one: each
--               call for an item consumes a byte, and each list ends with one call more.
-- Crypto/Rlp    src.ts/crypto/rlp.ts, written again; Agrees compares it with Utils/Rlp.
-- Utils/Maths   src.ts/utils/maths.ts. BigInt of a text is parse_bigint. A width is a natural number.
-- Utils/Base58  src.ts/utils/base58.ts.
-- Crypto/Signature  src.ts/crypto/signature.ts: the fields are a record, a setter gives the next one.
-- Address       src.ts/address/index.ts, and isAddress of address/checks.ts. The loop of ibanChecksum
--               has the length of its text and one as fuel, since each round leaves the text shorter.
--
-- Transaction   src.ts/transaction/address.ts, src.ts/address/contract-address.ts and
--               src.ts/transaction/transaction.ts: Serialize and Parse are the functions `serialize`
--               and `parse`, Object is the class Transaction with its setters and getters, and
--               `Transaction.from`. sha256 and the recovery of the public key are parameters.
--
-- Utils/Utf8    src.ts/utils/utf8.ts. points_loop is the loop of getUtf8CodePoints; it has as many rounds
--               as there are bytes, and each round consumes one. An error function is a function that
--               gives the number of bytes to skip and the output, or throws.
-- Abi           src.ts/abi/coders and AbiCoder.encode and decode of src.ts/abi/abi-coder.ts. A coder
--               object is a term of the data type Coder, a JavaScript value one of Value. Writer and
--               Reader are the classes of abstract-coder.ts; a method of Reader is a function that
--               passes the reader on. Encode and Decode have the methods of the coders, with `pack`
--               as pack_items and finish_pack, and `unpack`. Standard is what the ABI specifies for
--               values, with dynamic types, words, paddings, offsets and UTF-8 of its own; texts of
--               hex digits are known by the bytes that they spell. Layout says the same with the
--               tests and paddings of the coders: the encoder (Written, Contents, Packed, Refines)
--               and the decoder (Words to RoundTrip) are each compared with it, and it is compared
--               with Standard (Octets, Parts, Conforms). Bounds, Gives, Ends, Untrusted, Throws, Peeks and
--               Sources are about data of any origin, Guards about values that do not fit. Interface has the calls, errors and results of abi/interface.ts, and Calls
--               and Wholes their round trips; the selector of a fragment, a part of a hash, is given.
--               Defaults has the methods defaultValue.
--
-- Utils/Fixed   src.ts/utils/fixednumber.ts. Formats has getTens and getFormat, Values checkValue and the
--               module's toString, Number the class FixedNumber, Convert its static functions. A
--               private method with `safeOp` has a test in its place. The fuel of a loop over
--               zeros is at least the number of decimals, since each round doubles them or adds 128.
--               Widths and decimals that a caller gives are natural numbers. Bounds, Wraps, Arithmetic, Compare and Rounds
--               are about values; Trims, Decimals, Padding and RoundTrip about texts.
-- Utils/Units   src.ts/utils/units.ts. scientificToDecimal, which goes through floats, is a parameter.
-- Providers/Nonce  src.ts/providers/signer-noncemanager.ts. A World is the manager with the requests it
--               made and the calls of sendTransaction. Each synchronous part of a method is one step;
--               what the network answers, and which waiting call goes on when, are events. A call that
--               goes on hands its nonce to the wrapped signer, whose own failures are left out.
-- Providers/Quorum  checkQuorum and getAnyResult of src.ts/providers/provider-fallback.ts. A tag is a text
--               that is given with each result.
--
-- Number() of the words of a text with commas, which hexlify calls, is a parameter `to_byte`. A number
-- argument is an integer. Not modelled are the hashes and curves, which are packages of others, the
-- rest of the providers, which are network access and polling, the contract layer, the parser of
-- types and the fragments of the ABI, the names in its results and its wrappers of typed values,
-- wallets, word lists and the conversions in utils that no part above calls.
pub mod Common
pub mod Utils
pub mod Crypto
pub mod Address
pub mod Transaction
pub mod Abi
pub mod Providers
