-- ===== src/Lib.antt =====
-- A model of phpser, a PHP extension that serializes values to a compact binary wire format.
--
-- The program. phpser.c writes a PHP value as a frame (version byte, dictionary of strings, one
-- tagged value) and reads frames back. phpser_hmac.c computes HMAC-SHA256 tags, for which
-- phpser_sha256.c compresses the blocks. phpser_session.c is the session serializer: it encodes
-- $_SESSION, signs the frame where phpser.session_key is set, and checks the tag before it decodes.
-- phpser_api.c signs frames under phpser.key for other extensions and APCu. phpser_module.c has the
-- PHP functions and the INI settings.
--
-- The files.
-- Base: tests on numbers and byte strings, lists by native numbers; Base/Bits: `|`, `&` and `^` as
--   arithmetic.
-- Wire: varint_put to le64_read of phpser.c. A written buffer is the list of its bytes, a read
--   buffer the list of the bytes from the cursor on. uint64_t is a number below 2^64, int64_t its
--   bit pattern, a double its IEEE pattern.
-- Php: PHP values without objects. Tag: the TAG_ and KEY_ constants.
-- Decode: the decoder of phpser.c as state passing. Ctx holds decode_ctx, the outcomes and the
--   string functions; Scalar decode_scalar_tag and decode_key; Runs the typed runs; Assoc
--   dec_assoc_update_bounded and TAG_ASSOC; Schema dec_read_schema_keys; Table tables and row sets;
--   Array the switch of decode_value_inner, references and shared arrays; Frame decode_header and
--   phpser_decode_buf_opts. Spends, Mass and Bounded account for what a decode makes,
--   Equal and Assign are about keyed updates.
-- Encode: the encoder of phpser.c for values without objects, as functions on encode_ctx. Memory has
--   the zvals with their addresses and what the engine keeps at these; Probe the open-addressing
--   tables; Ctx encode_ctx and the id table; Strings the pointer cache, the dictionary and the
--   emission of strings; Runs the tag of a run of numbers; Schema, Column and Table enc_try_table;
--   Array encode_hashtable; Value encode_value_inner and encode_value_ex; Frame phpser_encode_zval_ex.
--   Probe/Kept to Probe/Filled are about probes, Strings/Sound to Strings/Interned about the tables
--   of strings, Runs/Choice to Runs/Decoded about runs of longs, Table/Allowance about the allowance
--   for rows, Lists and its children about nested lists, Frame/Header to Frame/Reading about whole
--   frames.
-- Hmac: phpser_hmac.c. Hmac/Padding and Hmac/Cache compare it with FIPS 180-4 and RFC 2104;
--   Hmac/Compare is about phpser_ct_eq.
-- Session: phpser_session.c. Session/Signed and Session/Marker are about signed sessions and about
--   the marker of a session that was not serialized.
-- Keyed: phpser_api.c. Keyed/Subkey is about the derived subkey and its cache, Keyed/Verify about
--   tags, Keyed/Api about the exported functions with a key. Sample holds what the tests share.
--
-- Bounds and fuel. varint_put and varint_len_u64 recurse on a count of rounds, which the number
-- itself bounds. decode_value recurses on MAX_DEPTH - depth, as the code refuses at depth 512;
-- loops over a count recurse on the count. encode_value_ex recurses on MAX_DEPTH - depth as well. A
-- probe of an open-addressing table takes as many rounds as the table has slots. grow_capacity takes
-- 27 doublings, which lead from 8 to HT_MAX_SIZE.
--
-- Parameters. Engine stands for Zend in the decoder: string hashes, numeric string keys, interned
-- strings, the size of hash tables, the width of zend_long. Memory stands for it in the encoder: the
-- bytes of strings, reference counts before the walk, the values of references, zend_array_dup.
-- Compress stands for one SHA-256 block.
--
-- Not modelled: objects, enums and their hooks (an object tag gives the outcome `beyond` in the
-- decoder, and what follows it is not described), and with them pins, enc_patch_nprops and the
-- exception status of the encoder; the release of memory; builds whose allocator reports an exhausted
-- memory limit; encoders of 32-bit builds; uint32_t counts of strings, slots and elements that would
-- not fit the memory. The session serializer and the C API take the result of the encoder as an
-- argument, since $_SESSION may hold objects. Also left out: APCu registration, the PHP functions, INI
-- handling; warnings.
pub mod Base
pub mod Wire
pub mod Php
pub mod Tag
pub mod Decode
pub mod Encode
pub mod Hmac
pub mod Session
pub mod Keyed
pub mod Sample
