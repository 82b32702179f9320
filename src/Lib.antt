-- ===== src/Lib.antt =====
-- A model of the erasure codec: from k data shards it computes m parity shards, so that any k of
-- the shards restore the data.
--
-- The parts, the files of the repository they come from, and the files that model them:
--   Galois8   build.rs (gen_log_table, gen_exp_table, multiply, gen_mul_table,
--             gen_mul_table_half) in Galois8/Tables,
--             src/galois_8/mod.rs (add, mul, div, exp) in Galois8/Arith, src/galois_8/scalar.rs and
--             the impl of the trait in Galois8/Byte; Polynomial describes the product without the
--             tables, Nibbles is about the tables of half bytes; Logs, Laws and Powers hold lemmas.
--   Field     the trait Field of src/lib.rs, with its default methods, as a record of operations;
--             FieldLaws is what the codec relies on. The clients take both as parameters, and
--             galois_8 and galois_8-FieldLaws fill them.
--   Matrix    src/matrix.rs, one function per method, gaussian_elim cut into its steps.
--             An index outside the vector, where the source panics, reads zero and writes nothing.
--   Errors    src/errors.rs.
--   Codec     src/core: Options (options.rs), Family (leopard.rs), Checks (src/macros.rs), State
--             (mod.rs), CodingMatrix and Build (codec.rs), Coding and Encode (encode.rs; Encode/Refusal and
--             Encode/Total are about its errors), Verify (verify.rs),
--             ShardByShard (shard_by_shard.rs), Decode, Reconstruct (reconstruct.rs), Slots (lib.rs),
--             Update (encode.rs), Split (codec.rs). Reconstruct/Calls has the entry points; the
--             other files below Reconstruct follow the steps of reconstruct_internal: Indices,
--             Sorting, Collected, Gather, Stages, and Correct, Erasure, Refusal for the whole; Some is
--             reconstruct_some.
--   Base      tests, lists, loops, results and bits that the parts share.
--   Tests     a field with two elements, small codecs, and the theorems at these inputs.
--
-- How the parts interact: a codec holds a coding matrix from CodingMatrix; the encoder, the verification
-- and the decoder multiply rows of it, or of the inverse of some of its rows, with the shards by the
-- loops of Coding; reconstruct sorts the shards by what the trait ReconstructShard tells of them, codes
-- the missing data from d present shards and then the missing parity from all data; the shard-by-shard
-- encoder counts the shards it has given to encode_single_sep.
--
-- Conventions: a mutable argument is passed on as a value, and the result is what the call leaves
-- in it. Failure tells an error that is returned from a panic (an index or a slice out of range, a
-- failed assertion). A usize is a number below 2^64 where the code depends on it. A set of shards
-- is described by IsBlock: so many shards of one length, with the value of each cell. A shard for the
-- reconstruction is of any type S with a record ReconstructShard; reconstruct returns the shards it
-- leaves beside its result. The writes through mutable references to shards are write_back.
--
-- Fuel: code_chunks has one round more than the shard has elements, and a chunk is not empty; no
-- fuel left counts as a panic, so a result without one shows that the fuel was enough. The loop of
-- exp has the logarithm itself as fuel. The search of next_power_of_two covers the 64 powers below
-- 2^64.
--
-- Not modelled: the SIMD backends, their dispatch and the generated encoders (the build without
-- these features is), the Leopard transforms (parameters, LeopardCoders and
-- LeopardReconstructors), GF(2^16), the parallel
-- forms, the LRU cache itself (its answer is an argument), streams, metrics, bindings.
pub mod Base
pub mod Field
pub mod Galois8
pub mod Matrix
pub mod Errors
pub mod Codec
pub mod Tests
