-- ===== src/Lib.antt =====
-- Verification of the sparse MLA attention kernels, of the decode-context-parallel (DCP) sharding and
-- of the tools around them.
--
-- The program serves a large model on GPUs that the upstream kernels do not support. The kernels in
-- kernels/ replace the native sparse attention: a caller (kernels/sm12x_sparse_mla_attn.py) runs an
-- accumulating kernel, which folds candidate rows into a state (running maximum, denominator,
-- accumulator) for each token and head, and a finishing kernel, which turns states into outputs, with a
-- sink (kernels/sparse_mla_kernels.py). The candidates are chosen by an indexer, as the top-k of logits
-- that are computed in chunks (kernels/sm12x_deep_gemm_fallbacks.py, kernels/sm12x_mqa.py). For long
-- contexts the keys are sharded over ranks (8node-nvfp4/), whose results are put in global order.
--
-- Files
-- - Common: tests, lists, options, integers, permutations, sorting and loops over the native numbers.
-- - Float: the float32 arithmetic, a parameter of three sorts (logits, weights, elements), with the
--   laws of exact arithmetic; Float/Tropical is an instance of it, for the examples.
-- - Softmax: candidates, the reference attention and logsumexp, the state and its online update;
--   Softmax/Laws has the invariant `Holds` between a state and the candidates it stands for.
-- - SparseMla/Accumulate: `_accumulate_gathered_attention_chunk_kernel`,
--   `_accumulate_indexed_attention_chunk_kernel`, its multihead form and the choice between them, of
--   kernels/sparse_mla_kernels.py. Loop, Chunk and Heads prove what they add.
-- - SparseMla/D512: the split and the chunked kernels of the same file for 512 dimensions. Stores is
--   about grids of stored tiles, Named about what the indices name, Tiles and Split about the three
--   launches of a call, Merge about the merging kernels, Chunks about the two entry points.
-- - SparseMla/Scores: the three kernels of the same file that finish materialized scores, the choice
--   between them, the product that computes the scores and the mask of the valid candidates. Online is
--   about the kernels that go one by one, Blocks about the one by blocks, Finished about the choice,
--   Combined about the product under the mask.
-- - SparseMla/Finish: the finishing and merging kernels of the same file; Entries has their entry points.
--   SparseMla/Accumulate/Entry is the entry point for gathered rows.
-- - SparseMla/Fp8ds, with Sink and Global: the kernels of the same file that read an fp8_ds_mla cache by
--   slots, by pages, and by both with a sink. Pages is about the addresses of its bytes. Entries has
--   their entry points, with kernels/sparse_mla_env.py's block of heads; Slots and Sinks are about
--   them, and Passes about the one pass and the three calls that it stands for.
-- - Sm12x/Prefill: `flash_mla_sparse_fwd_triton` of kernels/sm12x_sparse_mla_attn.py.
-- - Sm12x/Decode: `flash_mla_with_kvcache_triton` of the same file; Sm12x/KvCache has its fused and
--   materialized kernels. Maximum, Sums and Tile are about the update by a tile, Candidates and Fused
--   about the fused kernel, Grid about the blocks of heads, Materialized about the other kernels.
-- - Indexer: the logits by products and their running top-k, of
--   kernels/sm12x_deep_gemm_fallbacks.py. Counts, Chosen, Merge, Round and TopK are about a top-k in
--   rounds, Totals about sums by blocks, Logits about the chunks.
-- - Indexer/Triton: the dense logits kernel of kernels/sm12x_mqa.py and the choice between it and the
--   products. Indexer/Paged: the paged logits kernels of the same file, and the paged top-k. Scores is
--   about one logit, Rows about a window of them, Best about the windows.
-- - Indexer/Torch: the paged logits by products of kernels/sm12x_deep_gemm_fallbacks.py, and the
--   choice between them and the kernels.
-- - Prenorm: the split prenorm product of kernels/sm12x_mqa.py and its fallback; Splits is about the sum
--   of the splits.
-- - Dcp/Shard, Dcp/Prefill: `reassemble`, `owned_writeback`, `build_reassembly_index` and the inputs of
--   8node-nvfp4/validate_dcp_reassembly.py, and `_own` of 8node-nvfp4/validate_perf2_prefill.py.
-- - Dcp/TopK: the exact top-k over shards of 8node-nvfp4/validate_perf2_decode.py and
--   8node-nvfp4/validate_perf2_prefill.py. Order, Select and Gather bring two stable sorts to an
--   insertion by score and position; Union, Columns and Strides are about the ranks' candidates.
-- - Dcp/Recombine: the merge by lse of 8node-nvfp4/validate_lse_recombine.py.
-- - Prune: prune/awq_surgery.py. Rows is about slices of rows, Files about a written shard, Keep
--   and Bias about keep lists, Renumber, Origin, Pieces and Build about the loop of `build` over
--   one shard.
-- - Tests: the theorems at concrete inputs.
--
-- What is assumed
-- - Rounding is not modelled: theorems on floats hold for any arithmetic with the laws of
--   `Float.IsExact`. An operation that would give a NaN or an infinite weight gives `none`,
--   or in SparseMla/D512 and SparseMla/Scores a value of which nothing is known.
-- - A tensor is a function of its coordinates, and a kernel is modelled for one token; a grid of
--   programs runs in some order, and no two programs write the same place. The int32 indices are
--   integers; what the callers assert of shapes is the functions' types or a hypothesis.
-- - `torch.argsort` is a parameter, of which only a stable sort's documented behaviour is used. A score
--   is -inf or a number, of which only the order counts, and a position of -1 is `none`.
-- - `torch.topk` is a parameter too: k places of the tensor, each once, of which none has a smaller
--   value than one that is left out, and which of equal values it takes is not known. Floats are
--   compared as by a weak order, so that a logit is no NaN.
-- - Triton's casts of the cache's bytes are a parameter.
-- - A tensor's name in a checkpoint is what the script's patterns split it into.
-- - `next_power_of_2` is vLLM's, of which only n <= next_power_of_2(n) is used.
-- - `GLM52_PAGED_MQA_TOPK_CHUNK_SIZE` is not set, is no int, or is one; the tests of the platform and
--   of the switches are a Boolean.
-- - Loops have the bounds of the source, so there is no fuel.
--
-- Not modelled: reading and writing of files, HTTP clients, shell scripts, text patches of installed
-- packages, the glue to vLLM with the metadata of its batches (kernels/flashmla_sparse.py), the
-- quantisation of checkpoints in mtp/, and 8node-nvfp4/image/spark-vllm-docker, which is another
-- project's. 8node-nvfp4/kernels repeats kernels/, but for flashmla_sparse.py.
pub mod Common
pub mod Float
pub mod Softmax
pub mod SparseMla
pub mod Sm12x
pub mod Indexer
pub mod Prenorm
pub mod Dcp
pub mod Prune
pub mod Tests
