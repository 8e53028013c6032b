-- ===== src/Lib.antt =====
-- Reame: an LLM server for CPUs. This library models its C++ core.
--
-- Scheduler.antt (src/core/scheduler.cpp, include/reame/core/scheduler.hpp): the scheduler that
-- packs one slice per active request into each forward pass. `State` is Scheduler::Impl; `submit`,
-- `step` and `run_until_idle` are the methods of these names, and `step` is made of `admit`, the
-- decode and `advance` (one request of the batch), as in the code. The model's backend, sampler
-- and token callbacks are the fields of the parameter `Backend`, and what they own is its `World`;
-- an exception of theirs is `none` or `false`. One of `copy_seq` leaves `step` with what it leaves of
-- the state, which is the `threw` of `Attempt`. The mutexes make submit and step atomic, so every
-- history is a sequence of calls (`Scheduler.Reach`). Token ids are numbers; a negative max_tokens
-- acts as 0 does, since it is compared after the first token. `run_until_idle` takes
-- fuel: the sum, over the requests, of the tokens left (at least 1) plus one is enough.
--
-- Cache/Store.antt (src/cache/disk_cache_store.cpp): the LRU byte store on disk. `Store` holds the
-- fields of DiskCacheStore and the directory; `put`, `get`, `remove`, `clear`, `contains` are its
-- methods. The file system is the parameter `Files`. `evict_loop` takes as many rounds as there are
-- entries, which ends it by its own test. 64-bit sums wrap as in the code.
--
-- Cache/Manager.antt (src/cache/cache_manager.cpp, src/cache/cache_serializer.cpp): KV snapshots in
-- checksummed envelopes on the store, and the staging area of prefetch. zstd and the backend are
-- parameters; calls run one after the other.
--
-- Cache/Prefix.antt (src/cache/prefix_cache.cpp): snapshots of a prompt at block boundaries, on the
-- manager. `blocks_from` takes a round for each token of the prompt, and a block has one at least.
--
-- Corpus.antt (src/palimpsest/corpus_index.cpp): the log of generated streams, its n-gram index, the
-- drafts, and the log file. `Corpus` is CorpusIndex::Impl. `load_loop` takes a round for each byte
-- of the file, and each frame has at least 8.
--
-- Arca.antt and its children: the archive daemon. Arca/Resp.antt (src/arca/resp.cpp) is the wire
-- protocol, Arca/Archive.antt (src/arca/archive.cpp) the commands on the store and the corpus,
-- Arca/Client.antt (src/arca/client.cpp) the client's requests and its reading of replies, and
-- Arca/Session.antt (src/arca/server.cpp) what the daemon does with the bytes of one read.
-- `feed_loop` takes a round more than there are bytes, and each command takes a byte at least.
-- Arca/Decimal.antt is std::to_string and the value of digits.
--
-- Speculative.antt and its children: the draft sources that need no model
-- (src/speculative/prompt_lookup.cpp, src/speculative/form_draft.cpp).
--
-- Llama.antt (include/reame/core/llama_backend.hpp): the seam to the model, a parameter of all the
-- single-sequence code. Llama/Kv.antt has what its comments promise of the KV cache, as a record of
-- laws that theorems take as a hypothesis.
--
-- Sampler.antt (src/core/sampler.cpp): penalty, softmax, nucleus and draw. Floats, the generator and
-- the ranking by probability are parameters. `nucleus_loop` takes a round for each token of the
-- vocabulary, and each round but the last multiplies the candidates.
--
-- Speculative/Decoder.antt and its children (src/speculative/speculative_decoder.cpp): the decoding
-- loop, `turn` by `turn`, with the batched check in Speculative/Verifier.antt
-- (src/speculative/batch_verifier.cpp, src/speculative/draft_generator.cpp) and the acceptance test in
-- Speculative/Acceptance.antt (src/speculative/acceptance.cpp). `Run` holds the variables of
-- generate_stream; a turn goes on, returns or throws, and an access out of bounds (a drafted token
-- beyond the vocabulary) is taken for an exception. A turn emits a token, turns the speculation off
-- or is followed by one that emits, so `enough_turns`, twice the budget and three, is enough.
-- Decoder/Greedy.antt has the reference: the histories of plain greedy decoding, with what they leave
-- of the callback, and where it ends.
--
-- Engine.antt and its children (src/core/engine.cpp): `validate` and its kin, and a generation by the
-- plain path, which goes on from the KV of the last call, from the prefix cache, or from nothing.
-- Engine/Answers.antt is the archive of exact answers in front of it, with std::hash a parameter.
--
-- Base.antt and its children: tests, lists over native numbers, byte strings and words.
-- Tests.antt and its children: runs at concrete inputs, and the instances of the theorems.
--
-- Not modelled: the config file (src/utils/config.cpp), HTTP and its handlers (src/server), the conclave
-- and autoconfig (src/core/conclave.cpp, src/core/autoconfig.cpp), the sessions of the engine and its
-- paths through scheduler and decoder; llama.cpp, sockets, threads and logging, which are I/O or other
-- libraries. Floating point is a parameter.
pub mod Base
pub mod Llama
pub mod Sampler
pub mod Scheduler
pub mod Cache
pub mod Corpus
pub mod Arca
pub mod Speculative
pub mod Tests
pub mod Engine
