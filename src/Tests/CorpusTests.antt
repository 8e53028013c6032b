-- ===== src/Tests/CorpusTests.antt =====
-- palimpsest/corpus_index.cpp at concrete inputs.
use reame.Base.{◌≤◌, ◌≡◌, refl, ◌⊎◌, none, [], ◌∷◌, arith, length, list_eq, le_bytes}
use reame.Cache.Store.{fnv_from}
use reame.Corpus.{
  Config, Corpus, observe, draft, max_tokens, append_stream, evict_over, evict_oldest, drop_streams,
  shift_ends, rebuild_index, rewrite_file, index_streams, index_stream, index_loop, index_site,
  add_site, push_site, find_sites, ngram_key, token_bytes, draft_from, matches_at, stream_end_for,
  reversed, frames, frame,
}
use reame.Corpus.Budget.{IsValid, observe-IsValid}
use reame.Corpus.Draft.{Continues, draft_sound}

-- Bigrams, and at most 8 tokens.
abbrev cfg : Config
cfg = record { ngram = 2; max_log_bytes = 32; max_sites = 2 }

abbrev blank : Corpus
blank = record {
  cfg = cfg;
  log = [];
  stream_ends = [];
  flushed_streams = 0;
  index = [];
  file = none;
}

blank-IsValid : IsValid blank
blank-IsValid = record { ends = refl; small = omega arith; sites = tt }

abbrev seen : Corpus
seen = observe blank (1 ∷ 2 ∷ 3 ∷ 4 ∷ 5 ∷ [])

observe-IsValid_example : IsValid seen × (length seen.log ≤ 8)
unfolding max_tokens
observe-IsValid_example =
    observe-IsValid blank (1 ∷ 2 ∷ 3 ∷ 4 ∷ 5 ∷ []) blank-IsValid (omega arith) (omega arith)

draft_sound_example :
    (draft seen (9 ∷ 2 ∷ 3 ∷ []) 2 ≡ [])
    ⊎ Continues seen (2 ∷ 3 ∷ []) (draft seen (9 ∷ 2 ∷ 3 ∷ []) 2) 2
unfolding observe evict_over max_tokens append_stream
draft_sound_example = draft_sound seen (9 ∷ 2 ∷ 3 ∷ []) 2 observe-IsValid_example.0 (omega arith)

-- The bigram 2, 3 was followed by 4 and 5.
draft_two : draft seen (9 ∷ 2 ∷ 3 ∷ []) 2 ≡ 4 ∷ 5 ∷ []
unfolding observe append_stream evict_over max_tokens draft index_stream index_loop index_site
    add_site push_site find_sites ngram_key token_bytes draft_from matches_at stream_end_for
    reversed list_eq le_bytes fnv_from
draft_two = refl

-- A second stream of 5 tokens evicts the first one.
log_of_second : (observe seen (6 ∷ 7 ∷ 8 ∷ 6 ∷ 7 ∷ [])).log ≡ 6 ∷ 7 ∷ 8 ∷ 6 ∷ 7 ∷ []
unfolding observe append_stream evict_over max_tokens evict_oldest drop_streams shift_ends
    rebuild_index rewrite_file index_streams index_stream index_loop index_site add_site push_site
    find_sites ngram_key token_bytes le_bytes fnv_from frames frame
log_of_second = refl
