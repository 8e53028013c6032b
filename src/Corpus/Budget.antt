-- ===== src/Corpus/Budget.antt =====
-- palimpsest/corpus_index.cpp: the log against its budget, and the index against the log.
use reame.Base.{
  ℕ, suc, ◌+◌, ◌-◌, ◌≤◌, ◌<◌, ◌^◌, ◌≡◌, inl, inr, List, [], ◌∷◌, ◌++◌, arith, Bool-cases, length,
  length-append, length-drop, drop, ltb, subst, sym,
}
use reame.Corpus.{
  Corpus, append_stream, evict_over, evict_oldest, rebuild_index, rewrite_file, observe, max_tokens,
  drop_streams, shift_ends,
}
use reame.Corpus.Sites.{
  Ends, Ends-append, drop_streams-Ends, shift_ends-Ends, SitesOk, SitesOk-grow,
  index_stream-SitesOk, index_streams-SitesOk,
}

-- The ends cut the whole log into streams, the log's offsets fit in 32 bits, and every site of the
-- index follows a whole n-gram and has a token to propose.
pub record IsValid (c : Corpus) : Type 0 where
  pub ends : Ends 0 c.stream_ends (length c.log)
  pub small : length c.log < 2 ^ 32
  pub sites : SitesOk c.cfg.ngram (length c.log) c.index

append_stream-IsValid :
    (c : Corpus) (t : ℕ) (ts : List ℕ)
    → IsValid c
    → length c.log + suc (length ts) < 2 ^ 32
    → IsValid (append_stream c (t ∷ ts))
unfolding append_stream
append_stream-IsValid c t ts v room =
    let grows : length (c.log ++ t ∷ ts) ≡ length c.log + suc (length ts) =
      length-append c.log (t ∷ ts) in
    record {
      ends =
          Ends-append 0 c.stream_ends (length c.log) (length (c.log ++ t ∷ ts)) v.ends
            (omega arith);
      small = omega arith;
      sites =
          index_stream-SitesOk c.cfg (c.log ++ t ∷ ts) (length c.log) (length (c.log ++ t ∷ ts))
            (length (c.log ++ t ∷ ts)) c.index (omega arith) (omega arith)
            (SitesOk-grow c.cfg.ngram (length c.log) (length (c.log ++ t ∷ ts)) c.index
              (omega arith) v.sites);
    }

evict_oldest-IsValid :
    (c : Corpus)
    → IsValid c
    → IsValid (evict_oldest c) × (length (evict_oldest c).log ≤ max_tokens c.cfg)
unfolding evict_oldest rebuild_index rewrite_file
evict_oldest-IsValid c v =
    let cut = drop_streams (max_tokens c.cfg) (length c.log) 0 c.stream_ends in
    let (e, fits, _) = drop_streams-Ends (max_tokens c.cfg) (length c.log) 0 c.stream_ends v.ends in
    let left : length (drop cut.0 c.log) ≡ length c.log - cut.0 = length-drop cut.0 c.log in
    let ends : Ends 0 (shift_ends cut.0 cut.1) (length (drop cut.0 c.log)) =
      subst (Ends 0 (shift_ends cut.0 cut.1)) (sym left) (
        subst (λ b. Ends b (shift_ends cut.0 cut.1) (length c.log - cut.0)) (omega arith)
          (shift_ends-Ends cut.0 cut.0 cut.1 (length c.log) (omega arith) e)) in
    (
      record {
        ends = ends;
        small = omega (arith, v.small);
        sites =
            index_streams-SitesOk c.cfg (drop cut.0 c.log) 0 (shift_ends cut.0 cut.1)
              (length (drop cut.0 c.log)) [] (omega (arith, v.small)) ends tt;
      },
      omega arith,
    )

evict_over-IsValid :
    (c : Corpus)
    → IsValid c
    → IsValid (evict_over c) × (length (evict_over c).log ≤ max_tokens c.cfg)
unfolding evict_over
evict_over-IsValid c v = elim (Bool-cases (ltb (max_tokens c.cfg) (length c.log))) [
  | inl over ↦ rw over (evict_oldest-IsValid c v)
  | inr fits ↦ rw fits (v, ground arith)
]

-- Observing a stream keeps the corpus valid and its log within the byte budget, evicting whole
-- streams where it must, as long as the offsets fit in 32 bits while the stream is added.
pub observe-IsValid :
    (c : Corpus) (ts : List ℕ)
    → IsValid c
    → length c.log ≤ max_tokens c.cfg
    → length c.log + length ts < 2 ^ 32
    → IsValid (observe c ts) × (length (observe c ts).log ≤ max_tokens c.cfg)
unfolding observe append_stream
observe-IsValid c [] v fits room = (v, fits)
observe-IsValid c (t ∷ ts) v fits room =
    evict_over-IsValid (append_stream c (t ∷ ts)) (append_stream-IsValid c t ts v room)
