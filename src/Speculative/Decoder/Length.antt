-- ===== src/Speculative/Decoder/Length.antt =====
-- speculative/: no source of drafts gives more tokens than it is asked for.
use reame.Base.{
  ℕ, zero, suc, Bool, ◌+◌, ◌-◌, ◌≤◌, inl, inr, not, Option, none, some, List, [], ◌∷◌, arith,
  Bool-cases, Option-cases, ◌==◌, ltb, leb, ◌||◌, length, length-take, take, drop, min,
}
use reame.Corpus.{Corpus, draft_from, draft}
use reame.Corpus
use reame.Llama.{Llama}
use reame.Sampler.{Floats, Random}
use reame.Speculative.PromptLookup.{
  continuation, last_occurrence, found_draft, lookup_loop, longest, shortest, find_draft,
}
use reame.Speculative.PromptLookup
use reame.Speculative.Decoder.{Rates, Config, corpus_draft, form_draft, looked_up}

length-take-le : (n : ℕ) (ts : List ℕ) → length (take n ts) ≤ n
length-take-le n ts = omega (arith, length-take n ts)

found_draft-short :
    (history : List ℕ) (n k : ℕ) (site : Option ℕ) (rest : List ℕ)
    → length rest ≤ k
    → length (found_draft history n k site rest) ≤ k
unfolding found_draft continuation
found_draft-short history n k none rest h = h
found_draft-short history n k (some start) rest h =
    omega (arith, length-take (min (length history - (start + n)) k) (drop (start + n) history))

lookup_loop-short :
    (history : List ℕ) (k rounds n : ℕ) → length (lookup_loop history k rounds n) ≤ k
unfolding lookup_loop
lookup_loop-short history k zero n = omega arith
lookup_loop-short history k (suc rounds) n =
    let rest = lookup_loop-short history k rounds (n - 1) in
    elim (Bool-cases (ltb (length history) (n + 1))) [
      | inl e ↦ rw e rest
      | inr e ↦ rw e (
          found_draft-short history n k (last_occurrence history n (length history - n))
            (lookup_loop history k rounds (n - 1)) rest)
    ]

find_draft-short :
    (cfg : PromptLookup.Config) (history : List ℕ) (k : ℕ) → length (find_draft cfg history k) ≤ k
unfolding find_draft
find_draft-short cfg history k = elim (Bool-cases (k == 0)) [
  | inl e ↦ rw e (omega arith)
  | inr e ↦ rw e (lookup_loop-short history k (longest cfg + 1 - shortest cfg) (longest cfg))
]

draft_from-short :
    (c : Corpus) (gram : List ℕ) (k : ℕ) (sites : List ℕ) → length (draft_from c gram k sites) ≤ k
unfolding draft_from
draft_from-short c gram k [] = omega arith
draft_from-short c gram k (start ∷ sites) =
    let end = Corpus.stream_end_for c.stream_ends (length c.log) (start - 1) in
    elim (Bool-cases (leb end start || not (Corpus.matches_at c gram start))) [
      | inl e ↦ rw (e, draft_from) (draft_from-short c gram k sites)
      | inr e ↦
          rw (e, draft_from) (omega (arith, length-take (min (end - start) k) (drop start c.log)))
    ]

corpus_draft-short :
    {F R W V C : Type 0} (fl : Floats F) (random : Random R F)
    (ranked : List F → ℕ → List ℕ → List ℕ) (rates : Rates) (target : Llama W (List F))
    (drafter : Llama V (List F)) (on_token : C → ℕ → C × Option Bool) (corpus : Option Corpus)
    (history : List ℕ) (k : ℕ)
    → length (corpus_draft fl random ranked rates target drafter on_token corpus history k) ≤ k
unfolding corpus_draft draft
corpus_draft-short fl random ranked rates target drafter on_token none history k = omega arith
corpus_draft-short fl random ranked rates target drafter on_token (some c) history k =
    let gram = drop (length history - c.cfg.ngram) history in
    elim (Bool-cases ((k == 0) || ltb (length history) c.cfg.ngram)) [
      | inl e ↦ rw e (omega arith)
      | inr e ↦ elim (Option-cases (Corpus.find_sites (Corpus.ngram_key gram) c.index)) [
        | inl absent ↦ rw (e, draft) (rw absent (omega arith))
        | inr (sites, found) ↦
            rw (e, draft) (rw found (draft_from-short c gram k (Corpus.reversed sites [])))
      ]
    ]

pub looked_up-short :
    {F R W V C : Type 0} (fl : Floats F) (random : Random R F)
    (ranked : List F → ℕ → List ℕ → List ℕ) (rates : Rates) (target : Llama W (List F))
    (drafter : Llama V (List F)) (on_token : C → ℕ → C × Option Bool) (cfg : Config)
    (corpus : Option Corpus) (history : List ℕ) (k : ℕ)
    → length (looked_up fl random ranked rates target drafter on_token cfg corpus history k) ≤ k
unfolding looked_up form_draft
looked_up-short fl random ranked rates target drafter on_token cfg corpus history k =
    let found =
      find_draft (record { max_ngram = cfg.lookup_max_ngram; min_ngram = cfg.lookup_min_ngram })
        history k in
    let archived = corpus_draft fl random ranked rates target drafter on_token corpus history k in
    elim (Bool-cases (not (length found == 0))) [
      | inl e ↦ rw e (
          find_draft-short
            (record { max_ngram = cfg.lookup_max_ngram; min_ngram = cfg.lookup_min_ngram }) history
            k)
      | inr e ↦ elim (Bool-cases (not (length archived == 0))) [
        | inl e' ↦
            rw (e, e')
              (corpus_draft-short fl random ranked rates target drafter on_token corpus history k)
        | inr e' ↦ rw (e, e') (length-take-le k _)
      ]
    ]
