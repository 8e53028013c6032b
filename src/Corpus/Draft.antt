-- ===== src/Corpus/Draft.antt =====
-- palimpsest/corpus_index.cpp: what `draft` proposes.
use reame.Base.{
  ℕ, ◌-◌, ◌≤◌, ◌<◌, min, not, ◌||◌, ◌≡◌, refl, ◌⊎◌, inl, inr, Option, none, some, List, [], ◌∷◌,
  arith, Bool-cases, length, drop, take, All, ltb, leb, ◌==◌, if◌then◌else◌, list_eq_iff, subst,
  sym, ap, true, All-weaken,
}
use reame.Corpus.{
  Corpus, draft, draft_from, matches_at, stream_end_for, reversed, find_sites, ngram_key,
}
use reame.Corpus.Sites.{Ends, Ends-le, SiteOk, find_sites-SitesOk}
use reame.Corpus.Budget.{IsValid}

-- The proposal continues an occurrence of `gram` at `start - n`, within one stream: no stream ends
-- between `start` and the end of the proposal.
pub record Continues (c : Corpus) (gram d : List ℕ) (k : ℕ) : Type 0 where
  pub start : ℕ
  pub end : ℕ
  pub occurs : take c.cfg.ngram (drop (start - c.cfg.ngram) c.log) ≡ gram
  pub after : c.cfg.ngram ≤ start
  pub copied : d ≡ take (min (end - start) k) (drop start c.log)
  pub nonempty : start < end
  pub inside : end ≤ length c.log
  pub one_stream : All (λ e. (e < start) ⊎ (end ≤ e)) c.stream_ends

-- The first of the ends above the offset, or the size; no end lies between.
abbrev EndFor : ℕ → List ℕ → ℕ → ℕ → Type 0
EndFor offset ends size m = (offset < m) × (m ≤ size) × All (λ e. (e ≤ offset) ⊎ (m ≤ e)) ends

Ends-above :
    (offset low b : ℕ) (es : List ℕ) (n : ℕ)
    → low ≤ b
    → Ends b es n
    → All (λ e. (e ≤ offset) ⊎ (low ≤ e)) es
Ends-above offset low b [] n le e = tt
Ends-above offset low b (x ∷ es) n le e =
    (inr (omega (arith, e.0)), Ends-above offset low x es n (omega (arith, e.0)) e.1)

-- The first end above the offset: it is within the log, and no end lies between.
stream_end_for_lem :
    (begin : ℕ) (ends : List ℕ) (size offset : ℕ)
    → Ends begin ends size
    → offset < size
    → EndFor offset ends size (stream_end_for ends size offset)
unfolding stream_end_for
stream_end_for_lem begin [] size offset h lt = (omega arith, omega arith, tt)
stream_end_for_lem begin (end ∷ ends) size offset h lt = elim (Bool-cases (ltb offset end)) [
  | inl above ↦
      subst (EndFor offset (end ∷ ends) size)
        (sym (ap (λ b. if b then end else stream_end_for ends size offset) above))
        (
          ground arith,
          Ends-le end ends size h.1,
          (inr (omega arith), Ends-above offset end end ends size (omega arith) h.1),
        )
  | inr below ↦
      let (lo, hi, all) = stream_end_for_lem end ends size offset h.1 lt in
      subst (EndFor offset (end ∷ ends) size)
        (sym (ap (λ b. if b then end else stream_end_for ends size offset) below))
        (lo, hi, (inl (ground arith), all))
]

occurs_of_matches :
    (c : Corpus) (gram : List ℕ) (start : ℕ)
    → matches_at c gram start ≡ true
    → gram ≡ take c.cfg.ngram (drop (start - c.cfg.ngram) c.log)
unfolding matches_at
occurs_of_matches c gram start h =
    (list_eq_iff gram (take c.cfg.ngram (drop (start - c.cfg.ngram) c.log))).0 h

draft_from_sound :
    (c : Corpus) (gram : List ℕ) (k : ℕ) (sites : List ℕ)
    → IsValid c
    → 0 < c.cfg.ngram
    → All (SiteOk c.cfg.ngram (length c.log)) sites
    → (draft_from c gram k sites ≡ []) ⊎ Continues c gram (draft_from c gram k sites) k
unfolding draft_from
draft_from_sound c gram k [] v pos h = inl refl
draft_from_sound c gram k (start ∷ sites) v pos h =
    let end = stream_end_for c.stream_ends (length c.log) (start - 1) in
    elim (Bool-cases (leb end start || not (matches_at c gram start))) [
      | inl skip ↦ rw (skip, draft_from) (draft_from_sound c gram k sites v pos h.1)
      | inr go ↦
          let (lo, hi, all) =
            stream_end_for_lem 0 c.stream_ends (length c.log) (start - 1) v.ends
              (omega (arith, h.0)) in
          let matched : matches_at c gram start ≡ true = ground arith in
          inr (record {
            start = start;
            end = end;
            occurs = sym (occurs_of_matches c gram start matched);
            after = h.0.0;
            copied = rw (go, draft_from) refl;
            nonempty = ground arith;
            inside = hi;
            one_stream =
                All-weaken c.stream_ends
                  (λ e le. elim le [ inl x ↦ inl (omega (arith, h.0)) | inr y ↦ inr y ]) all;
          })
    ]

All-reversed : (P : ℕ → Type 0) (xs out : List ℕ) → All P xs → All P out → All P (reversed xs out)
unfolding reversed
All-reversed P [] out h k = k
All-reversed P (x ∷ xs) out h k = All-reversed P xs (x ∷ out) h.1 (h.0, k)

-- A draft is empty, or it continues an earlier occurrence in the log of the last n tokens of the
-- tail: it is the next tokens of the log there, at most k of them, all from the one stream that
-- the occurrence runs on into (on a valid corpus, with n above 0).
pub draft_sound :
    (c : Corpus) (tail : List ℕ) (k : ℕ)
    → IsValid c
    → 0 < c.cfg.ngram
    → (draft c tail k ≡ []) ⊎ Continues c (drop (length tail - c.cfg.ngram) tail) (draft c tail k) k
unfolding draft
draft_sound c tail k v pos = elim (Bool-cases ((k == 0) || ltb (length tail) c.cfg.ngram)) [
  | inl nothing ↦ rw nothing (inl refl)
  | inr something ↦
      rw something
        (found (find_sites (ngram_key (drop (length tail - c.cfg.ngram) tail)) c.index) refl)
]
  where
    gram : List ℕ
    gram = drop (length tail - c.cfg.ngram) tail

    lookup_draft : Option (List ℕ) → List ℕ
    lookup_draft none = []
    lookup_draft (some sites) = draft_from c gram k (reversed sites [])

    found :
        (o : Option (List ℕ))
        → find_sites (ngram_key gram) c.index ≡ o
        → (lookup_draft o ≡ []) ⊎ Continues c gram (lookup_draft o) k
    found none e = inl refl
    found (some sites) e = draft_from_sound c gram k (reversed sites []) v pos (
        All-reversed (SiteOk c.cfg.ngram (length c.log)) sites []
          (find_sites-SitesOk c.cfg.ngram (length c.log) (ngram_key gram) c.index sites v.sites e)
          tt)
