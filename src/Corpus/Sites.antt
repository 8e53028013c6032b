-- ===== src/Corpus/Sites.antt =====
-- palimpsest/corpus_index.cpp: stream boundaries, and the sites that the index keeps.
use reame.Base.{
  ℕ, zero, suc, ◌+◌, ◌-◌, ◌≤◌, ◌<◌, ◌^◌, ◌≡◌, refl, inl, inr, some, List, [], ◌∷◌, ◌++◌, arith,
  Bool-cases, length, drop, take, All, All-append, All-drop, All-weaken, ltb, ◌==◌, u32, subst,
  some_inj,
}
use reame.Corpus.{
  Config, Index, push_site, add_site, index_site, index_loop, index_stream, index_streams,
  find_sites, ngram_key, drop_streams, shift_ends,
}

-- The ends cut the log from `begin` to `size` into streams that are not empty.
abbrev pub Ends : ℕ → List ℕ → ℕ → Type 0
Ends begin [] size = begin ≡ size
Ends begin (end ∷ ends) size = (begin < end) × Ends end ends size

pub Ends-le : (begin : ℕ) (ends : List ℕ) (size : ℕ) → Ends begin ends size → begin ≤ size
Ends-le begin [] size h = omega arith
Ends-le begin (end ∷ ends) size h = omega (arith, Ends-le end ends size h.1)

pub Ends-append :
    (begin : ℕ) (ends : List ℕ) (size more : ℕ)
    → Ends begin ends size
    → size < more
    → Ends begin (ends ++ more ∷ []) more
Ends-append begin [] size more h lt = (omega arith, refl)
Ends-append begin (end ∷ ends) size more h lt = (h.0, Ends-append end ends size more h.1 lt)

-- Whole streams are dropped, until what is left fits.
pub drop_streams-Ends :
    (limit size dropped : ℕ) (ends : List ℕ)
    → Ends dropped ends size
    → Ends (drop_streams limit size dropped ends).0 (drop_streams limit size dropped ends).1 size
      × (size - (drop_streams limit size dropped ends).0 ≤ limit)
      × (dropped ≤ (drop_streams limit size dropped ends).0)
unfolding drop_streams
drop_streams-Ends limit size dropped [] h = (h, omega arith, omega arith)
drop_streams-Ends limit size dropped (end ∷ ends) h =
    elim (Bool-cases (ltb limit (size - dropped))) [
      | inl over ↦
          rw (over, drop_streams)
            (let (e, fits, le) = drop_streams-Ends limit size end ends h.1 in
              (e, fits, omega (arith, h.0)))
      | inr fits ↦ rw (fits, drop_streams) (h, ground arith, omega arith)
    ]

pub shift_ends-Ends :
    (n begin : ℕ) (ends : List ℕ) (size : ℕ)
    → n ≤ begin
    → Ends begin ends size
    → Ends (begin - n) (shift_ends n ends) (size - n)
unfolding shift_ends
shift_ends-Ends n begin [] size le h = omega arith
shift_ends-Ends n begin (end ∷ ends) size le h =
    (omega (arith, h.0), shift_ends-Ends n end ends size (omega (arith, h.0)) h.1)

-- A site follows a whole n-gram and has a token to propose.
abbrev pub SiteOk : ℕ → ℕ → ℕ → Type 0
SiteOk n size site = (n ≤ site) × (site < size)

abbrev pub SitesOk : ℕ → ℕ → Index → Type 0
SitesOk n size ix = All (λ e. All (SiteOk n size) e.1) ix

pub SitesOk-grow :
    (n size more : ℕ) (ix : Index) → size ≤ more → SitesOk n size ix → SitesOk n more ix
SitesOk-grow n size more ix le h =
    All-weaken ix (λ e he. All-weaken e.1 (λ s hs. (hs.0, omega (arith, hs.1))) he) h

push_site-SitesOk :
    (max_sites site n size : ℕ) (sites : List ℕ)
    → SiteOk n size site
    → All (SiteOk n size) sites
    → All (SiteOk n size) (push_site max_sites site sites)
unfolding push_site
push_site-SitesOk max_sites site n size sites s h =
    All-drop (SiteOk n size) (length (sites ++ site ∷ []) - max_sites) (sites ++ site ∷ [])
      (All-append (SiteOk n size) sites (site ∷ []) h (s, tt))

add_site-SitesOk :
    (max_sites k site n size : ℕ) (ix : Index)
    → SiteOk n size site
    → SitesOk n size ix
    → SitesOk n size (add_site max_sites k site ix)
unfolding add_site
add_site-SitesOk max_sites k site n size [] s h =
    (push_site-SitesOk max_sites site n size [] s tt, tt)
add_site-SitesOk max_sites k site n size ((j, sites) ∷ ix) s h = elim (Bool-cases (j == k)) [
  | inl same ↦ rw same (push_site-SitesOk max_sites site n size sites s h.0, h.1)
  | inr other ↦ rw other (h.0, add_site-SitesOk max_sites k site n size ix s h.1)
]

index_loop-SitesOk :
    (cfg : Config) (log : List ℕ) (rounds i size : ℕ) (ix : Index)
    → size < 2 ^ 32
    → (i + rounds) + cfg.ngram ≤ size
    → SitesOk cfg.ngram size ix
    → SitesOk cfg.ngram size (index_loop cfg log rounds i ix)
unfolding index_loop index_site
index_loop-SitesOk cfg log zero i size ix small le h = h
index_loop-SitesOk cfg log (suc rounds) i size ix small le h =
    index_loop-SitesOk cfg log rounds (suc i) size (index_site cfg log i ix) small (omega arith) (
      add_site-SitesOk cfg.max_sites (ngram_key (take cfg.ngram (drop i log))) (u32 (i + cfg.ngram))
        cfg.ngram size ix (omega arith) h)

pub index_stream-SitesOk :
    (cfg : Config) (log : List ℕ) (begin end size : ℕ) (ix : Index)
    → size < 2 ^ 32
    → end ≤ size
    → SitesOk cfg.ngram size ix
    → SitesOk cfg.ngram size (index_stream cfg log begin end ix)
unfolding index_stream
index_stream-SitesOk cfg log begin end size ix small le h =
    elim (Bool-cases (ltb (end - begin) (cfg.ngram + 1))) [
      | inl short ↦ rw short h
      | inr long ↦ rw long (
          index_loop-SitesOk cfg log (end - cfg.ngram - begin) begin size ix small (ground arith) h)
    ]

pub index_streams-SitesOk :
    (cfg : Config) (log : List ℕ) (begin : ℕ) (ends : List ℕ) (size : ℕ) (ix : Index)
    → size < 2 ^ 32
    → Ends begin ends size
    → SitesOk cfg.ngram size ix
    → SitesOk cfg.ngram size (index_streams cfg log begin ends ix)
unfolding index_streams
index_streams-SitesOk cfg log begin [] size ix small e h = h
index_streams-SitesOk cfg log begin (end ∷ ends) size ix small e h =
    index_streams-SitesOk cfg log end ends size (index_stream cfg log begin end ix) small e.1
      (index_stream-SitesOk cfg log begin end size ix small (Ends-le end ends size e.1) h)

pub find_sites-SitesOk :
    (n size k : ℕ) (ix : Index) (sites : List ℕ)
    → SitesOk n size ix
    → find_sites k ix ≡ some sites
    → All (SiteOk n size) sites
unfolding find_sites
find_sites-SitesOk n size k [] sites h e = absurd (cc)
find_sites-SitesOk n size k ((j, s) ∷ ix) sites h e = elim (Bool-cases (j == k)) [
  | inl same ↦ subst (All (SiteOk n size)) (some_inj (rw same at e)) h.0
  | inr other ↦ find_sites-SitesOk n size k ix sites h.1 (rw other at e)
]
