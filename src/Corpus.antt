-- ===== src/Corpus.antt =====
-- palimpsest/corpus_index.cpp: the log of generated streams and its n-gram index.
-- A token is its 32 bits. std::unordered_map is an association list, the newest key first; a deque
-- of sites has its newest last. `file` is the content of corpus.log, if it can be opened.
pub mod Sites
pub mod Budget
pub mod Draft
use reame.Base.{
  ℕ, zero, suc, ◌+◌, ◌-◌, ◌*◌, ◌/◌, ◌^◌, min, not, Bool, true, false, ◌&&◌, ◌||◌, Option, none,
  some, List, [], ◌∷◌, ◌++◌, ltb, leb, ◌==◌, if◌then◌else◌, length, take, drop, Bytes, list_eq,
  le_bytes, from_le, u32, map,
}
use reame.Cache.Store.{fnv_from}

pub record Config : Type 0 where
  pub ngram : ℕ
  pub max_log_bytes : ℕ
  pub max_sites : ℕ

abbrev pub Index : Type 0
Index = List (ℕ × List ℕ)

pub record Corpus : Type 0 where
  pub cfg : Config
  pub log : List ℕ
  pub stream_ends : List ℕ
  pub flushed_streams : ℕ
  pub index : Index
  pub file : Option Bytes

unfoldable pub token_bytes : List ℕ → Bytes
token_bytes [] = []
token_bytes (t ∷ ts) = le_bytes 4 t ++ token_bytes ts

-- FNV-1a over the bytes of the tokens.
unfoldable pub ngram_key : List ℕ → ℕ
ngram_key ts = fnv_from 0xcbf2_9ce4_8422_2325 (token_bytes ts)

unfoldable pub find_sites : ℕ → Index → Option (List ℕ)
find_sites k [] = none
find_sites k ((j, sites) ∷ ix) = if j == k then some sites else find_sites k ix

-- `push_back`, then `pop_front` while there are more than `max_sites`.
unfoldable pub push_site : ℕ → ℕ → List ℕ → List ℕ
push_site max_sites site sites = let all = sites ++ site ∷ [] in drop (length all - max_sites) all

-- `index[key]` makes an empty deque for a new key.
unfoldable pub add_site : ℕ → ℕ → ℕ → Index → Index
add_site max_sites k site [] = (k, push_site max_sites site []) ∷ []
add_site max_sites k site ((j, sites) ∷ ix) =
    if j == k
    then (j, push_site max_sites site sites) ∷ ix
    else (j, sites) ∷ add_site max_sites k site ix

unfoldable pub index_site : Config → List ℕ → ℕ → Index → Index
index_site cfg log i ix =
    add_site cfg.max_sites (ngram_key (take cfg.ngram (drop i log))) (u32 (i + cfg.ngram)) ix

-- `rounds` positions from `i` on.
unfoldable pub index_loop : Config → List ℕ → ℕ → ℕ → Index → Index
index_loop cfg log zero i ix = ix
index_loop cfg log (suc rounds) i ix = index_loop cfg log rounds (suc i) (index_site cfg log i ix)

unfoldable pub index_stream : Config → List ℕ → ℕ → ℕ → Index → Index
index_stream cfg log begin end ix =
    if ltb (end - begin) (cfg.ngram + 1)
    then ix
    else index_loop cfg log (end - cfg.ngram - begin) begin ix

unfoldable pub index_streams : Config → List ℕ → ℕ → List ℕ → Index → Index
index_streams cfg log begin [] ix = ix
index_streams cfg log begin (end ∷ ends) ix =
    index_streams cfg log end ends (index_stream cfg log begin end ix)

unfoldable pub rebuild_index : Corpus → Corpus
rebuild_index c = record c { index = index_streams c.cfg c.log 0 c.stream_ends [] }

-- sizeof(TokenId) is 4.
unfoldable pub max_tokens : Config → ℕ
max_tokens cfg = cfg.max_log_bytes / 4

-- A stream on disk: u32 length and the raw tokens.
unfoldable pub frame : List ℕ → Bytes
frame ts = le_bytes 4 (length ts) ++ token_bytes ts

-- The streams of the log, cut at `ends`.
unfoldable pub frames : List ℕ → ℕ → List ℕ → Bytes
frames log begin [] = []
frames log begin (end ∷ ends) = frame (take (end - begin) (drop begin log)) ++ frames log end ends

-- A file that cannot be opened or written is left out.
unfoldable pub rewrite_file : Corpus → Corpus
rewrite_file c = record c {
  file = some (frames c.log 0 c.stream_ends);
  flushed_streams = length c.stream_ends;
}

-- The loop of `evict_oldest`: the tokens dropped, and the ends that stay.
unfoldable pub drop_streams : ℕ → ℕ → ℕ → List ℕ → ℕ × List ℕ
drop_streams limit size dropped [] = (dropped, [])
drop_streams limit size dropped (end ∷ ends) =
    if ltb limit (size - dropped) then drop_streams limit size end ends else (dropped, end ∷ ends)

unfoldable pub shift_ends : ℕ → List ℕ → List ℕ
shift_ends n [] = []
shift_ends n (end ∷ ends) = (end - n) ∷ shift_ends n ends

unfoldable pub evict_oldest : Corpus → Corpus
evict_oldest c =
    let cut = drop_streams (max_tokens c.cfg) (length c.log) 0 c.stream_ends in
    rewrite_file
      (rebuild_index (record c { log = drop cut.0 c.log; stream_ends = shift_ends cut.0 cut.1 }))

unfoldable pub evict_over : Corpus → Corpus
evict_over c = if ltb (max_tokens c.cfg) (length c.log) then evict_oldest c else c

-- A stream joins the log and the index.
unfoldable pub append_stream : Corpus → List ℕ → Corpus
append_stream c ts =
    let log = c.log ++ ts in
    record c {
      log = log;
      stream_ends = c.stream_ends ++ length log ∷ [];
      index = index_stream c.cfg log (length c.log) (length log) c.index;
    }

unfoldable pub observe : Corpus → List ℕ → Corpus
observe c [] = c
observe c (t ∷ ts) = evict_over (append_stream c (t ∷ ts))

-- std::upper_bound over the ends, which ascend.
unfoldable pub stream_end_for : List ℕ → ℕ → ℕ → ℕ
stream_end_for [] size offset = size
stream_end_for (end ∷ ends) size offset =
    if ltb offset end then end else stream_end_for ends size offset

unfoldable pub matches_at : Corpus → List ℕ → ℕ → Bool
matches_at c gram start = list_eq gram (take c.cfg.ngram (drop (start - c.cfg.ngram) c.log))

-- The newest site first; `sites` is reversed.
unfoldable pub draft_from : Corpus → List ℕ → ℕ → List ℕ → List ℕ
draft_from c gram k [] = []
draft_from c gram k (start ∷ sites) =
    let end = stream_end_for c.stream_ends (length c.log) (start - 1) in
    if leb end start || not (matches_at c gram start)
    then draft_from c gram k sites
    else take (min (end - start) k) (drop start c.log)

unfoldable pub reversed : List ℕ → List ℕ → List ℕ
reversed [] out = out
reversed (x ∷ xs) out = reversed xs (x ∷ out)

-- `k <= 0` is `k == 0` here.
unfoldable pub draft : Corpus → List ℕ → ℕ → List ℕ
draft c tail k =
    let gram = drop (length tail - c.cfg.ngram) tail in
    if (k == 0) || ltb (length tail) c.cfg.ngram
    then []
    else elim (find_sites (ngram_key gram) c.index) [
      | none ↦ []
      | some sites ↦ draft_from c gram k (reversed sites [])
    ]

unfoldable pub key_count : Corpus → ℕ
key_count c = length c.index

unfoldable pub log_size : Corpus → ℕ
log_size c = length c.log

-- The tokens of `n` words, and what is left of the file; `none` is a short read.
unfoldable pub read_tokens : ℕ → Bytes → Option (List ℕ × Bytes)
read_tokens zero bytes = some ([], bytes)
read_tokens (suc n) bytes =
    if ltb (length bytes) 4 then none else elim (read_tokens n (drop 4 bytes)) [
      | none ↦ none
      | some (ts, rest) ↦ some (from_le (take 4 bytes) ∷ ts, rest)
    ]

-- One turn of the loop of `load`: `none` leaves the loop.
unfoldable pub read_frame : Bytes → Option (List ℕ × Bytes)
read_frame bytes =
    let len = from_le (take 4 bytes) in
    if ltb (length bytes) 4 || (len == 0) || ltb (2 ^ 26) len
    then none
    else read_tokens len (drop 4 bytes)

unfoldable pub load_loop : ℕ → Bytes → Corpus → Corpus
load_loop zero bytes c = c
load_loop (suc fuel) bytes c = elim (read_frame bytes) [
  | none ↦ c
  | some (ts, rest) ↦ load_loop fuel rest (append_stream c ts)
]

-- Each frame is at least 8 bytes long, so a turn for each byte is enough.
unfoldable pub load : Corpus → Corpus
load c = elim c.file [
  | none ↦ c
  | some bytes ↦
      let c' = load_loop (length bytes) bytes c in
      evict_over (record c' { flushed_streams = length c'.stream_ends })
]

unfoldable pub open_corpus : Config → Option Bytes → Corpus
open_corpus cfg file =
    load (record {
      cfg = cfg;
      log = [];
      stream_ends = [];
      flushed_streams = 0;
      index = [];
      file = file;
    })

abbrev pub or_empty : Option Bytes → Bytes
or_empty none = []
or_empty (some bytes) = bytes

abbrev pub end_before : List ℕ → ℕ → ℕ
end_before ends zero = 0
end_before [] (suc s) = 0
end_before (end ∷ ends) (suc zero) = end
end_before (end ∷ ends) (suc (suc s)) = end_before ends (suc s)

unfoldable pub flush : Corpus → Corpus
flush c = if leb (length c.stream_ends) c.flushed_streams then c else record c {
  file = some (
      or_empty c.file
      ++ frames c.log (end_before c.stream_ends c.flushed_streams)
          (drop c.flushed_streams c.stream_ends));
  flushed_streams = length c.stream_ends;
}
