-- ===== src/Cache/Prefix/Prefill.antt =====
-- cache/prefix_cache.cpp: the boundaries, and a prefill over all of them.
use reame.Base.{
  ℕ, zero, suc, ◌+◌, ◌^◌, ◌≤◌, ◌<◌, ◌≡◌, ◌⊎◌, refl, sym, subst, ◌∙◌, ap, inl, inr, Bool, true,
  Option, none, some, List, [], ◌∷◌, ◌++◌, arith, Bool-cases, Option-cases, length, Bytes, take,
  drop, leb, ltb, ◌==◌, u32, All, All-append, take-length, if◌then◌else◌,
}
use reame.Llama.{Llama}
use reame.Llama.Kv.{Kv}
use reame.Cache.Store.{Files}
use reame.Cache.Store.Keeps.{FilesLaws}
use reame.Cache.Manager.{Zstd, Manager, packed_state, load_state}
use reame.Cache.Manager.Sound.{ZstdLaw}
use reame.Cache.Prefix.{
  PrefixCache, boundaries, blocks_from, key_for, last_first, snapshots, restore, decoded, extend,
  prefill_from, prefill,
}
use reame.Cache.Prefix.Exact.{IsSound, PrefillOk, Restored, restore-Restored, decoded-Ok}

-- From `lo` up to `hi`, which is the last.
abbrev Ascends : ℕ → ℕ → List ℕ → Type 0
Ascends lo hi [] = lo ≡ hi
Ascends lo hi (n ∷ ns) = (lo ≤ n) × Ascends n hi ns

Ascends-le : (lo hi : ℕ) (ns : List ℕ) → Ascends lo hi ns → lo ≤ hi
Ascends-le lo hi [] a = omega (arith, a)
Ascends-le lo hi (n ∷ ns) a = omega (arith, a.0, Ascends-le n hi ns a.1)

abbrev AtMost : ℕ → ℕ → Type 0
AtMost hi n = n ≤ hi

Ascends-AtMost : (lo hi : ℕ) (ns : List ℕ) → Ascends lo hi ns → All (AtMost hi) ns
Ascends-AtMost lo hi [] a = tt
Ascends-AtMost lo hi (n ∷ ns) a = (Ascends-le n hi ns a.1, Ascends-AtMost n hi ns a.1)

blocks_from-Ascends :
    (rounds block size lo b : ℕ)
    → size + block < 2 ^ 32
    → lo ≤ b
    → lo ≤ size
    → Ascends lo size (blocks_from rounds block size b ++ size ∷ [])
unfolding blocks_from
blocks_from-Ascends zero block size lo b h l s = (s, refl)
blocks_from-Ascends (suc rounds) block size lo b h l s = elim (Bool-cases (ltb b size)) [
  | inl inside ↦
      let small : b < size = ground arith in
      rw inside
        (l, blocks_from-Ascends rounds block size b (u32 (b + block)) h (omega arith) (omega arith))
  | inr beyond ↦ rw beyond (s, refl)
]

boundaries-Ascends :
    (c : PrefixCache) (size : ℕ)
    → size + c.block_tokens < 2 ^ 32
    → 0 < size
    → Ascends 0 size (boundaries c size)
unfolding boundaries
boundaries-Ascends c size h pos =
    let some_tokens : ltb 0 size ≡ true = ground arith in
    let word : u32 size ≡ size = omega arith in
    rw (some_tokens, word)
      (blocks_from-Ascends size c.block_tokens size 0 c.block_tokens h (omega arith) (omega arith))

last_first-All : (P : ℕ → Type 0) (ns : List ℕ) → All P ns → All P (last_first ns)
unfolding last_first
last_first-All P [] h = tt
last_first-All P (n ∷ ns) h =
    All-append P (last_first ns) (n ∷ []) (last_first-All P ns h.1) (h.0, tt)

module _ {D W L : Type 0} (f : Files D) (laws : FilesLaws f) (zstd : Option Zstd) (b : Llama W L)
    (k : Kv b) (c : PrefixCache) (Known : List ℕ → Type 0) (unpacks : ZstdLaw zstd)
    (apart : (ts us : List ℕ) (n : ℕ)
      → Known ts
      → Known us
      → key_for c ts n ≡ key_for c us n
      → take n ts ≡ take n us)
    (fits : (ts : List ℕ) (n : ℕ) (flag : Bool) (w : W) (packed : Bytes)
      → Known ts
      → k.kv w ≡ take n ts
      → packed_state zstd flag (b.state_data w) ≡ some packed
      → length packed < 2 ^ 63) where
  abbrev ExtendOk : List ℕ → Option (Manager D × W) → Type 0
  ExtendOk prefix none = Unit
  ExtendOk prefix (some (m, w)) =
      IsSound f laws zstd b k c Known m × (k.kv w ≡ take (length prefix) prefix)

  extend-Ok :
      (m : Manager D) (w : W) (prefix : List ℕ) (restored pos lo : ℕ) (ns : List ℕ)
      → Known prefix
      → length prefix < 2 ^ 32
      → Ascends lo (length prefix) ns
      → lo ≤ pos
      → restored ≤ pos
      → pos ≤ length prefix
      → (pos ≡ restored) ⊎ (pos ≡ lo)
      → IsSound f laws zstd b k c Known m
      → k.kv w ≡ take pos prefix
      → ExtendOk prefix (extend f zstd b c m w prefix restored pos ns)
  unfolding extend
  extend-Ok m w prefix restored pos lo [] known small a l r i at h held =
      (h, held ∙ ap (λ n. take n prefix) (omega (arith, a)))
  extend-Ok m w prefix restored pos lo (n ∷ ns) known small a l r i at h held =
      let inside = Ascends-le n (length prefix) ns a.1 in
      elim (Bool-cases (leb n restored)) [
        | inl covered ↦
            let below : n ≤ restored = ground arith in
            let here : pos ≡ restored = elim at [ inl e ↦ e | inr e ↦ omega (arith, e, a.0) ] in
            rw (covered, extend)
              (extend-Ok m w prefix restored pos n ns known small a.1 (omega arith) r i (inl here) h
                held)
        | inr missing ↦
            let above : restored < n = ground arith in
            let up : pos ≤ n = elim at [
              | inl e ↦ omega (arith, e)
              | inr e ↦ omega (arith, e, a.0)
            ] in
            let x =
              decoded f zstd b c m w prefix pos n (b.decode_append w (drop pos (take n prefix))) in
            elim (Option-cases x) [
              | inl failed ↦ rw (missing, extend) (rw (failed, extend) tt)
              | inr ((m', w'), done) ↦
                  let (h', held') =
                    decoded-Ok f laws zstd b k c Known unpacks apart fits m m' w w' prefix pos n
                      known up inside (omega (arith, inside)) h held done in
                  rw (missing, extend)
                    (rw (done, extend)
                      (extend-Ok m' w' prefix restored n n ns known small a.1 (omega arith)
                        (omega arith) inside (inr refl) h' held'))
            ]
      ]

  restore-AtMost :
      (m : Manager D) (w : W) (prefix : List ℕ) (hi : ℕ) (ns : List ℕ)
      → All (AtMost hi) ns
      → (restore f zstd b c m w prefix ns).2 ≤ hi
  unfolding restore
  restore-AtMost m w prefix hi [] a = omega arith
  restore-AtMost m w prefix hi (n ∷ ns) a =
      let x = load_state f zstd (snapshots b) m w (key_for c prefix n) in
      elim (Bool-cases x.2) [
        | inl ok ↦ rw (ok, restore) a.0
        | inr failed ↦ rw (failed, restore) (restore-AtMost x.0 x.1 prefix hi ns a.1)
      ]

  prefill_from-Ok :
      (prefix : List ℕ) (x : Manager D × W × ℕ)
      → Known prefix
      → 0 < length prefix
      → length prefix + c.block_tokens < 2 ^ 32
      → Restored f laws zstd b k c Known prefix x
      → x.2 ≤ length prefix
      → PrefillOk f laws zstd b k c Known prefix (prefill_from f zstd b c prefix x)
  unfolding prefill_from
  prefill_from-Ok prefix (m, w, restored) known pos small (h, at) inside =
      let w' = if restored == 0 then b.reset w else w in
      let held : k.kv w' ≡ take restored prefix = elim (Bool-cases (restored == 0)) [
        | inl cold ↦
            let nothing : restored ≡ 0 = ground arith in
            rw cold (k.kv-reset w ∙ ap (λ n. take n prefix) (sym nothing))
        | inr warm ↦ elim at [ inl e ↦ absurd (ground arith) | inr e ↦ rw warm e ]
      ] in
      let x = extend f zstd b c m w' prefix restored restored (boundaries c (length prefix)) in
      let ok =
        extend-Ok m w' prefix restored restored 0 (boundaries c (length prefix)) known (omega arith)
          (boundaries-Ascends c (length prefix) small pos) (omega arith) (omega arith) inside
          (inl refl) h held in
      elim (Option-cases x) [
        | inl failed ↦ rw (failed, prefill_from) tt
        | inr ((m'', w''), done) ↦
            let (sound, exact) = subst (ExtendOk prefix) done ok in
            rw (done, prefill_from) (sound, exact ∙ take-length prefix, inside)
      ]

  -- A prefill leaves the model with just the prefix, from the cache or decoded, and the cache sound;
  -- it says that it restored no more than the prefix. The cache is sound, that is, a snapshot under
  -- the key of a known prompt gives back its tokens; the prefix is known, no two known prompts with
  -- different tokens share a key, a packed state is shorter than 2^63, the prefix with a block is
  -- shorter than 2^32, the files and zstd keep their laws, and the model those of `Kv`. An exception
  -- of the model or of zstd ends it.
  pub prefill_exact :
      (m : Manager D) (w : W) (prefix : List ℕ)
      → Known prefix
      → length prefix + c.block_tokens < 2 ^ 32
      → IsSound f laws zstd b k c Known m
      → PrefillOk f laws zstd b k c Known prefix (prefill f zstd b c m w prefix)
  unfolding prefill
  prefill_exact m w prefix known small h = elim (Bool-cases (length prefix == 0)) [
    | inl e ↦
        let nothing : 0 ≡ length prefix = ground arith in
        rw e (h, k.kv-reset w ∙ ap (λ n. take n prefix) nothing ∙ take-length prefix, omega arith)
    | inr e ↦ rw e (
        prefill_from-Ok prefix
          (restore f zstd b c m w prefix (last_first (boundaries c (length prefix)))) known
          (ground arith) small
          (restore-Restored f laws zstd b k c Known m w prefix
            (last_first (boundaries c (length prefix))) known h)
          (restore-AtMost m w prefix (length prefix) (last_first (boundaries c (length prefix))) (
            last_first-All (AtMost (length prefix)) (boundaries c (length prefix)) (
              Ascends-AtMost 0 (length prefix) (boundaries c (length prefix))
                (boundaries-Ascends c (length prefix) small (ground arith))))))
  ]
