-- ===== src/Cache/Prefix/Exact.antt =====
-- cache/prefix_cache.cpp: a prefill leaves the model with just the prompt's prefix.
use reame.Base.{
  ℕ, ◌^◌, ◌≤◌, ◌<◌, ◌≡◌, ◌⊎◌, refl, sym, subst, ◌∙◌, ap, inl, inr, Bool, true, false, Option, none,
  some, List, [], ◌∷◌, ◌++◌, arith, Option-cases, some_inj, length, Bytes, take, drop, length-take,
  take-through,
}
use reame.Llama.{Llama}
use reame.Llama.Kv.{Kv}
use reame.Cache.Prefix.Keys.{key_for-apart, key_for-short}
use reame.Cache.Store.{Files}
use reame.Cache.Store.Keeps.{FilesLaws}
use reame.Cache.Manager.{Zstd, Staged, Manager, packed_state, store_state, load_state}
use reame.Cache.Manager.Sound.{ZstdLaw, Sound, LoadOk, load_state-LoadOk, store_state-Sound}
use reame.Cache.Prefix.{PrefixCache, key_for, snapshots, restore, decoded}

module _ {D W L : Type 0} (f : Files D) (laws : FilesLaws f) (zstd : Option Zstd) (b : Llama W L)
    (k : Kv b) (c : PrefixCache) (Known : List ℕ → Type 0) where
  -- A snapshot under the key of known tokens leaves the model with just these tokens, if it is taken.
  abbrev pub Snapshot : Bytes → Staged → Type 0
  Snapshot key p =
      (ts : List ℕ) (n : ℕ)
      → Known ts
      → key ≡ key_for c ts n
      → (w : W) → (b.set_state w p.state p.n_past).1 ≡ true
      → k.kv (b.set_state w p.state p.n_past).0 ≡ take n ts

  abbrev pub IsSound : Manager D → Type 0
  IsSound = Sound f laws zstd (snapshots b) Snapshot

  -- What a prefill that throws nothing leaves.
  abbrev pub PrefillOk : List ℕ → Option (Manager D × W × ℕ) → Type 0
  PrefillOk prefix none = Unit
  PrefillOk prefix (some (m, w, restored)) =
      IsSound m × (k.kv w ≡ prefix) × (restored ≤ length prefix)

  -- What the search for a boundary leaves.
  abbrev pub Restored : List ℕ → Manager D × W × ℕ → Type 0
  Restored prefix x = IsSound x.0 × ((x.2 ≡ 0) ⊎ (k.kv x.1 ≡ take x.2 prefix))

  next-Restored :
      (prefix : List ℕ) (n : ℕ) (ns : List ℕ) (w : W) (x : Manager D × W × Bool)
      → Known prefix
      → ((m' : Manager D) (w' : W)
          → IsSound m'
          → Restored prefix (restore f zstd b c m' w' prefix ns))
      → LoadOk f laws zstd (snapshots b) Snapshot w (key_for c prefix n) x
      → Restored prefix
          (elim x.2 [ true ↦ (x.0, x.1, n) | false ↦ restore f zstd b c x.0 x.1 prefix ns ])
  next-Restored prefix n ns w (m', w', true) known rest (h, (p, q, e, ok)) =
      (h, inr (ap k.kv e ∙ q prefix n known refl w ok))
  next-Restored prefix n ns w (m', w', false) known rest h = rest m' w' h

  pub restore-Restored :
      (m : Manager D) (w : W) (prefix : List ℕ) (ns : List ℕ)
      → Known prefix
      → IsSound m
      → Restored prefix (restore f zstd b c m w prefix ns)
  unfolding restore
  restore-Restored m w prefix [] known h = (h, inl refl)
  restore-Restored m w prefix (n ∷ ns) known h =
      next-Restored prefix n ns w (load_state f zstd (snapshots b) m w (key_for c prefix n)) known
        (λ m' w' h'. restore-Restored m' w' prefix ns known h')
        (load_state-LoadOk f laws zstd (snapshots b) Snapshot m w (key_for c prefix n) h)

  module _ (unpacks : ZstdLaw zstd)
      (apart : (ts us : List ℕ) (n : ℕ)
        → Known ts
        → Known us
        → key_for c ts n ≡ key_for c us n
        → take n ts ≡ take n us)
      (fits : (ts : List ℕ) (n : ℕ) (flag : Bool) (w : W) (packed : Bytes)
        → Known ts
        → k.kv w ≡ take n ts
        → packed_state zstd flag (b.state_data w) ≡ some packed
        → length packed < 2 ^ 63) where
    stored-IsSound :
        (m m' : Manager D) (w : W) (prefix : List ℕ) (n : ℕ) (stored : Bool)
        → Known prefix
        → n ≤ length prefix
        → n < 2 ^ 32
        → IsSound m
        → k.kv w ≡ take n prefix
        → store_state f zstd (snapshots b) m w (key_for c prefix n) n ≡ some (m', stored)
        → IsSound m'
    stored-IsSound m m' w prefix n stored known inside small h held e =
        let long : n ≡ length (k.kv w) = omega (arith, ap length held, length-take n prefix) in
        store_state-Sound f laws zstd (snapshots b) Snapshot unpacks m m' w (key_for c prefix n) n
          stored h small (key_for-short c prefix n small)
          (λ packed done. omega (
            arith,
            fits prefix n m.compresses w packed known held done,
            key_for-short c prefix n small,
          ))
          (λ ts n' known' key w' ok.
            let same : n ≡ n' = key_for-apart c prefix ts n n' key in
            let taken : (b.set_state w' (b.state_data w) (length (k.kv w))).1 ≡ true =
              subst (λ j. (b.set_state w' (b.state_data w) j).1 ≡ true) long ok in
            ap (λ j. k.kv (b.set_state w' (b.state_data w) j).0) long
            ∙ k.kv-state w w' taken
            ∙ held
            ∙ apart prefix ts n known known' (key ∙ ap (key_for c ts) (sym same))
            ∙ ap (λ j. take j ts) same)
          e

    -- The decoding of a block, and its snapshot.
    pub decoded-Ok :
        (m m' : Manager D) (w w' : W) (prefix : List ℕ) (pos n : ℕ)
        → Known prefix
        → pos ≤ n
        → n ≤ length prefix
        → n < 2 ^ 32
        → IsSound m
        → k.kv w ≡ take pos prefix
        → decoded f zstd b c m w prefix pos n (b.decode_append w (drop pos (take n prefix)))
          ≡ some (m', w')
        → IsSound m' × (k.kv w' ≡ take n prefix)
    unfolding decoded
    decoded-Ok m m' w w' prefix pos n known up inside small h held e =
        let x = b.decode_append w (drop pos (take n prefix)) in
        elim (Option-cases x.1) [
          | inl failed ↦
              let nothing : decoded f zstd b c m w prefix pos n x ≡ none =
                rw (failed, decoded) refl in
              cc (sym nothing ∙ e)
          | inr (l, read) ↦
              let now : k.kv x.0 ≡ take n prefix =
                (k.kv-append w (drop pos (take n prefix)) l read).0
                ∙ ap (λ ts. ts ++ drop pos (take n prefix)) held
                ∙ take-through pos n prefix up in
              elim (Option-cases (store_state f zstd (snapshots b) m x.0 (key_for c prefix n) n)) [
                | inl failed ↦
                    let nothing : decoded f zstd b c m w prefix pos n x ≡ none =
                      rw (read, decoded) (rw (failed, decoded) refl) in
                    cc (sym nothing ∙ e)
                | inr (y, stored) ↦
                    let done : decoded f zstd b c m w prefix pos n x ≡ some (y.0, x.0) =
                      rw (read, decoded) (rw (stored, decoded) refl) in
                    let out = some_inj (sym done ∙ e) in
                    (
                      subst IsSound (ap (λ z. z.0) out)
                          (stored-IsSound m y.0 x.0 prefix n y.1 known inside small h now stored),
                      ap k.kv (sym (ap (λ z. z.1) out)) ∙ now,
                    )
              ]
        ]
