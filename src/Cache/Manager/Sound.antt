-- ===== src/Cache/Manager/Sound.antt =====
-- cache/cache_manager.cpp: a store of snapshots of which `Q` holds keeps that of all that it loads.
use reame.Base.{
  ℕ, ◌+◌, ◌^◌, ◌<◌, ◌≡◌, refl, sym, subst, ◌∙◌, ap, inl, inr, Bool, true, false, Option, none, some,
  List, [], ◌∷◌, arith, Bool-cases, Option-cases, some_inj, length, Bytes, list_eq, list_eq_iff,
  All,
}
use reame.Cache.Store.{Store, Files, put, get}
use reame.Cache.Store.Keeps.{FilesLaws, Keeps, remove-Keeps, get-Keeps}
use reame.Cache.Store.Written.{put-Keeps}
use reame.Cache.Manager.{
  Zstd, Backend, Staged, Manager, envelope, open_envelope, find_staged, erase_staged, take_staged,
  drop_stored, packed_state, counted_store, store_state, restored, load_entry, load_state,
}
use reame.Cache.Manager.Restored.{open_envelope_lem, packed_state-decompress, length-envelope}

abbrev pub ZstdLaw : Option Zstd → Type 0
ZstdLaw zstd = (z : Zstd) → zstd ≡ some z → (d p : Bytes) → z.pack d ≡ some p → z.unpack p ≡ some d

module _ {D W : Type 0} (f : Files D) (laws : FilesLaws f) (zstd : Option Zstd) (b : Backend W)
    (Q : Bytes → Staged → Type 0) where
  abbrev Holds : Bytes → Bytes → Type 0
  Holds key entry = (p : Staged) → open_envelope zstd entry ≡ some p → Q key p

  abbrev OfQ : Bytes × Staged → Type 0
  OfQ x = Q x.0 x.1

  -- `Q` holds of what is staged, and of every envelope that can be read.
  pub record Sound (m : Manager D) : Type 0 where
    pub kept : Keeps f laws Holds m.store
    pub staged : All OfQ m.staging

  erase_staged-All :
      (key : Bytes) (ps : List (Bytes × Staged)) → All OfQ ps → All OfQ (erase_staged key ps)
  unfolding erase_staged
  erase_staged-All key [] h = tt
  erase_staged-All key ((k, p) ∷ ps) h = elim (Bool-cases (list_eq k key)) [
    | inl same ↦ rw same h.1
    | inr other ↦ rw other (h.0, erase_staged-All key ps h.1)
  ]

  find_staged-Q :
      (key : Bytes) (ps : List (Bytes × Staged)) (p : Staged)
      → All OfQ ps
      → find_staged key ps ≡ some p
      → Q key p
  unfolding find_staged
  find_staged-Q key [] p h e = absurd (cc e)
  find_staged-Q key ((k, q) ∷ ps) p h e = elim (Bool-cases (list_eq k key)) [
    | inl same ↦
        let found : some q ≡ some p = sym (rw (same, find_staged) refl) ∙ e in
        subst (Q key) (some_inj found) (subst (λ j. Q j q) ((list_eq_iff k key).0 same) h.0)
    | inr other ↦ find_staged-Q key ps p h.1 (sym (rw (other, find_staged) refl) ∙ e)
  ]

  drop_stored-Sound : (m : Manager D) (key : Bytes) → Sound m → Sound (drop_stored f zstd m key)
  unfolding drop_stored
  drop_stored-Sound m key h = record {
    kept = remove-Keeps f laws Holds m.store key h.kept;
    staged = h.staged;
  }

  -- What a load leaves: the manager is sound, and a state that it hands over is one of which `Q` holds.
  abbrev pub LoadOk : W → Bytes → Manager D × W × Bool → Type 0
  LoadOk w key (m, w', false) = Sound m
  LoadOk w key (m, w', true) =
      Sound m
      × ((p : Staged) × Q key p
          × (w' ≡ (b.set_state w p.state p.n_past).0)
          × ((b.set_state w p.state p.n_past).1 ≡ true))

  restored-LoadOk :
      (m : Manager D) (w : W) (key : Bytes) (p : Staged) (x : W × Bool)
      → Sound m
      → Q key p
      → b.set_state w p.state p.n_past ≡ x
      → LoadOk w key (restored f zstd b m key x)
  unfolding restored
  restored-LoadOk m w key p (w', true) h q e =
      (record { kept = h.kept; staged = h.staged }, (p, q, ap (λ x. x.0) (sym e), ap (λ x. x.1) e))
  restored-LoadOk m w key p (w', false) h q e =
      let h' = drop_stored-Sound m key h in record { kept = h'.kept; staged = h'.staged }

  load_entry-LoadOk :
      (m : Manager D) (w : W) (key : Bytes) (o : Option Bytes)
      → Sound m
      → ((entry : Bytes) → o ≡ some entry → Holds key entry)
      → LoadOk w key (load_entry f zstd b m w key o)
  unfolding load_entry
  load_entry-LoadOk m w key none h good = record { kept = h.kept; staged = h.staged }
  load_entry-LoadOk m w key (some entry) h good = elim (Option-cases (open_envelope zstd entry)) [
    | inl broken ↦
        let h' = drop_stored-Sound m key h in
        rw (broken, load_entry) (record { kept = h'.kept; staged = h'.staged })
    | inr (p, opened) ↦
        rw (opened, load_entry)
          (restored-LoadOk m w key p (b.set_state w p.state p.n_past) h (good entry refl p opened)
            refl)
  ]

  pub load_state-LoadOk :
      (m : Manager D) (w : W) (key : Bytes) → Sound m → LoadOk w key (load_state f zstd b m w key)
  unfolding load_state
  load_state-LoadOk m w key h = elim (Option-cases (find_staged key m.staging)) [
    | inr (p, there) ↦
        rw (there, load_state)
          (restored-LoadOk (take_staged f zstd m key p) w key p (b.set_state w p.state p.n_past)
            (unfold take_staged in
              record { kept = h.kept; staged = erase_staged-All key m.staging h.staged })
            (find_staged-Q key m.staging p h.staged there) refl)
    | inl absent ↦
        let (kept, good) = get-Keeps f laws Holds m.store key h.kept in
        rw (absent, load_state)
          (load_entry-LoadOk (record m { store = (get f m.store key).0 }) w key
            (get f m.store key).1 (record { kept = kept; staged = h.staged }) good)
  ]

  counted_store-Sound :
      (m : Manager D) (x : Store D × Bool)
      → Keeps f laws Holds x.0
      → All OfQ m.staging
      → Sound (counted_store f zstd x m).0
  unfolding counted_store
  counted_store-Sound m (store, true) kept staged = record { kept = kept; staged = staged }
  counted_store-Sound m (store, false) kept staged = record { kept = kept; staged = staged }

  pub store_state-Sound :
      ZstdLaw zstd
      → (m m' : Manager D) (w : W) (key : Bytes) (n : ℕ) (stored : Bool) → Sound m
      → n < 2 ^ 32
      → length key < 2 ^ 32
      → ((packed : Bytes)
          → packed_state zstd m.compresses (b.state_data w) ≡ some packed
          → length key + length packed + 20 < 2 ^ 64)
      → Q key (record { state = b.state_data w; n_past = n })
      → store_state f zstd b m w key n ≡ some (m', stored)
      → Sound m'
  unfolding store_state
  store_state-Sound unpacks m m' w key n stored h small short fits q e =
      elim (Option-cases (packed_state zstd m.compresses (b.state_data w))) [
        | inl failed ↦
            let nothing : store_state f zstd b m w key n ≡ none = rw (failed, store_state) refl in
            cc (sym nothing ∙ e)
        | inr (packed, done) ↦
            let done' : store_state f zstd b m w key n
                ≡ some (counted_store f zstd (put f m.store key (envelope n packed)) m) =
              rw (done, store_state) refl in
            let out : some (counted_store f zstd (put f m.store key (envelope n packed)) m)
                ≡ some (m', stored) =
              sym done' ∙ e in
            let opens =
              open_envelope_lem zstd n packed (b.state_data w) small
                (packed_state-decompress zstd unpacks m.compresses (b.state_data w) packed done) in
            subst Sound (ap (λ x. x.0) (some_inj out)) (
              counted_store-Sound m (put f m.store key (envelope n packed))
                (put-Keeps f laws Holds m.store key (envelope n packed) h.kept short
                  (omega (arith, length-envelope n packed, fits packed done))
                  (λ p opened. subst (Q key) (some_inj (sym opens ∙ opened)) q))
                h.staged)
      ]
