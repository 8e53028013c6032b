-- ===== src/Cache/Manager/Restored.antt =====
-- cache/cache_manager.cpp: a snapshot that was stored is restored.
use reame.Base.{
  ℕ, ◌+◌, ◌*◌, ◌^◌, ◌<◌, ◌≡◌, refl, sym, subst, ◌∙◌, ap, inl, inr, Bool, true, false, not, Option,
  none, some, [], ◌∷◌, ◌++◌, arith, Option-cases, some_inj, ltb, ◌==◌, length, length-append, take,
  drop, Bytes, list_eq, list_eq_refl, u64, le_bytes, from_le, length-le_bytes,
  from_le-le_bytes_four, from_le-le_bytes_eight, bit_xor,
}
use reame.Cache.Store.{Store, Files, put, get, checksum, fnv_from}
use reame.Cache.Store.Recall.{get-put}
use reame.Cache.Manager.{
  Zstd, Backend, Staged, Manager, compress, decompress, unpack_zstd, magic, envelope, open_envelope,
  find_staged, packed_state, counted_store, store_state, restored, load_entry, load_state,
}

fnv_from-word : (h : ℕ) (cs : Bytes) → h < 2 ^ 64 → fnv_from h cs < 2 ^ 64
unfolding fnv_from
fnv_from-word h [] w = w
fnv_from-word h (c ∷ cs) w = fnv_from-word (u64 (bit_xor h c * 0x100_0000_01b3)) cs (omega arith)

pub checksum-word : (cs : Bytes) → checksum cs < 2 ^ 64
unfolding checksum
checksum-word cs = fnv_from-word 0xcbf2_9ce4_8422_2325 cs (omega arith)

-- The fields of an envelope, read back.
fields :
    (n : ℕ) (packed : Bytes)
    → (take 4 (envelope n packed) ≡ magic)
      × (take 8 (drop 4 (envelope n packed)) ≡ le_bytes 8 (checksum packed))
      × (take 4 (drop 12 (envelope n packed)) ≡ le_bytes 4 n)
      × (drop 16 (envelope n packed) ≡ packed)
unfolding le_bytes envelope
fields n packed = (refl, refl, refl, refl)

pub length-envelope : (n : ℕ) (packed : Bytes) → length (envelope n packed) ≡ 16 + length packed
unfolding envelope
length-envelope n packed = omega (
  arith,
  length-append (le_bytes 8 (checksum packed)) (le_bytes 4 n ++ packed),
  length-append (le_bytes 4 n) packed,
  length-le_bytes 8 (checksum packed),
  length-le_bytes 4 n,
)

-- An envelope opens to what was packed.
pub open_envelope_lem :
    (zstd : Option Zstd) (n : ℕ) (packed state : Bytes)
    → n < 2 ^ 32
    → decompress zstd packed ≡ some state
    → open_envelope zstd (envelope n packed) ≡ some (record { state = state; n_past = n })
unfolding open_envelope
open_envelope_lem zstd n packed state h d =
    let (m, c, p, r) = fields n packed in
    let long : ltb (length (envelope n packed)) 16 ≡ false =
      ground (arith, length-envelope n packed) in
    let header : not (list_eq (take 4 (envelope n packed)) magic) ≡ false =
      rw (m, list_eq_refl magic) refl in
    let sums : (checksum packed == from_le (le_bytes 8 (checksum packed))) ≡ true =
      ground (arith, from_le-le_bytes_eight (checksum packed), checksum-word packed) in
    let past : from_le (le_bytes 4 n) ≡ n = omega (arith, from_le-le_bytes_four n) in
    rw (long, header, c, r, sums) (rw (d, open_envelope) (rw (p, past) refl))

-- What is packed unpacks, if zstd unpacks what it packed.
pub packed_state-decompress :
    (zstd : Option Zstd)
    → ((z : Zstd) → zstd ≡ some z → (d p : Bytes) → z.pack d ≡ some p → z.unpack p ≡ some d)
    → (compresses : Bool) (raw packed : Bytes) → packed_state zstd compresses raw ≡ some packed
    → decompress zstd packed ≡ some raw
unfolding packed_state compress decompress unpack_zstd
packed_state-decompress zstd law false raw packed h = rw (sym (some_inj h)) refl
packed_state-decompress none law true raw packed h = rw (sym (some_inj h)) refl
packed_state-decompress (some z) law true raw packed h = elim (Option-cases (z.pack raw)) [
  | inl e ↦ cc (packed_as e)
  | inr (out, e) ↦ rw (sym (some_inj (sym (framed out e) ∙ h))) (law z refl raw out e)
]
  where
    packed_as : z.pack raw ≡ none → none ≡ some packed
    packed_as e = sym (rw e refl) ∙ h

    framed :
        (out : Bytes) → z.pack raw ≡ some out → packed_state (some z) true raw ≡ some (b'Z' ∷ out)
    framed out e = rw e refl

module _ {D : Type 0} (f : Files D) (zstd : Option Zstd) {W : Type 0} (b : Backend W) where
  restored-result :
      (m : Manager D) (key : Bytes) (r : W × Bool)
      → ((restored f zstd b m key r).1 ≡ r.0) × ((restored f zstd b m key r).2 ≡ r.1)
  unfolding restored
  restored-result m key (w, true) = (refl, refl)
  restored-result m key (w, false) = (refl, refl)

  counted_store-true :
      (r : Store D × Bool) (m m' : Manager D)
      → counted_store f zstd r m ≡ (m', true)
      → (r.1 ≡ true) × (m'.store ≡ r.0) × (m'.staging ≡ m.staging)
  unfolding counted_store
  counted_store-true (store, true) m m' h = rw (sym (ap (λ t. t.0) h)) (refl, refl, refl)
  counted_store-true (store, false) m m' h = cc

  load_entry-opened :
      (m : Manager D) (w : W) (key entry : Bytes) (p : Staged)
      → open_envelope zstd entry ≡ some p
      → ((load_entry f zstd b m w key (some entry)).1 ≡ (b.set_state w p.state p.n_past).0)
        × ((load_entry f zstd b m w key (some entry)).2 ≡ (b.set_state w p.state p.n_past).1)
  unfolding load_entry
  load_entry-opened m w key entry p h =
      rw (h, load_entry) (restored-result m key (b.set_state w p.state p.n_past))

  load_state-opened :
      (m : Manager D) (w : W) (key entry : Bytes) (p : Staged)
      → find_staged key m.staging ≡ none
      → (get f m.store key).1 ≡ some entry
      → open_envelope zstd entry ≡ some p
      → ((load_state f zstd b m w key).1 ≡ (b.set_state w p.state p.n_past).0)
        × ((load_state f zstd b m w key).2 ≡ (b.set_state w p.state p.n_past).1)
  unfolding load_state
  load_state-opened m w key entry p free found opened =
      rw (free, load_state)
        (rw found
          (load_entry-opened (record m { store = (get f m.store key).0 }) w key entry p opened))

  -- Where a file that is written whole reads back as it was written and zstd unpacks what it packed:
  -- after a store_state that succeeds, load_state of the same key, with nothing staged for it, hands
  -- the backend the stored state and its number of positions, and says what the backend says. For
  -- keys shorter than 2^32, positions below 2^32 and an entry shorter than 2^64.
  pub load_state-store_state :
      ((d : D) (name bytes : Bytes)
        → (f.write d name bytes).0 ≡ true
        → f.read (f.write d name bytes).1 name ≡ some bytes)
      → ((z : Zstd) → zstd ≡ some z → (d p : Bytes) → z.pack d ≡ some p → z.unpack p ≡ some d)
      → (m m' : Manager D) (w w' : W) (key : Bytes) (n : ℕ) → n < 2 ^ 32
      → length key < 2 ^ 32
      → ((packed : Bytes)
          → packed_state zstd m.compresses (b.state_data w) ≡ some packed
          → length key + length packed + 20 < 2 ^ 64)
      → find_staged key m.staging ≡ none
      → store_state f zstd b m w key n ≡ some (m', true)
      → ((load_state f zstd b m' w' key).1 ≡ (b.set_state w' (b.state_data w) n).0)
        × ((load_state f zstd b m' w' key).2 ≡ (b.set_state w' (b.state_data w) n).1)
  unfolding store_state
  load_state-store_state reads_back law m m' w w' key n h k size free stored =
      elim (Option-cases (packed_state zstd m.compresses (b.state_data w))) [
        | inl e ↦ cc (stored_as e)
        | inr (packed, e) ↦
            let entry = envelope n packed in
            let (ok, same, staged) =
              counted_store-true (put f m.store key entry) m m'
                (some_inj (subst (λ o. after_pack o ≡ some (m', true)) e stored)) in
            let small = size packed e in
            load_state-opened m' w' key entry (record { state = b.state_data w; n_past = n })
              (rw staged free)
              (rw same (
                get-put f reads_back m.store key entry k (omega (arith, length-envelope n packed))
                  ok))
              (open_envelope_lem zstd n packed (b.state_data w) h
                (packed_state-decompress zstd law m.compresses (b.state_data w) packed e))
      ]
    where
      after_pack : Option Bytes → Option (Manager D × Bool)
      after_pack none = none
      after_pack (some packed) =
          some (counted_store f zstd (put f m.store key (envelope n packed)) m)

      stored_as :
          packed_state zstd m.compresses (b.state_data w) ≡ none
          → ◌≡◌ {A = Option (Manager D × Bool)} none (some (m', true))
      stored_as e = subst (λ o. after_pack o ≡ some (m', true)) e stored
