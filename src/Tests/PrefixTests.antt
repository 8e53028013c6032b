-- ===== src/Tests/PrefixTests.antt =====
-- cache/prefix_cache.cpp at concrete inputs: blocks of 2 tokens over an empty store.
use reame.Base.{
  ℕ, ◌+◌, ◌^◌, ◌<◌, ◌≡◌, refl, sym, ap, ◌∙◌, inl, inr, Bool, true, false, none, some, some_inj,
  List, [], ◌∷◌, arith, Bytes, take, length, length-take, list_eq, list_eq_iff, Bool-cases, codes,
}
use reame.Cache.Store.{find}
use reame.Cache.Store.Keeps.{FilesLaws}
use reame.Cache.Manager.{Manager, packed_state, compress}
use reame.Cache.Prefix.{PrefixCache, boundaries, blocks_from, key_for, prefill}
use reame.Cache.Prefix.Exact.{PrefillOk, IsSound}
use reame.Cache.Prefix.Prefill.{prefill_exact}
use reame.Tests.StoreTests.{Disk, in_memory, in_memory-reads_back, two}
use reame.Tests.ManagerTests.{zstd, zstd-unpacks, manager}
use reame.Tests.DecoderTests.{toy, toy_kv, prompt}

-- The file that was removed or written, and the others.
deleted_self :
    (d : Disk) (p q : Bytes) → list_eq p q ≡ true → in_memory.read (in_memory.delete d p) q ≡ none
deleted_self d p q e = rw e refl

deleted_other :
    (d : Disk) (p q : Bytes)
    → list_eq p q ≡ false
    → in_memory.read (in_memory.delete d p) q ≡ in_memory.read d q
deleted_other d p q e = rw e refl

written_self :
    (d : Disk) (p content q : Bytes)
    → list_eq p q ≡ true
    → in_memory.read (in_memory.write d p content).1 q ≡ some content
written_self d p content q e = rw e refl

written_other :
    (d : Disk) (p content q : Bytes)
    → list_eq p q ≡ false
    → in_memory.read (in_memory.write d p content).1 q ≡ in_memory.read d q
written_other d p content q e = rw e refl

pub in_memory_laws : FilesLaws in_memory
in_memory_laws = record {
  delete-reads = λ d p q bytes h. elim (Bool-cases (list_eq p q)) [
    | inl e ↦ absurd (cc (sym (deleted_self d p q e) ∙ h))
    | inr e ↦ sym (deleted_other d p q e) ∙ h
  ];
  reads-back = in_memory-reads_back;
  write-reads = λ d p content q bytes ok h. elim (Bool-cases (list_eq p q)) [
    | inl e ↦ inl (sym ((list_eq_iff p q).0 e), some_inj (sym h ∙ written_self d p content q e))
    | inr e ↦ inr (sym (written_other d p content q e) ∙ h)
  ];
  failed-reads = λ d p content q bytes failed h. absurd (cc failed);
}

abbrev pub cached : PrefixCache
cached = record { model_tag = codes "toy"; block_tokens = 2 }

abbrev pub blank : Manager Disk
blank = record manager { store = record two { entries = []; total_bytes = 0; max_bytes = 0 } }

abbrev pub IsPrompt : List ℕ → Type 0
IsPrompt ts = ts ≡ prompt

boundaries_five : boundaries cached 5 ≡ 2 ∷ 4 ∷ 5 ∷ []
unfolding boundaries blocks_from
boundaries_five = refl

unpacked :
    (flag : Bool) (raw packed : Bytes)
    → packed_state (some zstd) flag raw ≡ some packed
    → length packed ≡ length raw + 1
unfolding packed_state compress
unpacked true raw packed h = omega (arith, ap length (sym (some_inj h)))
unpacked false raw packed h = omega (arith, ap length (sym (some_inj h)))

pub keys_apart :
    (ts us : List ℕ) (n : ℕ)
    → IsPrompt ts
    → IsPrompt us
    → key_for cached ts n ≡ key_for cached us n
    → take n ts ≡ take n us
keys_apart ts us n h h' e = ap (take n) (h ∙ sym h')

pub states_fit :
    (ts : List ℕ) (n : ℕ) (flag : Bool) (w : List ℕ) (packed : Bytes)
    → IsPrompt ts
    → w ≡ take n ts
    → packed_state (some zstd) flag w ≡ some packed
    → length packed < 2 ^ 63
states_fit ts n flag w packed h held e =
    omega (arith, unpacked flag w packed e, ap length held, length-take n ts, ap length h)

pub blank-IsSound : IsSound in_memory in_memory_laws (some zstd) toy toy_kv cached IsPrompt blank
unfolding find
blank-IsSound = record {
  kept = record { unique = tt; reads = λ k e payload found read. absurd (cc found) };
  staged = tt;
}

prefill_exact_example :
    PrefillOk in_memory in_memory_laws
      (some zstd)
      toy
      toy_kv
      cached
      IsPrompt
      prompt
      (prefill in_memory (some zstd) toy cached blank [] prompt)
prefill_exact_example =
    prefill_exact in_memory in_memory_laws (some zstd) toy toy_kv cached IsPrompt zstd-unpacks
      keys_apart states_fit blank [] prompt refl (omega arith) blank-IsSound
