-- ===== src/Speculative/Decoder/Progress.antt =====
-- speculative/speculative_decoder.cpp: the loop of `generate_stream` ends.
use reame.Base.{
  ℕ, ◌+◌, ◌-◌, ◌*◌, ◌≤◌, ◌<◌, ◌≡◌, refl, sym, ◌∙◌, subst, inl, inr, Bool, true, false, not, ◌&&◌,
  ◌||◌, Option, none, some, List, [], ◌∷◌, ◌++◌, u32, arith, Bool-cases, Option-cases, leb, ◌==◌,
  length, length-append, get_or, ltb, ◌⊎◌,
}
use reame.Llama.{Llama}
use reame.Sampler.{Floats, Random, Sampler, distribution}
use reame.Speculative.Acceptance.{accept_token}
use reame.Speculative.Verifier.{
  DraftResult, Verification, verify_loop, verified, checked_rows, front, verify_batch,
}
use reame.Speculative.Decoder.{
  Rates, Decoder, Run, Turn, goes, returns, throws, is_model_mode, adapt_draft_length,
  maybe_auto_disable, counted, pushed, new_tokens, emit_all, truncate_draft, rolled_back, synced,
  settled, emission, verified_turn,
}

abbrev pub one_if : Bool → ℕ
one_if true = 1
one_if false = 0

pub one_if-le : (a b : Bool) → one_if (a && b) ≤ 1
one_if-le true true = omega arith
one_if-le true false = omega arith
one_if-le false b = omega arith

-- The turns that are left at most: two for each token, and one more while a draft may be tried.
abbrev pub turns_left : {W V F R C : Type 0} → ℕ → Run W V F R C → ℕ
turns_left max_tokens r =
    2 * (max_tokens - r.emitted) + one_if (r.decoder.speculative_active && not r.lookup_skip)

-- A turn that goes on has emitted a token, or has given a draft up.
abbrev pub Advances : {W V F R C : Type 0} → ℕ → ℕ → Turn (Run W V F R C) → Type 0
Advances max_tokens n (goes r') = turns_left max_tokens r' < n
Advances max_tokens n (returns r') = Unit
Advances max_tokens n (throws r') = Unit

adapt-active :
    {V : Type 0} (rates : Rates) (a n : ℕ) (d : Decoder V)
    → (adapt_draft_length rates a n d).speculative_active ≡ d.speculative_active
unfolding adapt_draft_length
adapt-active rates a n d = ground arith

maybe_auto_disable-active :
    {V : Type 0} (rates : Rates) (d : Decoder V)
    → one_if (maybe_auto_disable rates d).speculative_active ≤ one_if d.speculative_active
unfolding maybe_auto_disable
maybe_auto_disable-active rates d = ground arith

-- The tokens that a verified draft gives: one at least.
abbrev Gives : {R : Type 0} → ℕ → R × Option (List ℕ × Option ℕ) → Type 0
Gives n (rng, none) = Unit
Gives n (rng, some (accepted, none)) = n ≤ length accepted
Gives n (rng, some (accepted, some t)) = Unit

abbrev pub GivesNew : Option Verification → Type 0
GivesNew none = Unit
GivesNew (some vr) = 0 < length (new_tokens vr)

module _ {F R : Type 0} (fl : Floats F) (random : Random R F)
    (ranked : List F → ℕ → List ℕ → List ℕ) where
  verify_loop-Gives :
      (s : Sampler F R) (rng : R) (history tokens : List ℕ) (probs logits : List (List F))
      (accepted : List ℕ)
      → Gives
          (length accepted + length tokens)
          (verify_loop fl random ranked s rng history tokens probs logits accepted)
  unfolding verify_loop
  verify_loop-Gives s rng history [] probs logits accepted = omega arith
  verify_loop-Gives s rng history (d ∷ ds) [] logits accepted = tt
  verify_loop-Gives s rng history (d ∷ ds) (q ∷ qs) [] accepted = tt
  verify_loop-Gives s rng history (d ∷ ds) (q ∷ qs) (l ∷ ls) accepted =
      elim (Option-cases (distribution fl random ranked s l history)) [
        | inl e ↦ rw (e, verify_loop) tt
        | inr (p, e) ↦ elim (Bool-cases (ltb d (length p) && ltb d (length q))) [
          | inr out ↦ rw (e, verify_loop) (rw (out, verify_loop) tt)
          | inl in_rows ↦
              elim (Bool-cases (
                accept_token fl (get_or p d fl.fzero) (get_or q d fl.fzero)
                  (random.uniform rng).1)) [
                    | inl yes_token ↦
                        rw (e, verify_loop)
                          (rw (in_rows, verify_loop)
                            (rw (yes_token, verify_loop)
                              (subst
                                (λ n. Gives n (
                                  verify_loop fl random ranked s (random.uniform rng).0
                                    (history ++ d ∷ []) ds qs ls (accepted ++ d ∷ [])))
                                (omega (arith, length-append accepted (d ∷ [])))
                                (verify_loop-Gives s (random.uniform rng).0 (history ++ d ∷ []) ds
                                  qs ls (accepted ++ d ∷ [])))))
                    | inr no_token ↦
                        rw (e, verify_loop)
                          (rw (in_rows, verify_loop) (rw (no_token, verify_loop) tt))
                  ]
        ]
      ]

  verified-GivesNew :
      (draft : DraftResult F) (v : R × Option (List ℕ × Option ℕ))
      → 0 < length draft.tokens
      → Gives (length draft.tokens) v
      → GivesNew (verified fl random ranked draft v).1
  unfolding verified new_tokens
  verified-GivesNew draft (rng, none) h g = tt
  verified-GivesNew draft (rng, some (accepted, none)) h g = omega (arith, g)
  verified-GivesNew draft (rng, some (accepted, some t)) h g =
      omega (arith, length-append accepted (t ∷ []))

  checked_rows-GivesNew :
      {W : Type 0} (x : W × Option (List (List F))) (rng : R) (draft : DraftResult F)
      (s : Sampler F R) (recent : List ℕ)
      → 0 < length draft.tokens
      → GivesNew (checked_rows fl random ranked x rng draft s recent).2
  unfolding checked_rows
  checked_rows-GivesNew (w, none) rng draft s recent h = tt
  checked_rows-GivesNew (w, some rows) rng draft s recent h =
      verified-GivesNew draft
        (verify_loop fl random ranked s rng recent draft.tokens draft.probs rows []) h
        (subst
          (λ n.
            Gives n (verify_loop fl random ranked s rng recent draft.tokens draft.probs rows []))
          (omega arith) (verify_loop-Gives s rng recent draft.tokens draft.probs rows []))

abbrev one_of : List ℕ → ℕ
one_of [] = 0
one_of (t ∷ ts) = 1

one_of-some : (ts : List ℕ) → 0 < length ts → one_of ts ≡ 1
one_of-some [] h = absurd (omega arith)
one_of-some (t ∷ ts) h = refl

abbrev pub Wanted-cases : (o : Option Bool) → (o ≡ none) ⊎ ((o ≡ some false) ⊎ (o ≡ some true))
Wanted-cases none = inl refl
Wanted-cases (some false) = inr (inl refl)
Wanted-cases (some true) = inr (inr refl)

-- What the KV sync leaves as it was.
abbrev pub Same : {W V F R C : Type 0} → Run W V F R C → Run W V F R C × Bool → Type 0
Same r (r', false) = Unit
Same r (r', true) =
    (r'.emitted ≡ r.emitted)
    × (r'.lookup_skip ≡ r.lookup_skip)
    × (r'.decoder.speculative_active ≡ r.decoder.speculative_active)

-- What the emission leaves as it was, and that it counts what it emits.
abbrev Emitted : {W V F R C : Type 0} → ℕ → Run W V F R C → Turn (Run W V F R C) → Type 0
Emitted n r (returns r') = Unit
Emitted n r (throws r') = Unit
Emitted n r (goes r') =
    (n + r.emitted ≤ r'.emitted)
    × (r'.lookup_skip ≡ r.lookup_skip)
    × (r'.decoder.speculative_active ≡ r.decoder.speculative_active)

Emitted-later :
    {W V F R C : Type 0} (r r₁ : Run W V F R C) (x : Turn (Run W V F R C))
    → r₁.emitted ≡ r.emitted + 1
    → r₁.lookup_skip ≡ r.lookup_skip
    → r₁.decoder.speculative_active ≡ r.decoder.speculative_active
    → Emitted 0 r₁ x
    → Emitted 1 r x
Emitted-later r r₁ (returns r') e k a h = tt
Emitted-later r r₁ (throws r') e k a h = tt
Emitted-later r r₁ (goes r') e k a h = (omega (arith, h.0, e), h.1 ∙ k, h.2 ∙ a)

Emitted-weaken :
    {W V F R C : Type 0} (n : ℕ) (r : Run W V F R C) (x : Turn (Run W V F R C))
    → Emitted n r x
    → Emitted 0 r x
Emitted-weaken n r (returns r') h = tt
Emitted-weaken n r (throws r') h = tt
Emitted-weaken n r (goes r') h = (omega (arith, h.0), h.1, h.2)

module _ {F R W V C : Type 0} (fl : Floats F) (random : Random R F)
    (ranked : List F → ℕ → List ℕ → List ℕ) (rates : Rates) (target : Llama W (List F))
    (drafter : Llama V (List F)) (on_token : C → ℕ → C × Option Bool) where
  emit_all-Emitted :
      (max_tokens : ℕ) (ts : List ℕ) (r : Run W V F R C)
      → Emitted
          (one_of ts)
          r
          (emit_all fl random ranked rates target drafter on_token max_tokens ts r)
  unfolding emit_all
  emit_all-Emitted max_tokens [] r = (omega arith, refl, refl)
  emit_all-Emitted max_tokens (t ∷ ts) r = elim (Bool-cases (target.is_eog t)) [
    | inl e ↦ rw (e, emit_all) tt
    | inr e ↦ elim (Wanted-cases (on_token r.client t).1) [
      | inl broken ↦ rw (e, emit_all) (rw (broken, emit_all) tt)
      | inr (inl refused) ↦ rw (e, emit_all) (rw (refused, emit_all) tt)
      | inr (inr wanted) ↦
          let r' = pushed r (on_token r.client t).0 t in
          let now : Emitted 1 r (goes r') = unfold pushed in (omega arith, refl, refl) in
          elim (Bool-cases
            (leb max_tokens r'.emitted || leb target.context_length (length r'.history))) [
              | inl full ↦ rw (e, emit_all) (rw (wanted, emit_all) (rw (full, emit_all) now))
              | inr room ↦
                  rw (e, emit_all)
                    (rw (wanted, emit_all)
                      (rw (room, emit_all)
                        (Emitted-later r r'
                          (emit_all fl random ranked rates target drafter on_token max_tokens ts r')
                          (unfold pushed in refl) now.1 now.2
                          (Emitted-weaken (one_of ts) r'
                            (emit_all fl random ranked rates target drafter on_token max_tokens ts
                              r')
                            (emit_all-Emitted max_tokens ts r')))))
            ]
    ]
  ]

  settled-Advances :
      (max_tokens n : ℕ) (vr : Verification) (r : Run W V F R C) (x : Turn (Run W V F R C))
      → r.emitted < max_tokens
      → r.lookup_skip ≡ false
      → r.decoder.speculative_active ≡ true
      → Emitted 1 r x
      → Advances max_tokens
          (turns_left max_tokens r)
          (settled fl random ranked rates target drafter on_token n vr x)
  unfolding settled
  settled-Advances max_tokens n vr r (returns r') m k a h = tt
  settled-Advances max_tokens n vr r (throws r') m k a h = tt
  settled-Advances max_tokens n vr r (goes r') m k a h =
      rw (k, a)
        (omega (
          arith,
          h.0,
          one_if-le
              (maybe_auto_disable rates
                (adapt_draft_length rates (length vr.accepted) n r'.decoder)).speculative_active
              (not r'.lookup_skip),
        ))

  rolled_back-Same :
      (keep : ℕ) (r : Run W V F R C)
      → Same r (rolled_back fl random ranked rates target drafter on_token keep r)
  unfolding rolled_back
  rolled_back-Same keep r = elim (Bool-cases (target.truncate_to r.target keep).1) [
    | inr failed ↦ rw (failed, rolled_back) tt
    | inl done ↦ elim (Bool-cases (is_model_mode r.decoder.cfg.mode)) [
      | inr lookup ↦ rw (done, lookup, rolled_back) (refl, refl, refl)
      | inl model ↦
          elim (Bool-cases
            (truncate_draft fl random ranked rates target drafter on_token keep
              r.decoder.draft).1) [
                | inl both ↦ rw (done, model, both, rolled_back) (refl, refl, refl)
                | inr one ↦ rw (done, model, one, rolled_back) tt
              ]
    ]
  ]

  synced-Same :
      (r : Run W V F R C) (n : ℕ) (vr : Verification)
      → Same r (synced fl random ranked rates target drafter on_token r n vr)
  unfolding synced
  synced-Same r n vr = elim (Option-cases vr.corrected) [
    | inl e ↦ rw (e, synced) (refl, refl, refl)
    | inr (t, e) ↦ rw (e, synced) (rolled_back-Same (u32 (r.base + 1 + length vr.accepted)) r)
  ]

  emission-Advances :
      (max_tokens n : ℕ) (vr : Verification) (r : Run W V F R C) (x : Run W V F R C × Bool)
      → r.emitted < max_tokens
      → r.lookup_skip ≡ false
      → r.decoder.speculative_active ≡ true
      → 0 < length (new_tokens vr)
      → Same r x
      → Advances max_tokens
          (turns_left max_tokens r)
          (emission fl random ranked rates target drafter on_token max_tokens n vr x)
  unfolding emission
  emission-Advances max_tokens n vr r (r', false) m k a g h = tt
  emission-Advances max_tokens n vr r (r', true) m k a g h =
      rw (sym h.0, sym h.1, sym h.2)
        (settled-Advances max_tokens n vr r'
          (emit_all fl random ranked rates target drafter on_token max_tokens (new_tokens vr) r')
          (omega (arith, h.0)) (h.1 ∙ k) (h.2 ∙ a)
          (subst
            (λ i. Emitted i r' (
              emit_all fl random ranked rates target drafter on_token max_tokens (new_tokens vr)
                r'))
            (one_of-some (new_tokens vr) g) (emit_all-Emitted max_tokens (new_tokens vr) r')))

  pub verified_turn-Advances :
      (max_tokens : ℕ) (draft : DraftResult F) (r : Run W V F R C) (x : W × R × Option Verification)
      → r.emitted < max_tokens
      → r.lookup_skip ≡ false
      → r.decoder.speculative_active ≡ true
      → GivesNew x.2
      → Advances max_tokens
          (turns_left max_tokens r)
          (verified_turn fl random ranked rates target drafter on_token max_tokens draft r x)
  unfolding verified_turn counted
  verified_turn-Advances max_tokens draft r (w, rng, none) m k a g = tt
  verified_turn-Advances max_tokens draft r (w, rng, some vr) m k a g =
      let r' : Run W V F R C = record r {
        target = w;
        accept_rng = rng;
        decoder = counted r.decoder (length draft.tokens) vr;
      } in
      emission-Advances max_tokens (length draft.tokens) vr r'
        (synced fl random ranked rates target drafter on_token r' (length draft.tokens) vr) m k a g
        (synced-Same r' (length draft.tokens) vr)

  pub verify_batch-GivesNew :
      (w : W) (last_token : ℕ) (draft : DraftResult F) (s : Sampler F R) (rng : R) (recent : List ℕ)
      → GivesNew (verify_batch fl random ranked target w last_token draft s rng recent).2
  unfolding verify_batch
  verify_batch-GivesNew w last_token draft s rng recent =
      elim (Bool-cases (length draft.tokens == 0)) [
        | inl none_drafted ↦ rw none_drafted tt
        | inr some_drafted ↦ rw some_drafted (
            checked_rows-GivesNew fl random ranked
              (target.decode_batch w (last_token ∷ front draft.tokens)) rng draft s recent
              (ground arith))
      ]
