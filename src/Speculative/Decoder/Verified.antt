-- ===== src/Speculative/Decoder/Verified.antt =====
-- speculative/speculative_decoder.cpp: a verified draft leaves the run in step, and emits choices only.
use reame.Base.{
  ℕ, suc, ◌+◌, ◌-◌, ◌^◌, ◌≤◌, ◌<◌, ◌≡◌, refl, sym, ◌∙◌, ap, inl, inr, Bool, true, false, Option,
  none, some, List, [], ◌∷◌, ◌++◌, arith, Bool-cases, length, length-append, take,
  take-length-append, length-take, u32,
}
use mathlib.Core.List.{append_assoc}
use reame.Llama.{Llama}
use reame.Llama.Kv.{Kv}
use reame.Sampler.{Floats, Random, Sampler}
use reame.Speculative.Verifier.{Verification, front}
use reame.Speculative.Decoder.{Rates, Run, is_model_mode, new_tokens, rolled_back, synced}
use reame.Speculative.Decoder.Greedy.{front-cons, front-snoc, AreGreedy}
use reame.Speculative.Decoder.Lossless.{Settled}
use reame.Speculative.Decoder.Rows.{IsVerified}

front-append :
    (kept : List ℕ) (d : ℕ) (rest : List ℕ) → front (kept ++ d ∷ rest) ≡ kept ++ front (d ∷ rest)
front-append [] d rest = refl
front-append (t ∷ []) d rest = front-cons t d rest
front-append (t ∷ u ∷ us) d rest =
    front-cons t u (us ++ d ∷ rest) ∙ ap (λ ts. t ∷ ts) (front-append (u ∷ us) d rest)

length-front : (ts : List ℕ) → length (front ts) ≡ length ts - 1
unfolding front
length-front ts = omega (arith, length-take (length ts - 1) ts)

module _ {F R W V C : Type 0} (fl : Floats F) (random : Random R F)
    (ranked : List F → ℕ → List ℕ → List ℕ) (rates : Rates) (target : Llama W (List F))
    (drafter : Llama V (List F)) (on_token : C → ℕ → C × Option Bool) (k : Kv target)
    (s : Sampler F R) (max_tokens : ℕ) (c₀ : C) (prompt : List ℕ) where
  abbrev IsSettled : Run W V F R C → Type 0
  IsSettled = Settled fl random ranked rates target drafter on_token k s max_tokens c₀ prompt

  -- The KV sync leaves the target with all that is emitted but the newest token.
  abbrev pub SyncOk : List ℕ → Run W V F R C → Run W V F R C × Bool → Type 0
  SyncOk ts r (r', false) = IsSettled r'
  SyncOk ts r (r', true) =
      IsSettled r'
      × (r'.history ≡ r.history)
      × (r'.cur ≡ r.cur)
      × (k.kv r'.target ≡ r.history ++ front ts)
      × (r'.base ≡ length (k.kv r'.target))

  -- The target has read the draft `ds` but its last token.
  pub record HasRead (ds : List ℕ) (r : Run W V F R C) : Type 0 where
    pub settled : IsSettled r
    pub read : k.kv r.target ≡ r.history ++ front ds
    pub based : r.base + 1 ≡ length r.history
    pub filled : 0 < length ds
    pub small : length r.history + length ds < 2 ^ 32

  rolled_back-SyncOk :
      (r : Run W V F R C) (kept ds rest : List ℕ) (d t : ℕ)
      → HasRead ds r
      → ds ≡ kept ++ d ∷ rest
      → SyncOk (kept ++ t ∷ []) r (
          rolled_back fl random ranked rates target drafter on_token
            (u32 (r.base + 1 + length kept))
            r)
  unfolding rolled_back is_model_mode
  rolled_back-SyncOk r kept ds rest d t h e =
      let keep = u32 (r.base + 1 + length kept) in
      let lookup : is_model_mode r.decoder.cfg.mode ≡ false = ap is_model_mode h.settled.mode in
      let long : length ds ≡ length kept + suc (length rest) =
        rw e (length-append kept (d ∷ rest)) in
      let exact : keep ≡ length (r.history ++ kept) =
        omega (arith, long, h.based, h.small, length-append r.history kept) in
      let stored : k.kv r.target ≡ (r.history ++ kept) ++ front (d ∷ rest) =
        h.read
        ∙ ap (λ ts. r.history ++ ts) (ap front e ∙ front-append kept d rest)
        ∙ sym (append_assoc r.history kept (front (d ∷ rest))) in
      let enough : keep ≤ length (k.kv r.target) =
        rw stored (omega (arith, exact, length-append (r.history ++ kept) (front (d ∷ rest)))) in
      elim (Bool-cases (target.truncate_to r.target keep).1) [
        | inr failed ↦ rw failed (record {
          sampler = h.settled.sampler;
          mode = h.settled.mode;
          greedy = h.settled.greedy;
          lengths = h.settled.lengths;
        })
        | inl done ↦
            let now : k.kv (target.truncate_to r.target keep).0 ≡ r.history ++ kept =
              k.kv-truncate r.target keep enough done
              ∙ ap (λ n. take n (k.kv r.target)) exact
              ∙ ap (λ ts. take (length (r.history ++ kept)) ts) stored
              ∙ take-length-append (r.history ++ kept) (front (d ∷ rest)) in
            rw (done, lookup)
              (
                record {
                  sampler = h.settled.sampler;
                  mode = h.settled.mode;
                  greedy = h.settled.greedy;
                  lengths = h.settled.lengths;
                },
                refl,
                refl,
                now ∙ ap (λ ts. r.history ++ ts) (sym (front-snoc kept t)),
                exact ∙ ap length (sym now),
              )
      ]

  abbrev pub verification : List ℕ → ℕ → Option ℕ → Verification
  verification accepted n corrected = record {
    accepted = accepted;
    rejected_count = n;
    corrected = corrected;
  }

  pub synced-SyncOk :
      (r : Run W V F R C) (ds accepted : List ℕ) (n : ℕ) (corrected : Option ℕ) (rng : R)
      → HasRead ds r
      → IsVerified fl random ranked target k s r.history ds [] (rng, some (accepted, corrected))
      → SyncOk (new_tokens (verification accepted n corrected)) r (
          synced fl random ranked rates target drafter on_token r
            (length ds)
            (verification accepted n corrected))
  unfolding synced new_tokens
  synced-SyncOk r ds accepted n none rng h (e, g) = (
    record {
      sampler = h.settled.sampler;
      mode = h.settled.mode;
      greedy = h.settled.greedy;
      lengths = h.settled.lengths;
    },
    refl,
    refl,
    h.read ∙ ap (λ ts. r.history ++ front ts) (sym e),
    omega (
      arith,
      h.based,
      h.filled,
      ap length h.read,
      length-append r.history (front ds),
      length-front ds,
    ),
  )
  synced-SyncOk r ds accepted n (some t) rng h (kept, e, l, (d, rest, w), g) =
      rw e (rolled_back-SyncOk r kept ds rest d t h w)

  pub new_tokens-AreGreedy :
      (h ds accepted : List ℕ) (n : ℕ) (corrected : Option ℕ) (rng : R)
      → IsVerified fl random ranked target k s h ds [] (rng, some (accepted, corrected))
      → AreGreedy fl random ranked target k s h (new_tokens (verification accepted n corrected))
  unfolding new_tokens
  new_tokens-AreGreedy h ds accepted n none rng (e, g) = rw e g
  new_tokens-AreGreedy h ds accepted n (some t) rng (kept, e, l, w, g) = rw e g
