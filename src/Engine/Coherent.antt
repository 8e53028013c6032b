-- ===== src/Engine/Coherent.antt =====
-- core/engine.cpp: a generation, from the prompt to the context that it leaves.
use reame.Base.{
  ℕ, ◌+◌, ◌-◌, ◌^◌, ◌<◌, ◌≤◌, false, ◌≡◌, ◌⊎◌, refl, sym, ◌∙◌, ap, subst, inl, inr, Bool, true,
  Option, none, some, List, [], ◌∷◌, ◌++◌, arith, Bool-cases, Option-cases, ◌==◌, ltb, length,
  length-take, take, drop, take-append-drop, get_or, Bytes, list_eq, list_eq_iff,
}
use reame.Llama.{Llama}
use reame.Llama.Kv.{Kv}
use reame.Sampler.{Floats, Random, Sampler, is_greedy}
use reame.Sampler.Greedy.{FloatFacts}
use reame.Cache.Store.{Files}
use reame.Cache.Store.Keeps.{FilesLaws}
use reame.Cache.Manager.{Zstd, Manager, packed_state}
use reame.Cache.Manager.Sound.{ZstdLaw}
use reame.Cache.Prefix.{PrefixCache, key_for, prefill}
use reame.Cache.Prefix.Exact.{IsSound, PrefillOk}
use reame.Cache.Prefix.Prefill.{prefill_exact}
use reame.Engine.{
  Engine, Produced, stopped, broken, Generated, refused, returned, thrown, produce, extends,
  cached_logits, prefilled, concluded, generated, echoed, generate_stream_impl,
}
use reame.Engine.Loop.{IsRun, IsEnd, LoopOk, produce-LoopOk}
use reame.Speculative.Verifier.{front}
use reame.Speculative.Decoder.Greedy.{prompted}
use reame.Speculative.Decoder.Prefilled.{take-last}

module _ {D W F R C : Type 0} (f : Files D) (laws : FilesLaws f) (zstd : Option Zstd)
    (b : Llama W (List F)) (k : Kv b) (cache : PrefixCache) (Known : List ℕ → Type 0)
    (fl : Floats F) (random : Random R F) (ranked : List F → ℕ → List ℕ → List ℕ)
    (callback : C → Bytes → C × Bool) (s : Sampler F R) where
  -- The context tokens are those of the KV, if these are as many, and the prefix cache, if there is
  -- one, is sound.
  pub record IsCoherent (e : Engine D W) : Type 0 where
    pub mirrors :
        length (k.kv e.backend) ≡ length e.context_tokens → k.kv e.backend ≡ e.context_tokens
    pub cached : (e.cache ≡ none) ⊎ (e.cache ≡ some cache)
    pub sound : IsSound f laws zstd b k cache Known e.manager

  -- What the callback says of the prompt, where it is to be told of it.
  abbrev pub told_prompt : Bool → C → Bytes → C × Bool
  told_prompt false c prompt = (c, true)
  told_prompt true c prompt = callback c prompt

  -- What a call leaves behind the answer `start` to the prompt: it is refused for the number of its
  -- tokens, and the engine is as it was; it throws, and the callback was told of a run of greedy
  -- decoding; or it returns, and the prompt was declined, or greedy decoding came to its end.
  abbrev pub GeneratedOk : ℕ → C × Bool → List ℕ → Engine D W → Generated D W C → Type 0
  GeneratedOk max_tokens start tokens e₀ (refused why e) =
      (e ≡ e₀) × ((length tokens ≡ 0) ⊎ (b.context_length < length tokens))
  GeneratedOk max_tokens start tokens e₀ (thrown c) =
      (start.1 ≡ true)
      × ((h : List ℕ) × IsRun f zstd b fl random ranked callback k s max_tokens start.0 tokens h c)
  GeneratedOk max_tokens start tokens e₀ (returned e c) =
      IsCoherent e
      × (((start.1 ≡ false) × (e ≡ e₀) × (c ≡ start.0))
          ⊎ ((start.1 ≡ true)
              × IsEnd f zstd b fl random ranked callback k s max_tokens start.0 tokens
                  e.context_tokens c))

  echoed-told :
      (echo_prompt : Bool) (c : C) (prompt : Bytes)
      → echoed f zstd b fl random ranked callback echo_prompt c prompt
        ≡ told_prompt echo_prompt c prompt
  unfolding echoed
  echoed-told false c prompt = refl
  echoed-told true c prompt = refl

  -- The prefill ends with the tokens in the KV, and the logits behind them.
  abbrev PreOk : List ℕ → Option (Manager D × W × Option (List F)) → Type 0
  PreOk tokens none = Unit
  PreOk tokens (some (m, w, none)) = Unit
  PreOk tokens (some (m, w, some l)) =
      IsSound f laws zstd b k cache Known m × (k.kv w ≡ tokens) × (l ≡ k.predict tokens)

  appended-PreOk :
      (m : Manager D) (w : W) (ts tokens : List ℕ)
      → IsSound f laws zstd b k cache Known m
      → k.kv w ++ ts ≡ tokens
      → PreOk tokens (some (m, (b.decode_append w ts).0, (b.decode_append w ts).1))
  appended-PreOk m w ts tokens h e = elim (Option-cases (b.decode_append w ts).1) [
    | inl failed ↦ rw failed tt
    | inr (l, read) ↦
        let (kv, predicted) = k.kv-append w ts l read in
        rw read (h, kv ∙ e, predicted ∙ ap k.predict e)
  ]

  extended-PreOk :
      (e : Engine D W) (tokens : List ℕ)
      → IsCoherent e
      → extends f zstd b fl random ranked callback e tokens ≡ true
      → k.kv e.backend ++ drop (length e.context_tokens) tokens ≡ tokens
  unfolding extends
  extended-PreOk e tokens h yes_it_does =
      let context = e.context_tokens in
      let as_many : b.n_past e.backend ≡ length context = ground arith in
      let head : list_eq context (take (length context) tokens) ≡ true = ground arith in
      ap (λ ts. ts ++ drop (length context) tokens)
        (h.mirrors (sym (k.n_past-kv e.backend) ∙ as_many)
          ∙ (list_eq_iff context (take (length context) tokens)).0 head)
      ∙ take-append-drop (length context) tokens

  cached_logits-PreOk :
      (tokens : List ℕ) (x : Option (Manager D × W × ℕ))
      → 0 < length tokens
      → PrefillOk f laws zstd b k cache Known (front tokens) x
      → PreOk tokens (cached_logits f zstd b fl random ranked callback tokens x)
  unfolding cached_logits front
  cached_logits-PreOk tokens none pos ok = tt
  cached_logits-PreOk tokens (some (m, w, restored)) pos (h, held, inside) =
      appended-PreOk m w (get_or tokens (length tokens - 1) 0 ∷ []) tokens h (
        ap (λ ts. ts ++ get_or tokens (length tokens - 1) 0 ∷ []) held ∙ sym (take-last tokens pos))

  module _ (unpacks : ZstdLaw zstd)
      (apart : (ts us : List ℕ) (n : ℕ)
        → Known ts
        → Known us
        → key_for cache ts n ≡ key_for cache us n
        → take n ts ≡ take n us)
      (fits : (ts : List ℕ) (n : ℕ) (flag : Bool) (w : W) (packed : Bytes)
        → Known ts
        → k.kv w ≡ take n ts
        → packed_state zstd flag (b.state_data w) ≡ some packed
        → length packed < 2 ^ 63) where
    prefilled-PreOk :
        (e : Engine D W) (tokens : List ℕ)
        → IsCoherent e
        → 0 < length tokens
        → Known (front tokens)
        → length tokens + cache.block_tokens < 2 ^ 32
        → PreOk tokens (prefilled f zstd b fl random ranked callback e tokens)
    unfolding prefilled
    prefilled-PreOk e tokens h pos known small =
        elim (Bool-cases (extends f zstd b fl random ranked callback e tokens)) [
          | inl hot ↦ rw hot (
              appended-PreOk e.manager e.backend (drop (length e.context_tokens) tokens) tokens
                h.sound (extended-PreOk e tokens h hot))
          | inr cold ↦ elim h.cached [
            | inl off ↦ elim (Option-cases (b.decode e.backend tokens).1) [
              | inl failed ↦ rw (cold, off, failed) tt
              | inr (l, read) ↦
                  let (held, predicted) = k.kv-decode e.backend tokens l read in
                  rw (cold, off, read) (h.sound, held, predicted)
            ]
            | inr on ↦
                let shorter : length (front tokens) + cache.block_tokens < 2 ^ 32 =
                  unfold front in omega (arith, length-take (length tokens - 1) tokens) in
                rw (cold, on)
                  (cached_logits-PreOk tokens
                    (prefill f zstd b cache e.manager e.backend (front tokens)) pos
                    (prefill_exact f laws zstd b k cache Known unpacks apart fits e.manager
                      e.backend (front tokens) known shorter h.sound))
          ]
        ]

    concluded-GeneratedOk :
        (e : Engine D W) (m : Manager D) (max_tokens : ℕ) (start : C × Bool) (tokens : List ℕ)
        (x : Produced W C)
        → start.1 ≡ true
        → IsCoherent e
        → IsSound f laws zstd b k cache Known m
        → LoopOk f zstd b fl random ranked callback k s max_tokens start.0 tokens x
        → GeneratedOk max_tokens start tokens e (concluded f zstd b fl random ranked callback e m x)
    unfolding concluded
    concluded-GeneratedOk e m max_tokens start tokens (broken c) yes_told h sound ok =
        (yes_told, ok)
    concluded-GeneratedOk e m max_tokens start tokens (stopped w c tokens') yes_told h sound
          (end, mirrors) =
        (record { mirrors = mirrors; cached = h.cached; sound = sound }, inr (yes_told, end))

    generated-GeneratedOk :
        FloatFacts fl random
        → ((h : List ℕ) → 0 < length (k.predict h))
        → is_greedy fl random ranked s ≡ true
        → (e : Engine D W) (start : C × Bool) (max_tokens : ℕ) (tokens : List ℕ)
          (x : Option (Manager D × W × Option (List F)))
        → IsCoherent e
        → start.1 ≡ true
        → length tokens ≤ b.context_length
        → PreOk tokens x
        → GeneratedOk max_tokens start tokens e
            (generated f zstd b fl random ranked callback e s start.0 max_tokens tokens x)
    unfolding generated
    generated-GeneratedOk facts filled greedy e start max_tokens tokens none h yes_told short ok =
        (yes_told, (tokens, prompted))
    generated-GeneratedOk facts filled greedy e start max_tokens tokens (some (m, w, none)) h
          yes_told short ok =
        (yes_told, (tokens, prompted))
    generated-GeneratedOk facts filled greedy e start max_tokens tokens (some (m, w, some l)) h
          yes_told short (sound, held, predicted) =
        concluded-GeneratedOk e m max_tokens start tokens
          (produce f zstd b fl random ranked callback max_tokens w s start.0 tokens l) yes_told h
          sound
          (subst
            (λ l'.
              LoopOk f zstd b fl random ranked callback k s max_tokens start.0 tokens
                (produce f zstd b fl random ranked callback max_tokens w s start.0 tokens l'))
            (sym predicted)
            (produce-LoopOk f zstd b fl random ranked callback k s max_tokens start.0 tokens facts
              filled greedy max_tokens w start.0 tokens prompted held refl (omega arith)
              (inr refl)))

    -- On a coherent engine, a greedy generation without scheduler and decoder that returns leaves the
    -- engine coherent, be its prefill hot, from the prefix cache or cold; and its context tokens, with
    -- what the callback owns, are where greedy decoding from the tokens of the prompt ends: the
    -- callback was told of the choices one by one, until the budget or the context had no room, the
    -- choice ended the generation, or the callback refused it. Only if the callback was told of the
    -- prompt and refused it, the engine is as it was. One that throws has told the callback of a run of
    -- greedy decoding. One is refused only for a prompt of no tokens or of more than the context has,
    -- and changes nothing. The logits are never empty, the tokens of the prompt but the last are
    -- known, with a block they are fewer than 2^32, and the laws of the prefill hold.
    pub generate_stream_impl-IsCoherent :
        FloatFacts fl random
        → ((h : List ℕ) → 0 < length (k.predict h))
        → is_greedy fl random ranked s ≡ true
        → (e : Engine D W) (c : C) (echo_prompt : Bool) (max_tokens : ℕ) (prompt : Bytes)
        → Known (front (b.tokenize prompt true))
        → length (b.tokenize prompt true) + cache.block_tokens < 2 ^ 32
        → IsCoherent e
        → GeneratedOk max_tokens (told_prompt echo_prompt c prompt) (b.tokenize prompt true) e (
            generate_stream_impl f zstd b fl random ranked callback e s c echo_prompt max_tokens
              prompt)
    unfolding generate_stream_impl
    generate_stream_impl-IsCoherent facts filled greedy e c echo_prompt max_tokens prompt known
          small h =
        let tokens = b.tokenize prompt true in
        let start = told_prompt echo_prompt c prompt in
        let told = echoed-told echo_prompt c prompt in
        elim (Bool-cases (length tokens == 0)) [
          | inl empty ↦ rw empty (refl, inl (ground arith))
          | inr filled' ↦ elim (Bool-cases (ltb b.context_length (length tokens))) [
            | inl long ↦ rw (filled', long) (refl, inr (ground arith))
            | inr short ↦ elim (Bool-cases start.1) [
              | inr unwanted ↦
                  rw (filled', short, told) (rw unwanted (h, inl (unwanted, refl, refl)))
              | inl wanted ↦
                  rw (filled', short, told)
                    (rw wanted (
                      generated-GeneratedOk facts filled greedy e start max_tokens tokens
                        (prefilled f zstd b fl random ranked callback e tokens) h wanted
                        (ground arith) (prefilled-PreOk e tokens h (ground arith) known small)))
            ]
          ]
        ]
