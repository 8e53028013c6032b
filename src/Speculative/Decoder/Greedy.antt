-- ===== src/Speculative/Decoder/Greedy.antt =====
-- speculative/: what plain greedy decoding of the target emits, as a reference for the decoder.
use reame.Base.{
  ℕ, suc, ◌-◌, ◌≡◌, refl, sym, ◌∙◌, ap, subst, Bool, true, false, Option, none, some, List, [], ◌∷◌,
  ◌++◌, arith, length, take,
}
use mathlib.Core.List.{append_assoc, append-nil}
use reame.Llama.{Llama}
use reame.Llama.Kv.{Kv, predictions}
use reame.Sampler.{Floats, Random, Sampler}
use reame.Sampler.Choice.{greedy_choice}
use reame.Speculative.Verifier.{front}

pub front-cons : (t u : ℕ) (us : List ℕ) → front (t ∷ u ∷ us) ≡ t ∷ front (u ∷ us)
unfolding front
front-cons t u us =
    ap (λ n. take n (t ∷ u ∷ us)) {x = suc (suc (length us)) - 1} {y = suc (length us)}
      (omega arith)
    ∙ ap (λ n. t ∷ take n (u ∷ us)) {x = length us} {y = suc (length us) - 1} (omega arith)

pub front-one : (t : ℕ) → front (t ∷ []) ≡ []
unfolding front
front-one t = refl

pub front-snoc : (ts : List ℕ) (t : ℕ) → front (ts ++ t ∷ []) ≡ ts
front-snoc [] t = front-one t
front-snoc (u ∷ []) t = front-cons u t [] ∙ ap (λ us. u ∷ us) (front-one t)
front-snoc (u ∷ v ∷ vs) t =
    front-cons u v (vs ++ t ∷ []) ∙ ap (λ us. u ∷ us) (front-snoc (v ∷ vs) t)

module _ {F R W : Type 0} (fl : Floats F) (random : Random R F)
    (ranked : List F → ℕ → List ℕ → List ℕ) (target : Llama W (List F)) (k : Kv target)
    (s : Sampler F R) where
  -- The token that greedy sampling takes behind `h`.
  abbrev pub next_token : List ℕ → ℕ
  next_token h = greedy_choice fl random ranked s (k.predict h) h

  -- Each token is the choice behind those before it.
  abbrev pub AreGreedy : List ℕ → List ℕ → Type 0
  AreGreedy h [] = Unit
  AreGreedy h (t ∷ ts) = (t ≡ next_token h) × AreGreedy (h ++ t ∷ []) ts

  pub AreGreedy-append :
      (h ts us : List ℕ) → AreGreedy h ts → AreGreedy (h ++ ts) us → AreGreedy h (ts ++ us)
  AreGreedy-append h [] us a b = subst (λ l. AreGreedy l us) (append-nil h) b
  AreGreedy-append h (t ∷ ts) us a b = (
    a.0,
    AreGreedy-append (h ++ t ∷ []) ts us a.1
        (subst (λ l. AreGreedy l us) (sym (append_assoc h (t ∷ []) ts)) b),
  )

  module _ {C : Type 0} (on_token : C → ℕ → C × Option Bool) (has_room : List ℕ → Bool)
      (prompt : List ℕ) (c₀ : C) where
    -- The histories of greedy decoding, with what they leave of the callback: the prompt, and then,
    -- while there is room, one choice after the other, none of which ends the generation, and each of
    -- which the callback is told of and accepts.
    pub data GreedyRun : List ℕ → C → Type 0 where
      prompted : GreedyRun prompt c₀
      chosen :
          (h : List ℕ) (c : C) (t : ℕ)
          → GreedyRun h c
          → has_room h ≡ true
          → t ≡ next_token h
          → target.is_eog t ≡ false
          → (on_token c t).1 ≡ some true
          → GreedyRun (h ++ t ∷ []) (on_token c t).0

    -- Where greedy decoding ends: there is no room left, the choice ends the generation, or the
    -- callback is told of the choice and refuses it.
    pub data GreedyEnd : List ℕ → C → Type 0 where
      full : (h : List ℕ) (c : C) → GreedyRun h c → has_room h ≡ false → GreedyEnd h c
      ends :
          (h : List ℕ) (c : C)
          → GreedyRun h c
          → has_room h ≡ true
          → target.is_eog (next_token h) ≡ true
          → GreedyEnd h c
      declined :
          (h : List ℕ) (c : C) (t : ℕ)
          → GreedyRun h c
          → has_room h ≡ true
          → t ≡ next_token h
          → target.is_eog t ≡ false
          → (on_token c t).1 ≡ some false
          → GreedyEnd h (on_token c t).0

    -- Where an exception leaves it: behind some choice, or where the callback is told of the next one
    -- and throws.
    pub data GreedyBreak : List ℕ → C → Type 0 where
      broke : (h : List ℕ) (c : C) → GreedyRun h c → GreedyBreak h c
      callback_broke :
          (h : List ℕ) (c : C) (t : ℕ)
          → GreedyRun h c
          → has_room h ≡ true
          → t ≡ next_token h
          → target.is_eog t ≡ false
          → (on_token c t).1 ≡ none
          → GreedyBreak h (on_token c t).0

  -- The logits in front of each token of a draft.
  abbrev pub rows_of : List ℕ → List ℕ → List (List F)
  rows_of h [] = []
  rows_of h (d ∷ ds) = k.predict h ∷ rows_of (h ++ d ∷ []) ds

  pub predictions-rows_of :
      (seen : List ℕ) (t d : ℕ) (ds : List ℕ)
      → predictions k.predict seen (t ∷ front (d ∷ ds)) ≡ rows_of (seen ++ t ∷ []) (d ∷ ds)
  unfolding predictions
  predictions-rows_of seen t d [] = rw (front-one d) refl
  predictions-rows_of seen t d (e ∷ es) =
      rw (front-cons d e es) (
        ap (λ rows. k.predict (seen ++ t ∷ []) ∷ rows)
          (predictions-rows_of (seen ++ t ∷ []) d e es))
