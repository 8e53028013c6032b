-- ===== src/Sampler.antt =====
-- core/sampler.cpp: from logits to a token. Floating point is an argument, and so are the random
-- generator and the ranking by probability (std::nth_element and std::sort leave ties open).
pub mod Greedy
pub mod Choice
pub mod Largest
use reame.Base.{
  ℕ, zero, suc, ◌+◌, ◌-◌, ◌*◌, min, Bool, true, false, not, ◌&&◌, ◌||◌, Option, none, some, List,
  [], ◌∷◌, map, ltb, leb, ◌==◌, if◌then◌else◌, length, set, get_elem?, get_or, replicate, take,
  drop,
}

-- `float`, and its operations.
pub record Floats (F : Type 0) : Type 0 where
  pub fzero : F
  pub fone : F
  pub feq : F → F → Bool
  pub flt : F → F → Bool
  pub fle : F → F → Bool
  pub fadd : F → F → F
  pub fsub : F → F → F
  pub fmul : F → F → F
  pub fdiv : F → F → F
  pub fexp : F → F

-- std::mt19937 under std::uniform_real_distribution(0, 1).
pub record Random (R F : Type 0) : Type 0 where
  pub uniform : R → R × F

-- `cfg_` and `rng_`.
pub record Sampler (F R : Type 0) : Type 0 where
  pub temperature : F
  pub top_p : F
  pub repeat_penalty : F
  pub repeat_last_n : ℕ
  pub rng : R

module _ {F : Type 0} (fl : Floats F) where
  unfoldable pub penalize_one : F → List F → ℕ → List F
  penalize_one penalty logits t = elim (get_elem? logits t) [
    | none ↦ logits
    | some l ↦ set logits t (if fl.flt fl.fzero l then fl.fdiv l penalty else fl.fmul l penalty)
  ]

  unfoldable pub penalize : F → List F → List ℕ → List F
  penalize penalty logits [] = logits
  penalize penalty logits (t ∷ ts) = penalize penalty (penalize_one penalty logits t) ts

  -- std::max_element: the first of the largest.
  unfoldable pub argmax_from : F → ℕ → ℕ → List F → ℕ
  argmax_from best at i [] = at
  argmax_from best at i (x ∷ xs) = elim (fl.flt best x) [
    | true ↦ argmax_from x i (suc i) xs
    | false ↦ argmax_from best at (suc i) xs
  ]

  unfoldable pub argmax : List F → ℕ
  argmax [] = 0
  argmax (x ∷ xs) = argmax_from x 0 1 xs

  unfoldable pub one_hot : ℕ → ℕ → List F
  one_hot n i = set (replicate n fl.fzero) i fl.fone

  unfoldable pub total_from : F → List F → F
  total_from sum [] = sum
  total_from sum (x ∷ xs) = total_from (fl.fadd sum x) xs

  unfoldable pub divided : F → List F → List F
  divided sum [] = []
  divided sum (x ∷ xs) = fl.fdiv x sum ∷ divided sum xs

  unfoldable pub softmax : F → List F → List F
  softmax temperature logits =
      let top = get_or logits (argmax logits) fl.fzero in
      let probs = map (λ l. fl.fexp (fl.fdiv (fl.fsub l top) temperature)) logits in
      divided (total_from fl.fzero probs) probs

  unfoldable pub clamp_unit : F → F
  clamp_unit p = if fl.flt p fl.fzero then fl.fzero else if fl.flt fl.fone p then fl.fone else p

  -- `while (keep < k)`: the mass and the number of the tokens kept.
  unfoldable pub keep_from : List F → F → F → ℕ → List ℕ → F × ℕ
  keep_from probs top_p mass keep [] = (mass, keep)
  keep_from probs top_p mass keep (i ∷ order) =
      let mass' = fl.fadd mass (get_or probs i fl.fzero) in
      elim (fl.fle top_p mass') [
        | true ↦ (mass', suc keep)
        | false ↦ keep_from probs top_p mass' (suc keep) order
      ]

  unfoldable pub zero_at : List ℕ → List F → List F
  zero_at [] probs = probs
  zero_at (i ∷ is) probs = zero_at is (set probs i fl.fzero)

  unfoldable pub divide_at : F → List ℕ → List F → List F
  divide_at mass [] probs = probs
  divide_at mass (i ∷ is) probs =
      divide_at mass is (set probs i (fl.fdiv (get_or probs i fl.fzero) mass))

  unfoldable pub index_from : ℕ → ℕ → List ℕ
  index_from zero i = []
  index_from (suc n) i = i ∷ index_from n (suc i)

  -- The draw: `r` loses the mass of each token in turn.
  unfoldable pub pick : F → ℕ → ℕ → List F → ℕ
  pick r last i [] = last
  pick r last i (p ∷ ps) = elim (fl.fle p fl.fzero) [
    | true ↦ pick r last (suc i) ps
    | false ↦ elim (fl.fle (fl.fsub r p) fl.fzero) [
      | true ↦ i
      | false ↦ pick (fl.fsub r p) i (suc i) ps
    ]
  ]

  -- `ranked probs k order` puts the `k` likeliest in front, in order.
  module _ {R : Type 0} (random : Random R F) (ranked : List F → ℕ → List ℕ → List ℕ) where
    -- The widening loop: the order, the mass and the number of the tokens kept.
    unfoldable pub nucleus_loop : ℕ → F → List F → ℕ → List ℕ → List ℕ × F × ℕ
    nucleus_loop zero top_p probs k order = (order, fl.fzero, 0)
    nucleus_loop (suc fuel) top_p probs k order =
        let order' = ranked probs k order in
        let (mass, keep) = keep_from probs top_p fl.fzero 0 (take k order') in
        elim (fl.fle top_p mass || (k == length probs)) [
          | true ↦ (order', mass, keep)
          | false ↦ nucleus_loop fuel top_p probs (min (k * 4) (length probs)) order'
        ]

    unfoldable pub nucleus : F → List F → List F
    nucleus top_p probs =
        let (order, mass, keep) =
          nucleus_loop (length probs) top_p probs (min 512 (length probs))
            (index_from (length probs) 0) in
        divide_at mass (take keep order) (zero_at (drop keep order) probs)

    unfoldable pub penalized : Sampler F R → List F → List ℕ → List F
    penalized s logits recent =
        if not (fl.feq s.repeat_penalty fl.fone) && ltb 0 s.repeat_last_n
        then penalize s.repeat_penalty logits (drop (length recent - s.repeat_last_n) recent)
        else logits

    -- `temperature <= 0`.
    unfoldable pub is_greedy : Sampler F R → Bool
    is_greedy s = fl.fle s.temperature fl.fzero

    unfoldable pub warm_distribution : Sampler F R → List F → List F
    warm_distribution s logits =
        let probs = softmax s.temperature logits in
        let top_p = clamp_unit s.top_p in
        if fl.flt top_p fl.fone then nucleus top_p probs else probs

    -- `none` is the EngineError on empty logits.
    unfoldable pub distribution : Sampler F R → List F → List ℕ → Option (List F)
    distribution s [] recent = none
    distribution s (l ∷ ls) recent =
        let logits = penalized s (l ∷ ls) recent in
        some (
          if is_greedy s
          then one_hot (length logits) (argmax logits)
          else warm_distribution s logits)

    unfoldable pub draw : Sampler F R → List F → Option (Sampler F R × ℕ)
    draw s [] = none
    draw s (p ∷ ps) =
        let (rng, r) = random.uniform s.rng in some (record s { rng = rng }, pick r 0 0 (p ∷ ps))

    unfoldable pub sample : Sampler F R → List F → List ℕ → Option (Sampler F R × ℕ)
    sample s logits recent = elim (distribution s logits recent) [
      | none ↦ none
      | some probs ↦ if is_greedy s then some (s, argmax probs) else draw s probs
    ]
