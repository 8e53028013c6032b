-- ===== src/Sampler/Greedy.antt =====
-- core/sampler.cpp and speculative/acceptance.cpp on one-hot distributions, which greedy sampling makes.
use reame.Base.{
  ℕ, zero, suc, ◌+◌, ◌<◌, ◌≡◌, ◌≢◌, ◌⊎◌, refl, ◌∙◌, ap, inl, inr, true, false, List, [], ◌∷◌, ◌==◌,
  arith, Bool-cases, get_or, replicate, All,
}
use reame.Sampler.{Floats, Random, argmax_from, argmax, one_hot, total_from, divided, pick}
use reame.Speculative.Acceptance.{accept_token, larger, residuals, residual_distribution}

-- IEEE arithmetic on 0 and 1, and draws from [0, 1).
pub record FloatFacts {F R : Type 0} (fl : Floats F) (random : Random R F) : Type 0 where
  pub zero-lt-one : fl.flt fl.fzero fl.fone ≡ true
  pub zero-lt-zero : fl.flt fl.fzero fl.fzero ≡ false
  pub one-lt-zero : fl.flt fl.fone fl.fzero ≡ false
  pub one-lt-one : fl.flt fl.fone fl.fone ≡ false
  pub zero-le-zero : fl.fle fl.fzero fl.fzero ≡ true
  pub one-le-zero : fl.fle fl.fone fl.fzero ≡ false
  pub one-minus-zero : fl.fsub fl.fone fl.fzero ≡ fl.fone
  pub zero-minus-zero : fl.fsub fl.fzero fl.fzero ≡ fl.fzero
  pub minus-one-lt-zero : fl.flt (fl.fsub fl.fzero fl.fone) fl.fzero ≡ true
  pub zero-plus-zero : fl.fadd fl.fzero fl.fzero ≡ fl.fzero
  pub zero-plus-one : fl.fadd fl.fzero fl.fone ≡ fl.fone
  pub one-plus-zero : fl.fadd fl.fone fl.fzero ≡ fl.fone
  pub zero-over-one : fl.fdiv fl.fzero fl.fone ≡ fl.fzero
  pub one-over-one : fl.fdiv fl.fone fl.fone ≡ fl.fone
  pub times-one : (rng : R) → fl.fmul (random.uniform rng).1 fl.fone ≡ (random.uniform rng).1
  pub times-zero : (rng : R) → fl.fmul (random.uniform rng).1 fl.fzero ≡ fl.fzero
  pub draw-lt-one : (rng : R) → fl.flt (random.uniform rng).1 fl.fone ≡ true
  pub draw-lt-zero : (rng : R) → fl.flt (random.uniform rng).1 fl.fzero ≡ false
  pub draw-le-one : (rng : R) → fl.fle (fl.fsub (random.uniform rng).1 fl.fone) fl.fzero ≡ true

module _ {F R : Type 0} (fl : Floats F) (random : Random R F) (facts : FloatFacts fl random) where
  get_or-one_hot_same : (n a : ℕ) → a < n → get_or (one_hot fl n a) a fl.fzero ≡ fl.fone
  unfolding one_hot
  get_or-one_hot_same zero a h = absurd (omega arith)
  get_or-one_hot_same (suc n) zero h = refl
  get_or-one_hot_same (suc n) (suc a) h = get_or-one_hot_same n a (omega arith)

  get_or-replicate : (n d : ℕ) → get_or (replicate n fl.fzero) d fl.fzero ≡ fl.fzero
  get_or-replicate zero d = refl
  get_or-replicate (suc n) zero = refl
  get_or-replicate (suc n) (suc d) = get_or-replicate n d

  pub get_or-one_hot_other : (n a d : ℕ) → d ≢ a → get_or (one_hot fl n a) d fl.fzero ≡ fl.fzero
  unfolding one_hot
  get_or-one_hot_other zero a d h = refl
  get_or-one_hot_other (suc n) zero zero h = absurd (h refl)
  get_or-one_hot_other (suc n) zero (suc d) h = get_or-replicate n d
  get_or-one_hot_other (suc n) (suc a) zero h = refl
  get_or-one_hot_other (suc n) (suc a) (suc d) h = get_or-one_hot_other n a d (λ e. h (ap suc e))

  argmax_from-one : (at i n : ℕ) → argmax_from fl fl.fone at i (replicate n fl.fzero) ≡ at
  unfolding argmax_from
  argmax_from-one at i zero = refl
  argmax_from-one at i (suc n) = rw (facts.one-lt-zero, argmax_from) (argmax_from-one at (suc i) n)

  argmax_from-zero : (at i n a : ℕ) → a < n → argmax_from fl fl.fzero at i (one_hot fl n a) ≡ i + a
  unfolding argmax_from one_hot
  argmax_from-zero at i zero a h = absurd (omega arith)
  argmax_from-zero at i (suc n) zero h =
      rw (facts.zero-lt-one, argmax_from) (argmax_from-one i (suc i) n ∙ omega arith)
  argmax_from-zero at i (suc n) (suc a) h =
      rw (facts.zero-lt-zero, argmax_from)
        (argmax_from-zero at (suc i) n a (omega arith) ∙ omega arith)

  pub argmax-one_hot : (n a : ℕ) → a < n → argmax fl (one_hot fl n a) ≡ a
  unfolding argmax one_hot
  argmax-one_hot zero a h = absurd (omega arith)
  argmax-one_hot (suc n) zero h = argmax_from-one 0 1 n
  argmax-one_hot (suc n) (suc a) h = argmax_from-zero 0 1 n a (omega arith) ∙ omega arith

  pick-one_hot :
      (rng : R) (last i n a : ℕ)
      → a < n
      → pick fl (random.uniform rng).1 last i (one_hot fl n a) ≡ i + a
  unfolding pick one_hot
  pick-one_hot rng last i zero a h = absurd (omega arith)
  pick-one_hot rng last i (suc n) zero h =
      rw (facts.one-le-zero, pick) (rw (facts.draw-le-one rng, pick) (omega arith))
  pick-one_hot rng last i (suc n) (suc a) h =
      rw (facts.zero-le-zero, pick) (pick-one_hot rng last (suc i) n a (omega arith) ∙ omega arith)

  total_from-replicate :
      (sum : F) (n : ℕ)
      → fl.fadd sum fl.fzero ≡ sum
      → total_from fl sum (replicate n fl.fzero) ≡ sum
  unfolding total_from
  total_from-replicate sum zero h = refl
  total_from-replicate sum (suc n) h =
      ap (λ s. total_from fl s (replicate n fl.fzero)) h ∙ total_from-replicate sum n h

  total_from-one_hot : (n a : ℕ) → a < n → total_from fl fl.fzero (one_hot fl n a) ≡ fl.fone
  unfolding total_from one_hot
  total_from-one_hot zero a h = absurd (omega arith)
  total_from-one_hot (suc n) zero h =
      ap (λ s. total_from fl s (replicate n fl.fzero)) facts.zero-plus-one
      ∙ total_from-replicate fl.fone n facts.one-plus-zero
  total_from-one_hot (suc n) (suc a) h =
      ap (λ s. total_from fl s (one_hot fl n a)) facts.zero-plus-zero
      ∙ total_from-one_hot n a (omega arith)

  divided-replicate : (n : ℕ) → divided fl fl.fone (replicate n fl.fzero) ≡ replicate n fl.fzero
  unfolding divided
  divided-replicate zero = refl
  divided-replicate (suc n) = rw (facts.zero-over-one, divided-replicate n) refl

  divided-one_hot : (n a : ℕ) → divided fl fl.fone (one_hot fl n a) ≡ one_hot fl n a
  unfolding divided one_hot
  divided-one_hot zero a = refl
  divided-one_hot (suc n) zero = rw (facts.one-over-one, divided-replicate n) refl
  divided-one_hot (suc n) (suc a) = rw (facts.zero-over-one, divided-one_hot n a) refl

  -- A distribution of zeros and ones.
  abbrev pub ZeroOne : List F → Type 0
  ZeroOne = All (λ q. (q ≡ fl.fzero) ⊎ (q ≡ fl.fone))

  ZeroOne-replicate : (n : ℕ) → ZeroOne (replicate n fl.fzero)
  ZeroOne-replicate zero = tt
  ZeroOne-replicate (suc n) = (inl refl, ZeroOne-replicate n)

  pub ZeroOne-one_hot : (n a : ℕ) → ZeroOne (one_hot fl n a)
  unfolding one_hot
  ZeroOne-one_hot zero a = tt
  ZeroOne-one_hot (suc n) zero = (inr refl, ZeroOne-replicate n)
  ZeroOne-one_hot (suc n) (suc a) = (inl refl, ZeroOne-one_hot n a)

  residual-zero :
      (q : F) → (q ≡ fl.fzero) ⊎ (q ≡ fl.fone) → larger fl (fl.fsub fl.fzero q) fl.fzero ≡ fl.fzero
  unfolding larger
  residual-zero q (inl e) = rw (e, facts.zero-minus-zero, facts.zero-lt-zero) refl
  residual-zero q (inr e) = rw (e, facts.minus-one-lt-zero) refl

  residual-one : larger fl (fl.fsub fl.fone fl.fzero) fl.fzero ≡ fl.fone
  unfolding larger
  residual-one = rw (facts.one-minus-zero, facts.one-lt-zero) refl

  residuals-replicate :
      (n : ℕ) (qs : List F)
      → ZeroOne qs
      → residuals fl (replicate n fl.fzero) qs ≡ replicate n fl.fzero
  unfolding residuals
  residuals-replicate zero qs h = refl
  residuals-replicate (suc n) [] h =
      rw (residual-zero fl.fzero (inl refl), residuals-replicate n [] tt) refl
  residuals-replicate (suc n) (q ∷ qs) h =
      rw (residual-zero q h.0, residuals-replicate n qs h.1) refl

  residuals-one_hot :
      (n a : ℕ) (qs : List F)
      → ZeroOne qs
      → get_or qs a fl.fzero ≡ fl.fzero
      → residuals fl (one_hot fl n a) qs ≡ one_hot fl n a
  unfolding residuals one_hot
  residuals-one_hot zero a qs h g = refl
  residuals-one_hot (suc n) zero [] h g = rw (residual-one, residuals-replicate n [] tt) refl
  residuals-one_hot (suc n) zero (q ∷ qs) h g =
      rw (g, residual-one, residuals-replicate n qs h.1) refl
  residuals-one_hot (suc n) (suc a) [] h g =
      rw (residual-zero fl.fzero (inl refl), residuals-one_hot n a [] tt g) refl
  residuals-one_hot (suc n) (suc a) (q ∷ qs) h g =
      rw (residual-zero q h.0, residuals-one_hot n a qs h.1 g) refl

  get_or-ZeroOne :
      (qs : List F) (d : ℕ)
      → ZeroOne qs
      → (get_or qs d fl.fzero ≡ fl.fzero) ⊎ (get_or qs d fl.fzero ≡ fl.fone)
  get_or-ZeroOne [] d z = inl refl
  get_or-ZeroOne (q ∷ qs) zero z = z.0
  get_or-ZeroOne (q ∷ qs) (suc d) z = get_or-ZeroOne qs d z.1

  -- Nothing is accepted where the target has no mass, and everything where it has all of it.
  accept_token-zero :
      (rng : R) (q : F)
      → (q ≡ fl.fzero) ⊎ (q ≡ fl.fone)
      → accept_token fl fl.fzero q (random.uniform rng).1 ≡ false
  unfolding accept_token
  accept_token-zero rng q (inl e) = rw (e, facts.times-zero rng, accept_token) facts.zero-lt-zero
  accept_token-zero rng q (inr e) =
      rw (e, facts.times-one rng, accept_token) (facts.draw-lt-zero rng)

  accept_token-one :
      (rng : R) (q : F)
      → (q ≡ fl.fzero) ⊎ (q ≡ fl.fone)
      → accept_token fl fl.fone q (random.uniform rng).1 ≡ true
  unfolding accept_token
  accept_token-one rng q (inl e) = rw (e, facts.times-zero rng, accept_token) facts.zero-lt-one
  accept_token-one rng q (inr e) = rw (e, facts.times-one rng, accept_token) (facts.draw-lt-one rng)

  -- A draft token from a distribution of zeros and ones is accepted by a one-hot target exactly if it
  -- is the target's token.
  pub accept_token-one_hot :
      (rng : R) (n a d : ℕ) (qs : List F)
      → a < n
      → ZeroOne qs
      → accept_token fl
          (get_or (one_hot fl n a) d fl.fzero)
          (get_or qs d fl.fzero)
          (random.uniform rng).1
        ≡ (d == a)
  accept_token-one_hot rng n a d qs h z = elim (Bool-cases (d == a)) [
    | inl same ↦
        let e : d ≡ a = ground arith in
        rw (same, ap (λ i. get_or (one_hot fl n a) i fl.fzero) e ∙ get_or-one_hot_same n a h)
          (accept_token-one rng (get_or qs d fl.fzero) (get_or-ZeroOne qs d z))
    | inr other ↦
        rw (other, get_or-one_hot_other n a d (ground arith))
          (accept_token-zero rng (get_or qs d fl.fzero) (get_or-ZeroOne qs d z))
  ]

  -- After a rejection the corrected token is the target's, too.
  pub corrected-one_hot :
      (rng : R) (n a : ℕ) (qs : List F)
      → a < n
      → ZeroOne qs
      → get_or qs a fl.fzero ≡ fl.fzero
      → pick fl (random.uniform rng).1 0 0 (residual_distribution fl (one_hot fl n a) qs) ≡ a
  unfolding residual_distribution
  corrected-one_hot rng n a qs h z g =
      rw
        (
          residuals-one_hot n a qs z g,
          total_from-one_hot n a h,
          facts.one-le-zero,
          divided-one_hot n a,
        )
        (pick-one_hot rng 0 0 n a h ∙ omega arith)
