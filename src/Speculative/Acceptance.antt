-- ===== src/Speculative/Acceptance.antt =====
-- speculative/acceptance.cpp and acceptance.hpp: acceptance sampling on single tokens.
use reame.Base.{Bool, List, [], ◌∷◌, if◌then◌else◌}
use reame.Sampler.{Floats, total_from, divided}

module _ {F : Type 0} (fl : Floats F) where
  unfoldable pub accept_token : F → F → F → Bool
  accept_token target_prob draft_prob r = fl.flt (fl.fmul r draft_prob) target_prob

  -- std::max.
  unfoldable pub larger : F → F → F
  larger a b = if fl.flt a b then b else a

  -- A draft shorter than the target goes on with zeros.
  unfoldable pub residuals : List F → List F → List F
  residuals [] qs = []
  residuals (p ∷ ps) [] = larger (fl.fsub p fl.fzero) fl.fzero ∷ residuals ps []
  residuals (p ∷ ps) (q ∷ qs) = larger (fl.fsub p q) fl.fzero ∷ residuals ps qs

  unfoldable pub residual_distribution : List F → List F → List F
  residual_distribution target draft =
      let residual = residuals target draft in
      let sum = total_from fl fl.fzero residual in
      if fl.fle sum fl.fzero then target else divided fl sum residual
