-- ===== src/Sampler/Largest.antt =====
-- core/sampler.cpp: greedy sampling takes the first of the largest logits behind the penalty.
use reame.Base.{
  ℕ, zero, suc, ◌-◌, ◌<◌, ◌≡◌, ◌⊎◌, refl, sym, ◌∙◌, ap, subst, inl, inr, true, false, not, ◌&&◌,
  some, some_inj, List, [], ◌∷◌, ◌++◌, arith, Bool-cases, Option-cases, ltb, ◌==◌, if◌then◌else◌,
  length, length-append, get_elem?, get_elem?-set_self, get_elem?-set_ne, drop, All, All-append,
}
use mathlib.Core.List.{append_assoc, append-nil}
use reame.Sampler.{
  Floats, Random, Sampler, penalize_one, penalize, argmax_from, argmax, is_greedy, penalized,
  sample,
}
use reame.Sampler.Greedy.{FloatFacts}
use reame.Sampler.Choice.{greedy_choice, length-penalized, sample-greedy}

-- The order of the floats but the NaNs.
pub record FloatOrder {F : Type 0} (fl : Floats F) : Type 1 where
  pub IsNumber : F → Type 0
  pub irreflexive : (a : F) → IsNumber a → fl.flt a a ≡ false
  pub transitive :
      (a b c : F)
      → IsNumber a
      → IsNumber b
      → IsNumber c
      → fl.flt a b ≡ true
      → fl.flt b c ≡ true
      → fl.flt a c ≡ true
  pub total :
      (a b c : F)
      → IsNumber a
      → IsNumber b
      → IsNumber c
      → fl.flt a c ≡ true
      → (fl.flt a b ≡ true) ⊎ (fl.flt b c ≡ true)

get_elem?-snoc :
    {F : Type 0} (seen : List F) (x : F) (j : ℕ) (y : F)
    → get_elem? (seen ++ x ∷ []) j ≡ some y
    → (get_elem? seen j ≡ some y) ⊎ ((j ≡ length seen) × (x ≡ y))
get_elem?-snoc [] x zero y e = inr (refl, some_inj e)
get_elem?-snoc [] x (suc j) y e = absurd (cc e)
get_elem?-snoc (z ∷ zs) x zero y e = inl e
get_elem?-snoc (z ∷ zs) x (suc j) y e = elim (get_elem?-snoc zs x j y e) [
  | inl h ↦ inl h
  | inr (h, k) ↦ inr (ap suc h, k)
]

get_elem?-last :
    {F : Type 0} (seen : List F) (x : F) → get_elem? (seen ++ x ∷ []) (length seen) ≡ some x
get_elem?-last [] x = refl
get_elem?-last (z ∷ zs) x = get_elem?-last zs x

get_elem?-before :
    {F : Type 0} (seen : List F) (x y : F) (j : ℕ)
    → get_elem? seen j ≡ some y
    → get_elem? (seen ++ x ∷ []) j ≡ some y
get_elem?-before [] x y j e = absurd (cc e)
get_elem?-before (z ∷ zs) x y zero e = e
get_elem?-before (z ∷ zs) x y (suc j) e = get_elem?-before zs x y j e

get_elem?-within :
    {F : Type 0} (seen : List F) (y : F) (j : ℕ) → get_elem? seen j ≡ some y → j < length seen
get_elem?-within [] y j e = absurd (cc e)
get_elem?-within (z ∷ zs) y zero e = omega arith
get_elem?-within (z ∷ zs) y (suc j) e = omega (arith, get_elem?-within zs y j e)

get_elem?-All :
    {F : Type 0} (P : F → Type 0) (seen : List F) (y : F) (j : ℕ)
    → All P seen
    → get_elem? seen j ≡ some y
    → P y
get_elem?-All P [] y j h e = absurd (cc e)
get_elem?-All P (z ∷ zs) y zero h e = subst P (some_inj e) h.0
get_elem?-All P (z ∷ zs) y (suc j) h e = get_elem?-All P zs y j h.1 e

All-get_elem? :
    {F : Type 0} (P : F → Type 0) (seen : List F)
    → ((j : ℕ) (y : F) → get_elem? seen j ≡ some y → P y)
    → All P seen
All-get_elem? P [] h = tt
All-get_elem? P (z ∷ zs) h = (h 0 z refl, All-get_elem? P zs (λ j y e. h (suc j) y e))

module _ {F : Type 0} (fl : Floats F) (o : FloatOrder fl) where
  -- No value is above the one at `t`, and those in front of it are below.
  record IsTop (ys : List F) (t : ℕ) (best : F) : Type 0 where
    there : get_elem? ys t ≡ some best
    largest : (j : ℕ) (y : F) → get_elem? ys j ≡ some y → fl.flt best y ≡ false
    first : (j : ℕ) (y : F) → get_elem? ys j ≡ some y → j < t → fl.flt y best ≡ true

  IsTop-above :
      (seen : List F) (at : ℕ) (best x : F)
      → All o.IsNumber seen
      → o.IsNumber x
      → IsTop seen at best
      → fl.flt best x ≡ true
      → IsTop (seen ++ x ∷ []) (length seen) x
  IsTop-above seen at best x all number h up =
      let best_number : o.IsNumber best = get_elem?-All o.IsNumber seen best at all h.there in
      let lower : (y : F) → o.IsNumber y → fl.flt best y ≡ false → fl.flt y x ≡ true = λ y ny e.
        elim (o.total best y x best_number ny number up) [
          | inl k ↦ absurd (cc (sym k ∙ e))
          | inr k ↦ k
        ] in
      record {
        there = get_elem?-last seen x;
        largest = λ j y e. elim (get_elem?-snoc seen x j y e) [
          | inr (same, k) ↦ subst (λ z. fl.flt x z ≡ false) k (o.irreflexive x number)
          | inl k ↦
              let ny = get_elem?-All o.IsNumber seen y j all k in
              elim (Bool-cases (fl.flt x y)) [
                | inr no_more ↦ no_more
                | inl more ↦ absurd (
                    cc
                      (sym (o.transitive best x y best_number number ny up more) ∙ h.largest j y k))
              ]
        ];
        first = λ j y e before. elim (get_elem?-snoc seen x j y e) [
          | inr (same, k) ↦ absurd (omega (arith, same, before))
          | inl k ↦ lower y (get_elem?-All o.IsNumber seen y j all k) (h.largest j y k)
        ];
      }

  IsTop-below :
      (seen : List F) (at : ℕ) (best x : F)
      → IsTop seen at best
      → fl.flt best x ≡ false
      → IsTop (seen ++ x ∷ []) at best
  IsTop-below seen at best x h down = record {
    there = get_elem?-before seen x best at h.there;
    largest = λ j y e. elim (get_elem?-snoc seen x j y e) [
      | inr (same, k) ↦ subst (λ z. fl.flt best z ≡ false) k down
      | inl k ↦ h.largest j y k
    ];
    first = λ j y e before. elim (get_elem?-snoc seen x j y e) [
      | inr (same, k) ↦ absurd (omega (arith, same, before, get_elem?-within seen best at h.there))
      | inl k ↦ h.first j y k before
    ];
  }

  argmax_from-IsTop :
      (seen xs : List F) (at i : ℕ) (best : F)
      → i ≡ length seen
      → All o.IsNumber seen
      → All o.IsNumber xs
      → IsTop seen at best
      → (top : F) × IsTop (seen ++ xs) (argmax_from fl best at i xs) top
  unfolding argmax_from
  argmax_from-IsTop seen [] at i best e all rest h =
      (best, subst (λ ys. IsTop ys at best) (sym (append-nil seen)) h)
  argmax_from-IsTop seen (x ∷ xs) at i best e all rest h =
      let seen' = seen ++ x ∷ [] in
      let all' : All o.IsNumber seen' = All-append o.IsNumber seen (x ∷ []) all (rest.0, tt) in
      let longer : suc i ≡ length seen' = omega (arith, e, length-append seen (x ∷ [])) in
      rw (sym (append_assoc seen (x ∷ []) xs)) (elim (Bool-cases (fl.flt best x)) [
        | inl up ↦
            rw (up, argmax_from)
              (argmax_from-IsTop seen' xs i (suc i) x longer all' rest.1
                (subst (λ n. IsTop seen' n x) (sym e) (IsTop-above seen at best x all rest.0 h up)))
        | inr down ↦
            rw (down, argmax_from)
              (argmax_from-IsTop seen' xs at (suc i) best longer all' rest.1
                (IsTop-below seen at best x h down))
      ])

  argmax-IsTop :
      (xs : List F) → 0 < length xs → All o.IsNumber xs → (top : F) × IsTop xs (argmax fl xs) top
  unfolding argmax
  argmax-IsTop [] h all = absurd (omega arith)
  argmax-IsTop (x ∷ xs) h all =
      argmax_from-IsTop (x ∷ []) xs 0 1 x refl (all.0, tt) all.1
        (record {
          there = refl;
          largest = λ j y e. elim (get_elem?-snoc [] x j y e) [
            | inl k ↦ absurd (cc k)
            | inr (same, k) ↦ subst (λ z. fl.flt x z ≡ false) k (o.irreflexive x all.0)
          ];
          first = λ j y e before. absurd (omega (arith, before));
        })

module _ {F : Type 0} (fl : Floats F) where
  -- The logit of token `i`, with the penalty once for each time that the token is in `ts`.
  abbrev pub scored : F → List ℕ → ℕ → F → F
  scored penalty [] i l = l
  scored penalty (t ∷ ts) i l =
      scored penalty ts i
        (if t == i then (if fl.flt fl.fzero l then fl.fdiv l penalty else fl.fmul l penalty) else l)

  penalize_one-scored :
      (penalty : F) (xs : List F) (t i : ℕ) (l : F)
      → get_elem? xs i ≡ some l
      → get_elem? (penalize_one fl penalty xs t) i ≡ some (scored penalty (t ∷ []) i l)
  unfolding penalize_one
  penalize_one-scored penalty xs t i l e = elim (Bool-cases (t == i)) [
    | inl same ↦
        let is : t ≡ i = ground arith in
        rw (same, is)
          (rw (e, penalize_one)
            (get_elem?-set_self xs i
              (if fl.flt fl.fzero l then fl.fdiv l penalty else fl.fmul l penalty)
              (get_elem?-within xs l i e)))
    | inr other ↦ rw other (elim (Option-cases (get_elem? xs t)) [
      | inl beyond ↦ rw (beyond, penalize_one) e
      | inr (m, there) ↦ rw (there, penalize_one) (get_elem?-set_ne xs _ (ground arith) ∙ e)
    ])
  ]

  penalize-scored :
      (penalty : F) (xs : List F) (ts : List ℕ) (i : ℕ) (l : F)
      → get_elem? xs i ≡ some l
      → get_elem? (penalize fl penalty xs ts) i ≡ some (scored penalty ts i l)
  unfolding penalize
  penalize-scored penalty xs [] i l e = e
  penalize-scored penalty xs (t ∷ ts) i l e =
      penalize-scored penalty (penalize_one fl penalty xs t) ts i (scored penalty (t ∷ []) i l)
        (penalize_one-scored penalty xs t i l e)

get_elem?-some :
    {F : Type 0} (xs : List F) (i : ℕ) → i < length xs → (l : F) × get_elem? xs i ≡ some l
get_elem?-some [] i h = absurd (omega arith)
get_elem?-some (x ∷ xs) zero h = (x, refl)
get_elem?-some (x ∷ xs) (suc i) h = get_elem?-some xs i (omega arith)

module _ {F R : Type 0} (fl : Floats F) (random : Random R F)
    (ranked : List F → ℕ → List ℕ → List ℕ) where
  -- The tokens that the penalty is for.
  abbrev pub penalized_tokens : Sampler F R → List ℕ → List ℕ
  penalized_tokens s recent =
      if not (fl.feq s.repeat_penalty fl.fone) && ltb 0 s.repeat_last_n
      then drop (length recent - s.repeat_last_n) recent
      else []

  abbrev pub score : Sampler F R → List ℕ → ℕ → F → F
  score s recent i l = scored fl s.repeat_penalty (penalized_tokens s recent) i l

  penalized-score :
      (s : Sampler F R) (logits : List F) (recent : List ℕ) (i : ℕ) (l : F)
      → get_elem? logits i ≡ some l
      → get_elem? (penalized fl random ranked s logits recent) i ≡ some (score s recent i l)
  unfolding penalized
  penalized-score s logits recent i l e =
      elim (Bool-cases (not (fl.feq s.repeat_penalty fl.fone) && ltb 0 s.repeat_last_n)) [
        | inl some_tokens ↦ rw some_tokens (
            penalize-scored fl s.repeat_penalty logits
              (drop (length recent - s.repeat_last_n) recent) i l e)
        | inr no_tokens ↦ rw no_tokens e
      ]

  score-penalized :
      (s : Sampler F R) (logits : List F) (recent : List ℕ) (i : ℕ) (y : F)
      → get_elem? (penalized fl random ranked s logits recent) i ≡ some y
      → (l : F) × (get_elem? logits i ≡ some l) × (y ≡ score s recent i l)
  score-penalized s logits recent i y e =
      let inside = get_elem?-within (penalized fl random ranked s logits recent) y i e in
      let (l, there) =
        get_elem?-some logits i
          (omega (arith, inside, length-penalized fl random ranked s logits recent)) in
      (l, there, some_inj (sym e ∙ penalized-score s logits recent i l there))

  -- Greedy sampling leaves the sampler as it is and gives the first token of the largest score, where
  -- the score of a token is its logit with the repeat penalty applied once for each time that the token
  -- is among the last `repeat_last_n`: divided by it if it is above 0, else multiplied. The logits are
  -- not empty, and no score is NaN.
  pub sample-largest :
      FloatFacts fl random
      → (o : FloatOrder fl) (s : Sampler F R) (logits : List F) (recent : List ℕ)
      → is_greedy fl random ranked s ≡ true
      → 0 < length logits
      → ((i : ℕ) (l : F) → get_elem? logits i ≡ some l → o.IsNumber (score s recent i l))
      → (t : ℕ) × (best : F) × (sample fl random ranked s logits recent ≡ some (s, t))
        × (get_elem? logits t ≡ some best)
        × ((i : ℕ) (l : F)
            → get_elem? logits i ≡ some l
            → (fl.flt (score s recent t best) (score s recent i l) ≡ false)
              × (i < t → fl.flt (score s recent i l) (score s recent t best) ≡ true))
  sample-largest facts o s logits recent greedy filled numbers =
      let ys = penalized fl random ranked s logits recent in
      let (top, h) =
        argmax-IsTop fl o ys
          (omega (arith, filled, length-penalized fl random ranked s logits recent))
          (All-get_elem? o.IsNumber ys (λ j y e.
            let (l, there, same) = score-penalized s logits recent j y e in
            subst o.IsNumber (sym same) (numbers j l there))) in
      let (best, there, same) = score-penalized s logits recent (argmax fl ys) top h.there in
      (
        argmax fl ys,
        best,
        unfold greedy_choice in sample-greedy fl random ranked facts s logits recent greedy filled,
        there,
        λ i l e.
            let at_i = penalized-score s logits recent i l e in
            (
              subst (λ x. fl.flt x (score s recent i l) ≡ false) same
                  (h.largest i (score s recent i l) at_i),
              λ before.
                  subst (λ x. fl.flt (score s recent i l) x ≡ true) same
                    (h.first i (score s recent i l) at_i before),
            ),
      )
