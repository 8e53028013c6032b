-- ===== src/Tests/DecoderTests.antt =====
-- speculative/speculative_decoder.cpp on a toy model: floats are numbers one too large, and behind a
-- history the likeliest token is its length modulo 3.
use reame.Base.{
  ◌/◌, ◌⊎◌, inl, Bool-cases, get_elem?, ◌≡◌, Option, take-length, ℕ, ◌+◌, ◌-◌, ◌*◌, ◌<◌, ◌≢◌, refl,
  sym, inr, Bool, true, false, none, some, some_inj, List, [], ◌∷◌, ◌++◌, arith, ltb, leb, ◌==◌,
  ◌%◌, length, take, length-set, replicate,
}
use reame.Llama.{Llama}
use reame.Llama.Kv.{Kv, predictions}
use reame.Sampler.{
  Floats, Random, Sampler, is_greedy, one_hot, sample, distribution, penalized, penalize,
  penalize_one, argmax, argmax_from, pick,
}
use reame.Sampler.Largest.{FloatOrder, score, sample-largest}
use reame.Sampler.Greedy.{FloatFacts}
use reame.Speculative.Decoder.{lookup_draft, Rates, Decoder}
use reame.Speculative.Decoder.Stream.{generate_stream, unfinished}
use reame.Speculative.Decoder.Turns.{generate_stream_ends}

abbrev pub floats : Floats ℕ
floats = record {
  fzero = 1;
  fone = 2;
  feq = λ a b. a == b;
  flt = ltb;
  fle = leb;
  fadd = λ a b. a + b - 1;
  fsub = λ a b. a + 1 - b;
  fmul = λ a b. (a - 1) * (b - 1) + 1;
  fdiv = λ a b. (a - 1) / (b - 1) + 1;
  fexp = λ a. a;
}

abbrev pub still : Random ℕ ℕ
still = record { uniform = λ rng. (rng, 1) }

abbrev pub unranked : List ℕ → ℕ → List ℕ → List ℕ
unranked probs k order = order

pub facts : FloatFacts floats still
facts = record {
  zero-lt-one = refl;
  zero-lt-zero = refl;
  one-lt-zero = refl;
  one-lt-one = refl;
  zero-le-zero = refl;
  one-le-zero = refl;
  one-minus-zero = refl;
  zero-minus-zero = refl;
  minus-one-lt-zero = refl;
  zero-plus-zero = refl;
  zero-plus-one = refl;
  one-plus-zero = refl;
  zero-over-one = refl;
  one-over-one = refl;
  times-one = λ rng. refl;
  times-zero = λ rng. refl;
  draw-lt-one = λ rng. refl;
  draw-lt-zero = λ rng. refl;
  draw-le-one = λ rng. refl;
}

abbrev guess : List ℕ → List ℕ
guess h = one_hot floats 4 (length h % 3)

pub guess-filled : (h : List ℕ) → 0 < length (guess h)
unfolding one_hot
guess-filled h = let xs : List ℕ = replicate 4 1 in omega (arith, length-set xs (length h % 3) 2)

-- The backend owns the tokens that it has read.
abbrev pub toy : Llama (List ℕ) (List ℕ)
toy = record {
  tokenize = λ text special. text;
  detokenize = λ ts. ts;
  token_piece = λ t. t ∷ [];
  decode = λ w ts. (ts, some (guess ts));
  decode_append = λ w ts. (w ++ ts, some (guess (w ++ ts)));
  decode_batch = λ w ts. (w ++ ts, some (predictions guess w ts));
  truncate_to = λ w n. (take n w, true);
  reset = λ w. [];
  state_data = λ w. w;
  set_state = λ w state n. (take n state, true);
  n_past = length;
  vocab_size = 4;
  context_length = 12;
  eos_token = 3;
  is_eog = λ t. t == 3;
  supports_rollback = true;
}

abbrev pub toy_kv : Kv toy
toy_kv = record {
  kv = λ w. w;
  predict = guess;
  n_past-kv = λ w. refl;
  kv-reset = λ w. refl;
  kv-decode = λ w ts l e. (refl, sym (some_inj e));
  kv-append = λ w ts l e. (refl, sym (some_inj e));
  kv-batch = λ w ts ls e. (refl, sym (some_inj e));
  kv-truncate = λ w n h e. refl;
  kv-state = λ w w' e. take-length w;
}

abbrev rates : Rates
rates = record { high = λ a n. true; low = λ a n. false; poor = λ a n. false }

abbrev decoder : Decoder (List ℕ)
decoder = record {
  cfg = record {
    mode = lookup_draft;
    draft_tokens = 3;
    min_draft_tokens = 1;
    max_draft_tokens = 4;
    lookup_max_ngram = 3;
    lookup_min_ngram = 1;
    use_speculative = true;
    disable_after_drafted = 100;
  };
  draft = none;
  current_draft_tokens = 3;
  speculative_active = true;
  total_draft_tokens = 0;
  total_accepted_tokens = 0;
  total_rejected_tokens = 0;
  generated_tokens = 0;
}

abbrev pub greedy : Sampler ℕ ℕ
greedy = record { temperature = 1; top_p = 2; repeat_penalty = 2; repeat_last_n = 0; rng = 7 }

-- The callback keeps what it is told.
abbrev pub kept : List ℕ → ℕ → List ℕ × Option Bool
kept told t = (told ++ t ∷ [], some true)

abbrev pub prompt : List ℕ
prompt = 0 ∷ 1 ∷ 2 ∷ 0 ∷ 1 ∷ []

generate_stream_ends_example :
    generate_stream floats still unranked rates toy toy kept decoder none [] greedy 7 [] 4 prompt 0
    ≢ unfinished
generate_stream_ends_example =
    generate_stream_ends floats still unranked rates toy toy kept decoder none [] greedy 7 [] 4
      prompt 0

ltb-irreflexive : (a : ℕ) → ltb a a ≡ false
ltb-irreflexive a = ground arith

ltb-transitive : (a b c : ℕ) → ltb a b ≡ true → ltb b c ≡ true → ltb a c ≡ true
ltb-transitive a b c h k = ground arith

ltb-total : (a b c : ℕ) → ltb a c ≡ true → (ltb a b ≡ true) ⊎ (ltb b c ≡ true)
ltb-total a b c h = elim (Bool-cases (ltb a b)) [ inl e ↦ inl e | inr e ↦ inr (ground arith) ]

abbrev in_order : FloatOrder floats
in_order = record {
  IsNumber = λ a. Unit;
  irreflexive = λ a n. ltb-irreflexive a;
  transitive = λ a b c n n' n''. ltb-transitive a b c;
  total = λ a b c n n' n''. ltb-total a b c;
}

-- Token 1 has the largest logit, 8, and is penalized twice, to 2; token 3 is next.
abbrev strict : Sampler ℕ ℕ
strict = record greedy { repeat_penalty = 3; repeat_last_n = 5 }

abbrev logits : List ℕ
logits = 2 ∷ 9 ∷ 3 ∷ 5 ∷ []

chooses_three : sample floats still unranked strict logits prompt ≡ some (strict, 3)
unfolding sample distribution penalized penalize penalize_one is_greedy argmax argmax_from one_hot
    pick
chooses_three = refl

sample-largest_example :
    (t : ℕ) × (best : ℕ) × (sample floats still unranked strict logits prompt ≡ some (strict, t))
    × (get_elem? logits t ≡ some best)
    × ((i l : ℕ)
        → get_elem? logits i ≡ some l
        → (ltb
              (score floats still unranked strict prompt t best)
              (score floats still unranked strict prompt i l)
            ≡ false)
          × (i < t
              → ltb
                  (score floats still unranked strict prompt i l)
                  (score floats still unranked strict prompt t best)
                ≡ true))
unfolding is_greedy
sample-largest_example =
    sample-largest floats still unranked facts in_order strict logits prompt refl (omega arith)
      (λ i l e. tt)
