-- ===== src/Arca/Archive/Tokens.antt =====
-- arca/archive.cpp: token ids on the wire.
use reame.Base.{
  ℕ, ◌*◌, ◌%◌, ◌^◌, ◌<◌, ◌≡◌, refl, ◌∙◌, ap, true, some, List, [], ◌∷◌, ◌++◌, arith, ◌==◌, length,
  length-append, Bytes, le_bytes, from_le, length-le_bytes, All,
}
use reame.Arca.Archive.{pack_tokens, unpack_words, unpack_tokens}

length-pack_tokens : (ts : List ℕ) → length (pack_tokens ts) ≡ 4 * length ts
unfolding pack_tokens
length-pack_tokens [] = refl
length-pack_tokens (t ∷ ts) = omega (
  arith,
  length-append (le_bytes 4 t) (pack_tokens ts),
  length-le_bytes 4 t,
  length-pack_tokens ts,
)

unpack_words-word :
    (t : ℕ) (rest : Bytes)
    → t < 2 ^ 32
    → unpack_words (le_bytes 4 t ++ rest) ≡ t ∷ unpack_words rest
unfolding unpack_words le_bytes
unpack_words-word t rest h = ap (λ u. u ∷ unpack_words rest) (unfold from_le in omega arith)

unpack_words-pack_tokens :
    (ts : List ℕ) → All (λ t. t < 2 ^ 32) ts → unpack_words (pack_tokens ts) ≡ ts
unfolding pack_tokens
unpack_words-pack_tokens [] h = unfold unpack_words in refl
unpack_words-pack_tokens (t ∷ ts) h =
    unpack_words-word t (pack_tokens ts) h.0 ∙ ap (λ us. t ∷ us) (unpack_words-pack_tokens ts h.1)

-- 32-bit tokens, packed for the wire, unpack to the same tokens.
pub unpack_tokens-pack_tokens :
    (ts : List ℕ) → All (λ t. t < 2 ^ 32) ts → unpack_tokens (pack_tokens ts) ≡ some ts
unfolding unpack_tokens
unpack_tokens-pack_tokens ts h =
    let whole : (length (pack_tokens ts) % 4 == 0) ≡ true = ground (arith, length-pack_tokens ts) in
    rw (whole, unpack_words-pack_tokens ts h) refl
