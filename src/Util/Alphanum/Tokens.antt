-- ===== src/Util/Alphanum/Tokens.antt =====
-- `alphanum` of evaluation/src/site/resources/analysis/scripts/util.js on labels of words and whole
-- numbers, against a direct description of the order.
use shabdiz.Prelude.{
  ℕ, ◌≡◌, ◌≢◌, inl, inr, refl, sym, ◌∙◌, ap, Bool, true, false, none, some, List, [], ◌∷◌, All,
  Bool-cases, if◌then◌else◌, map, arith,
}
use shabdiz.Text.{Text, eq_text, eq_text_refl, eq_text→eq}
use shabdiz.Text.Number.{scan, digit, show_ℕ}
use shabdiz.Text.Number.Laws.{scan-show_ℕ}
use shabdiz.Util.Alphanum.{
  Sign, minus, zero_sign, plus, is_numeric, sign_ℕ, greater, compare_chunks, compare_from, chunkify,
  alphanum,
}
use shabdiz.Util.Alphanum.Plain.{IsPlain, IsWord}
use shabdiz.Util.Alphanum.Plain.Chain.{
  number_number, word_number, number_word, left_word, is_low, chunks-zero,
}
use shabdiz.Util.Alphanum.Total.{is_label, chunks-IsPlain}

-- What a label is made of.
pub data Token : Type 0 where
  number : ℕ → Token
  word : Text → Token

abbrev pub token : Text → Token
token t = elim (scan 10 t none) [ none ↦ word t | some n ↦ number n ]

abbrev pub tokens : Text → List Token
tokens t = map token (chunkify t)

-- Numbers stand by their size, words by their code units, and numbers behind the words that open
-- below the digits and before the others.
abbrev pub compare_token : Token → Token → Sign
compare_token (number m) (number n) = sign_ℕ m n
compare_token (number m) (word w) = if is_low w then plus else minus
compare_token (word v) (number n) = if is_low v then minus else plus
compare_token (word v) (word w) =
    if eq_text v w then zero_sign else if greater v w then plus else minus

-- What decides: the first comparison, unless it finds no difference.
abbrev decided : Sign → Sign → Sign
decided minus rest = minus
decided zero_sign rest = rest
decided plus rest = plus

-- The first pair that differs decides; else the shorter list stands first.
abbrev pub compare_tokens : List Token → List Token → Sign
compare_tokens [] [] = zero_sign
compare_tokens [] (u ∷ us) = minus
compare_tokens (t ∷ ts) [] = plus
compare_tokens (t ∷ ts) (u ∷ us) = decided (compare_token t u) (compare_tokens ts us)

token-number : {a : Text} (n : ℕ) → a ≡ show_ℕ n → token a ≡ number n
token-number n e = rw (e, token, scan-show_ℕ n) refl

no_digit : (c : ℕ) → is_numeric c ≡ false → digit 10 c ≡ none
unfolding digit
no_digit c e = ground arith

token-word : (a : Text) → IsWord a → token a ≡ word a
unfolding scan
token-word [] w = absurd w
token-word (c ∷ s) (opens, nan) = rw (token, no_digit c opens) refl

-- One token is compared as one chunk.
abbrev IsCompared : Text → Text → Type 0
IsCompared a b =
    compare_token (token a) (token b) ≡ (if eq_text a b then zero_sign else compare_chunks a b)

same_number : (m n : ℕ) → number m ≡ number n → sign_ℕ m n ≡ zero_sign
same_number m n e = let same : m ≡ n = cc in ground arith

numbers-IsCompared : {a b : Text} (m n : ℕ) → a ≡ show_ℕ m → b ≡ show_ℕ n → IsCompared a b
numbers-IsCompared {a} {b} m n e f = elim (Bool-cases (eq_text a b)) [
  | inl same ↦
      rw (same, token-number m e, token-number n f)
        (same_number m n
          (sym (token-number m e) ∙ ap token (eq_text→eq a b same) ∙ token-number n f))
  | inr other ↦ rw (other, token-number m e, token-number n f) (sym (number_number m n e f))
]

-- Chunks of two kinds differ.
other_kind : (a b : Text) (n : ℕ) → token a ≡ word a → token b ≡ number n → eq_text a b ≡ false
other_kind a b n e f = elim (Bool-cases (eq_text a b)) [
  | inl same ↦ absurd (apart a n (sym e ∙ ap token (eq_text→eq a b same) ∙ f))
  | inr other ↦ other
]
  where
    apart : (v : Text) (m : ℕ) → word v ≢ number m
    apart v m k = cc

other_kind_turned :
    (a b : Text) (n : ℕ) → token a ≡ number n → token b ≡ word b → eq_text a b ≡ false
other_kind_turned a b n e f = elim (Bool-cases (eq_text a b)) [
  | inl same ↦ absurd (apart b n (sym f ∙ ap token (sym (eq_text→eq a b same)) ∙ e))
  | inr other ↦ other
]
  where
    apart : (v : Text) (m : ℕ) → word v ≢ number m
    apart v m k = cc

tokens-IsCompared : (a b : Text) → IsPlain a → IsPlain b → IsCompared a b
tokens-IsCompared a b (inl (m, e)) (inl (n, f)) = numbers-IsCompared m n e f
tokens-IsCompared a b (inr v) (inl (n, f)) =
    rw (token-word a v, token-number n f, other_kind a b n (token-word a v) (token-number n f))
      (sym (word_number a n v f))
tokens-IsCompared a b (inl (m, e)) (inr w) =
    rw
      (
        token-number m e,
        token-word b w,
        other_kind_turned a b m (token-number m e) (token-word b w),
      )
      (sym (number_word b m e w))
tokens-IsCompared a b (inr v) (inr w) = rw (token-word a v, token-word b w, left_word a b v) refl

decided_lem :
    (same : Bool) (first rest : Sign)
    → (same ≡ false → first ≢ zero_sign)
    → decided (if same then zero_sign else first) rest ≡ (if same then rest else first)
decided_lem true first rest differ = refl
decided_lem false minus rest differ = refl
decided_lem false zero_sign rest differ = absurd (differ refl refl)
decided_lem false plus rest differ = refl

differ : (a b : Text) → IsPlain a → IsPlain b → eq_text a b ≡ false → compare_chunks a b ≢ zero_sign
differ a b p q e z = ground (arith, chunks-zero a b p q z, eq_text_refl a)

compare_from-tokens :
    (xs ys : List Text)
    → All IsPlain xs
    → All IsPlain ys
    → compare_from xs ys ≡ compare_tokens (map token xs) (map token ys)
unfolding compare_from
compare_from-tokens [] [] p q = refl
compare_from-tokens [] (b ∷ ys) p q = refl
compare_from-tokens (a ∷ xs) [] p q = refl
compare_from-tokens (a ∷ xs) (b ∷ ys) (p, ps) (q, qs) =
    let one : Sign = if eq_text a b then zero_sign else compare_chunks a b in
    sym (
      ap (λ c. decided c (compare_tokens (map token xs) (map token ys))) (tokens-IsCompared a b p q)
      ∙ ap (decided one) (sym (compare_from-tokens xs ys ps qs))
      ∙ decided_lem (eq_text a b) (compare_chunks a b) (compare_from xs ys) (differ a b p q))

-- On labels, texts whose numeric chunks are whole numbers below 2 ^ 53 without leading zeros and
-- whose other chunks `Number` reads as no number, `alphanum` is the lexicographic order of their
-- words and numbers: two numbers stand by their size, two words by their code units, and a number
-- stands in front of a word unless the word opens below the digits; at the first difference the
-- order is settled, and what ends before it stands first.
pub alphanum-tokens :
    (a b : Text)
    → is_label a ≡ true
    → is_label b ≡ true
    → alphanum a b ≡ compare_tokens (tokens a) (tokens b)
unfolding alphanum
alphanum-tokens a b p q =
    compare_from-tokens (chunkify a) (chunkify b) (chunks-IsPlain _ p) (chunks-IsPlain _ q)
