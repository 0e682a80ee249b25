-- ===== src/Util/Alphanum/Plain/Chain.antt =====
-- The order that `alphanum` of evaluation/src/site/resources/analysis/scripts/util.js has on chunks
-- that are whole numbers or words: it is transitive, and equal chunks are the same.
use shabdiz.Prelude.{
  ℕ, ◌≡◌, ◌≢◌, inl, inr, refl, sym, ◌∙◌, ap, Bool, true, false, none, some, [], ◌∷◌, All, ltb, not,
  if◌then◌else◌, arith,
}
use shabdiz.Text.{Text}
use shabdiz.Text.Number.{show_ℕ}
use shabdiz.Text.Number.Laws.{IsDigit, show_ℕ-IsDigit}
use shabdiz.Util.Alphanum.{
  Sign, minus, zero_sign, plus, ChunkNumber, decimal, infinity, not_a_number, chunk_number,
  difference, greater, sign_ℕ, compare_chunks,
}
use shabdiz.Util.Alphanum.Natural.{show_ℕ-ne_nil, compare_chunks-show_ℕ}
use shabdiz.Util.Alphanum.Plain.{IsWord, IsPlain}

abbrev pub text_sign : Text → Text → Sign
text_sign a b = if greater a b then plus else minus

greater_trans : (a b c : Text) → greater a b ≡ false → greater b c ≡ false → greater a c ≡ false
greater_trans [] b c h k = refl
greater_trans (x ∷ a) [] c h k = cc
greater_trans (x ∷ a) (y ∷ b) [] h k = cc
greater_trans (x ∷ a) (y ∷ b) (z ∷ c) h k = ground (arith, greater_trans a b c)

compare_chunks-text_sign :
    (a b : Text)
    → difference (chunk_number a) (chunk_number b) ≡ none
    → compare_chunks a b ≡ text_sign a b
unfolding compare_chunks
compare_chunks-text_sign a b e =
    λ i. elim (e i) [ none ↦ if greater a b then plus else minus | some s ↦ s ]

difference-nan : (c : ChunkNumber) → difference c not_a_number ≡ none
difference-nan (decimal m k) = refl
difference-nan (infinity true) = refl
difference-nan (infinity false) = refl
difference-nan not_a_number = refl

word-number : (a : Text) → IsWord a → chunk_number a ≡ not_a_number
word-number [] w = absurd w
word-number (c ∷ s) (k, e) = e

-- The words that stand in front of all numbers.
abbrev pub is_low : Text → Bool
is_low [] = true
is_low (c ∷ s) = ltb c 48

greater-digits : (a d : Text) → IsWord a → All IsDigit d → d ≢ [] → greater a d ≡ not (is_low a)
greater-digits [] d w h ne = absurd w
greater-digits (c ∷ s) [] w h ne = absurd (ne refl)
greater-digits (c ∷ s) (x ∷ d) (k, e) (hx, hd) ne = ground arith

digits-greater : (a d : Text) → IsWord a → All IsDigit d → d ≢ [] → greater d a ≡ is_low a
digits-greater [] d w h ne = absurd w
digits-greater (c ∷ s) [] w h ne = absurd (ne refl)
digits-greater (c ∷ s) (x ∷ d) (k, e) (hx, hd) ne = ground arith

pub left_word : (a b : Text) → IsWord a → compare_chunks a b ≡ text_sign a b
left_word a b w = compare_chunks-text_sign a b (rw (word-number a w) refl)

right_word : (a b : Text) → IsWord b → compare_chunks a b ≡ text_sign a b
right_word a b w = compare_chunks-text_sign a b (rw (word-number b w) (difference-nan _))

pub number_number :
    {a b : Text} (m n : ℕ) → a ≡ show_ℕ m → b ≡ show_ℕ n → compare_chunks a b ≡ sign_ℕ m n
number_number m n e f = rw (e, f) (compare_chunks-show_ℕ m n)

pub word_number :
    (a : Text) {b : Text} (n : ℕ)
    → IsWord a
    → b ≡ show_ℕ n
    → compare_chunks a b ≡ (if is_low a then minus else plus)
word_number a {b} n w f =
    left_word a b w
    ∙ rw (f, greater-digits a (show_ℕ n) w (show_ℕ-IsDigit n) (show_ℕ-ne_nil n))
        (by_side (is_low a))
  where
    by_side : (b : Bool) → (if not b then plus else minus) ≡ (if b then minus else plus)
    by_side true = refl
    by_side false = refl

pub number_word :
    {a : Text} (b : Text) (n : ℕ)
    → a ≡ show_ℕ n
    → IsWord b
    → compare_chunks a b ≡ (if is_low b then plus else minus)
number_word {a} b n e w =
    right_word a b w
    ∙ rw (e, digits-greater b (show_ℕ n) w (show_ℕ-IsDigit n) (show_ℕ-ne_nil n)) refl

text_sign-false : (a b : Text) → text_sign a b ≢ plus → greater a b ≡ false
text_sign-false a b h = ground arith

text_sign-chain :
    (a b c : Text) → text_sign a b ≢ plus → text_sign b c ≢ plus → text_sign a c ≢ plus
text_sign-chain a b c h k =
    rw (greater_trans a b c (text_sign-false a b h) (text_sign-false b c k)) (λ e. cc)

sign_ℕ-chain : (l m n : ℕ) → sign_ℕ l m ≢ plus → sign_ℕ m n ≢ plus → sign_ℕ l n ≢ plus
sign_ℕ-chain l m n h k = ground arith

-- Between two numbers stands no word.
none_between :
    (l n : ℕ) (low : Bool)
    → (if low then plus else minus) ≢ plus
    → (if low then minus else plus) ≢ plus
    → sign_ℕ l n ≢ plus
none_between l n true h k = absurd (h refl)
none_between l n false h k = absurd (k refl)

pub carry :
    {r s t r' s' t' : Sign}
    → r ≡ r'
    → s ≡ s'
    → t ≡ t'
    → (r' ≢ plus → s' ≢ plus → t' ≢ plus)
    → r ≢ plus
    → s ≢ plus
    → t ≢ plus
carry e f g k hr hs ht = k (λ x. hr (e ∙ x)) (λ x. hs (f ∙ x)) (sym g ∙ ht)

pub chunks-chain :
    (a b c : Text)
    → IsPlain a
    → IsPlain b
    → IsPlain c
    → compare_chunks a b ≢ plus
    → compare_chunks b c ≢ plus
    → compare_chunks a c ≢ plus
chunks-chain a b c (inl (l, e)) (inl (m, f)) (inl (n, g)) =
    carry (number_number l m e f) (number_number m n f g) (number_number l n e g)
      (sign_ℕ-chain l m n)
chunks-chain a b c (inl (l, e)) (inl (m, f)) (inr w) =
    carry (number_number l m e f) (number_word c m f w) (number_word c l e w) (λ h k. k)
chunks-chain a b c (inl (l, e)) (inr v) (inl (n, g)) =
    carry (number_word b l e v) (word_number b n v g) (number_number l n e g)
      (none_between l n (is_low b))
chunks-chain a b c (inl (l, e)) (inr v) (inr w) =
    carry (right_word a b v) (left_word b c v) (right_word a c w) (text_sign-chain a b c)
chunks-chain a b c (inr u) (inl (m, f)) (inl (n, g)) =
    carry (word_number a m u f) (number_number m n f g) (word_number a n u g) (λ h k. h)
chunks-chain a b c (inr u) (inl (m, f)) (inr w) =
    carry (left_word a b u) (right_word b c w) (left_word a c u) (text_sign-chain a b c)
chunks-chain a b c (inr u) (inr v) (inl (n, g)) =
    carry (left_word a b u) (left_word b c v) (left_word a c u) (text_sign-chain a b c)
chunks-chain a b c (inr u) (inr v) (inr w) =
    carry (left_word a b u) (left_word b c v) (left_word a c u) (text_sign-chain a b c)

text_sign-ne_zero : (a b : Text) → text_sign a b ≢ zero_sign
text_sign-ne_zero a b h = ground arith

sign_ℕ-zero : (m n : ℕ) → sign_ℕ m n ≡ zero_sign → m ≡ n
sign_ℕ-zero m n h = ground arith

-- Plain chunks that compare as equal are the same.
pub chunks-zero : (a b : Text) → IsPlain a → IsPlain b → compare_chunks a b ≡ zero_sign → a ≡ b
chunks-zero a b (inl (m, e)) (inl (n, f)) h =
    e ∙ ap show_ℕ (sign_ℕ-zero m n (sym (number_number m n e f) ∙ h)) ∙ sym f
chunks-zero a b (inr v) p h = absurd (text_sign-ne_zero a b (sym (left_word a b v) ∙ h))
chunks-zero a b (inl (m, e)) (inr w) h = absurd (text_sign-ne_zero a b (sym (right_word a b w) ∙ h))
