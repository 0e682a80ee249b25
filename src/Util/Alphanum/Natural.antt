-- ===== src/Util/Alphanum/Natural.antt =====
-- `alphanum` of evaluation/src/site/resources/analysis/scripts/util.js orders labels that differ
-- in a number by that number.
use shabdiz.Prelude.{
  ℕ, ◌+◌, ◌-◌, ◌*◌, ◌^◌, ◌<◌, ◌≡◌, ◌≢◌, refl, sym, ◌∙◌, ap, true, false, List, [], ◌∷◌, ◌++◌, some,
  none, All, Bool-cases, inl, inr, if◌then◌else◌, arith,
}
use shabdiz.Text.{Text, eq_text, eq_text→eq, eq_text_refl, trim, trim_start, trim_end}
use shabdiz.Text.Number.{show_ℕ, scan, digit}
use shabdiz.Text.Number.Laws.{IsDigit, show_ℕ-IsDigit, scan-show_ℕ, not_space}
use shabdiz.Util.Alphanum.{
  minus, zero_sign, plus, decimal, read_decimal, chunk_number, sign_ℕ, difference, compare_chunks,
  greater, compare_from, alphanum,
}
use shabdiz.Util.Alphanum.Runs.{IsLetter, chunk_of, chunkify-number}

digit_of : (c : ℕ) → IsDigit c → digit 10 c ≡ some (c - 48)
unfolding digit
digit_of c h = ground arith

-- The next digit is put behind those that were read.
scan-IsDigit :
    (c m : ℕ) (s : Text)
    → IsDigit c
    → scan 10 (c ∷ s) (some m) ≡ scan 10 s (some (m * 10 + (c - 48)))
unfolding scan
scan-IsDigit c m s h = rw (digit_of c h, scan) refl

-- What the loop over the digits reads is what `parseInt` scans.
read_decimal-scan :
    (s : Text) (m n : ℕ)
    → All IsDigit s
    → scan 10 s (some m) ≡ some n
    → read_decimal s m false 0 true ≡ decimal n 0
unfolding read_decimal scan
read_decimal-scan [] m n h e = ground arith
read_decimal-scan (c ∷ s) m n (hc, hs) e =
    ground (arith, read_decimal-scan s (m * 10 + (c - 48)) n hs (sym (scan-IsDigit c m s hc) ∙ e))

-- A number that begins with a digit and has only digits.
read_decimal-digits :
    (s : Text) (n : ℕ)
    → All IsDigit s
    → scan 10 s none ≡ some n
    → read_decimal s 0 false 0 false ≡ decimal n 0
unfolding read_decimal scan
read_decimal-digits [] n h e = cc
read_decimal-digits (c ∷ s) n (hc, hs) e =
    let first : scan 10 (c ∷ s) none ≡ scan 10 s (some (c - 48)) = rw (digit_of c hc, scan) refl in
    ground (arith, read_decimal-scan s (c - 48) n hs (sym first ∙ e))

trim_end-digits : (s : Text) → All IsDigit s → trim_end s ≡ s
unfolding trim_end
trim_end-digits [] h = refl
trim_end-digits (c ∷ s) (hc, hs) = rw (not_space c hc, trim_end-digits s hs) refl

trim-digits : (s : Text) → All IsDigit s → trim s ≡ s
unfolding trim trim_start
trim-digits [] h = unfold trim_end in refl
trim-digits (c ∷ s) (hc, hs) = rw (not_space c hc, trim_start) (trim_end-digits (c ∷ s) (hc, hs))

chunk_number-digits :
    (s : Text) (n : ℕ) → All IsDigit s → scan 10 s none ≡ some n → chunk_number s ≡ decimal n 0
unfolding chunk_number
chunk_number-digits [] n h e = unfold scan in cc
chunk_number-digits (c ∷ s) n (hc, hs) e =
    rw (trim-digits (c ∷ s) (hc, hs))
      (let read = read_decimal-digits (c ∷ s) n (hc, hs) e in ground arith)

pub show_ℕ-ne_nil : (n : ℕ) → show_ℕ n ≢ []
show_ℕ-ne_nil n e = unfold scan in ground (arith, scan-show_ℕ n)

show_ℕ-inj : (m n : ℕ) → eq_text (show_ℕ m) (show_ℕ n) ≡ true → m ≡ n
show_ℕ-inj m n e =
    let same =
      sym (scan-show_ℕ m)
      ∙ ap (λ t. scan 10 t none) (eq_text→eq (show_ℕ m) (show_ℕ n) e)
      ∙ scan-show_ℕ n in
    cc

sign_ℕ_refl : (n : ℕ) → sign_ℕ n n ≡ zero_sign
sign_ℕ_refl n = ground arith

compare_chunks-decimal :
    (a b : Text) (m n : ℕ)
    → chunk_number a ≡ decimal m 0
    → chunk_number b ≡ decimal n 0
    → compare_chunks a b ≡ sign_ℕ (m * 10 ^ 0) (n * 10 ^ 0)
unfolding compare_chunks
compare_chunks-decimal a b m n hm hn =
    λ i. elim (difference (hm i) (hn i)) [ none ↦ if greater a b then plus else minus | some s ↦ s ]

sign_ℕ_ones : (m n : ℕ) → sign_ℕ (m * 10 ^ 0) (n * 10 ^ 0) ≡ sign_ℕ m n
sign_ℕ_ones m n = ground arith

pub compare_chunks-show_ℕ : (m n : ℕ) → compare_chunks (show_ℕ m) (show_ℕ n) ≡ sign_ℕ m n
compare_chunks-show_ℕ m n =
    compare_chunks-decimal (show_ℕ m) (show_ℕ n) m n
      (chunk_number-digits (show_ℕ m) m (show_ℕ-IsDigit m) (scan-show_ℕ m))
      (chunk_number-digits (show_ℕ n) n (show_ℕ-IsDigit n) (scan-show_ℕ n))
    ∙ sign_ℕ_ones m n

-- Chunks that are the same on both sides.
compare_from_refl : (cs : List Text) → compare_from cs cs ≡ zero_sign
unfolding compare_from
compare_from_refl [] = refl
compare_from_refl (c ∷ cs) = rw (eq_text_refl c) (compare_from_refl cs)

compare_from-behind :
    (p : Text) (aa bb : List Text)
    → compare_from (chunk_of p ++ aa) (chunk_of p ++ bb) ≡ compare_from aa bb
unfolding compare_from
compare_from-behind [] aa bb = refl
compare_from-behind (c ∷ p) aa bb = rw (eq_text_refl (c ∷ p)) refl

compare_from-show_ℕ :
    (m n : ℕ) (rest : List Text) → compare_from (show_ℕ m ∷ rest) (show_ℕ n ∷ rest) ≡ sign_ℕ m n
unfolding compare_from
compare_from-show_ℕ m n rest = elim (Bool-cases (eq_text (show_ℕ m) (show_ℕ n))) [
  | inl e ↦ rw (e, show_ℕ-inj m n e, sign_ℕ_refl n) (compare_from_refl rest)
  | inr e ↦ rw e (compare_chunks-show_ℕ m n)
]

-- Two labels that have the same characters in front of a whole number below 2 ^ 53 and behind it,
-- none of these characters a digit, a dot or a NUL, are ordered as these numbers.
pub alphanum-show_ℕ :
    (p q : Text) (m n : ℕ)
    → m < 2 ^ 53
    → n < 2 ^ 53
    → All IsLetter p
    → All IsLetter q
    → alphanum (p ++ (show_ℕ m ++ q)) (p ++ (show_ℕ n ++ q)) ≡ sign_ℕ m n
unfolding alphanum
alphanum-show_ℕ p q m n small_m small_n hp hq =
    rw
      (
        chunkify-number p (show_ℕ m) q hp (show_ℕ-IsDigit m) (show_ℕ-ne_nil m) hq,
        chunkify-number p (show_ℕ n) q hp (show_ℕ-IsDigit n) (show_ℕ-ne_nil n) hq,
      )
      (compare_from-behind p _ _ ∙ compare_from-show_ℕ m n (chunk_of q))
