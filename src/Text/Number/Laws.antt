-- ===== src/Text/Number/Laws.antt =====
-- `parseInt` reads back every number that is printed, and what printed numbers are made of.
use shabdiz.Prelude.{
  ℕ, zero, suc, ◌+◌, ◌/◌, ◌%◌, ◌^◌, ◌≤◌, ◌<◌, ◌≡◌, ◌≢◌, refl, false, [], ◌∷◌, Option, some, none,
  arith, All, ltb, Bool-cases, inl, inr, ◌∙◌, ap,
}
use shabdiz.Prelude.Int.{pos, negsuc}
use shabdiz.Text.{Text, codes, is_space, trim_start, Lacks}
use shabdiz.Text.Number.{
  Number, int, nan, positive, digits, show_ℕ, show, digit, scan, magnitude, signed, parse_int,
}

abbrev pub IsDigit : ℕ → Type 0
IsDigit c = (b'0' ≤ c) × (c ≤ b'9')

digits-IsDigit : (f n : ℕ) (out : Text) → All IsDigit out → All IsDigit (digits f n out)
unfolding digits
digits-IsDigit zero n out h = h
digits-IsDigit (suc f) n out h = elim (Bool-cases (ltb n 10)) [
  | inl e ↦ rw e (omega arith, h)
  | inr e ↦ rw e (digits-IsDigit f (n / 10) ((b'0' + n % 10) ∷ out) (omega arith, h))
]

pub show_ℕ-IsDigit : (n : ℕ) → All IsDigit (show_ℕ n)
unfolding show_ℕ
show_ℕ-IsDigit n = digits-IsDigit (suc n) n [] tt

pub digit_ten : (d : ℕ) → d < 10 → digit 10 (b'0' + d) ≡ some d
unfolding digit
digit_ten d h = ground arith

-- Reading the last digit of `n` behind the digits before it gives `n`.
scan_last :
    (n : ℕ) (out : Text) → scan 10 ((b'0' + n % 10) ∷ out) (some (n / 10)) ≡ scan 10 out (some n)
unfolding scan
scan_last n out =
    rw (digit_ten (n % 10) (omega arith), scan) (ap (λ (k : ℕ). scan 10 out (some k)) (omega arith))

scan_small :
    (n : ℕ) (out : Text) → n < 10 → scan 10 ((b'0' + n % 10) ∷ out) none ≡ scan 10 out (some n)
unfolding scan
scan_small n out h =
    rw (digit_ten (n % 10) (omega arith), scan) (ap (λ (k : ℕ). scan 10 out (some k)) (omega arith))

-- With fuel above `n` the digits of `n` are read back in front of any text.
scan-digits : (f n : ℕ) (out : Text) → n < f → scan 10 (digits f n out) none ≡ scan 10 out (some n)
unfolding digits
scan-digits zero n out h = elim h [ ]
scan-digits (suc f) n out h = elim (Bool-cases (ltb n 10)) [
  | inl e ↦ rw e (scan_small n out (ground arith))
  | inr e ↦ rw e (scan-digits f (n / 10) ((b'0' + n % 10) ∷ out) (ground arith) ∙ scan_last n out)
]

pub scan-show_ℕ : (n : ℕ) → scan 10 (show_ℕ n) none ≡ some n
unfolding show_ℕ scan
scan-show_ℕ n = scan-digits (suc n) n [] (omega arith)

magnitude-IsDigit : (s : Text) → All IsDigit s → magnitude s ≡ scan 10 s none
unfolding magnitude
magnitude-IsDigit [] h = refl
magnitude-IsDigit (c ∷ []) h = refl
magnitude-IsDigit (c ∷ d ∷ s) h = ground arith

magnitude-show_ℕ : (n : ℕ) → magnitude (show_ℕ n) ≡ some n
magnitude-show_ℕ n = magnitude-IsDigit _ (show_ℕ-IsDigit n) ∙ scan-show_ℕ n

pub not_space : (c : ℕ) → IsDigit c → is_space c ≡ false
unfolding is_space
not_space c h = ground arith

parse_int-digits :
    (s : Text) (n : ℕ) → All IsDigit s → magnitude s ≡ some n → parse_int s ≡ int (pos n)
unfolding parse_int signed
parse_int-digits [] n h e = unfold magnitude in cc
parse_int-digits (c ∷ s) n (hc, hs) e = rw (not_space c hc, trim_start) (ground arith)

parse_int-minus :
    (s : Text) (n : ℕ) → magnitude s ≡ some (suc n) → parse_int (b'-' ∷ s) ≡ int (negsuc n)
unfolding parse_int signed is_space
parse_int-minus s n e = ground arith

-- `NaN`, or a whole number below 2 ^ 53 in size: the doubles of the source hold these exactly, tell
-- them apart, and print all their digits.
abbrev pub IsExact : Number → Type 0
IsExact (int (pos n)) = n < 2 ^ 53
IsExact (int (negsuc n)) = suc n < 2 ^ 53
IsExact nan = Unit

-- `parseInt` undoes the printing of every exact number, `NaN` included.
pub parse_int-show : (n : Number) → IsExact n → parse_int (show n) ≡ n
unfolding show
parse_int-show (int (pos n)) h = parse_int-digits _ n (show_ℕ-IsDigit n) (magnitude-show_ℕ n)
parse_int-show (int (negsuc n)) h = parse_int-minus _ n (magnitude-show_ℕ (suc n))
parse_int-show nan h = unfold parse_int is_space in refl

-- No negative number: what `parseInt` makes of a text without a minus sign.
abbrev pub IsNatural : Number → Type 0
IsNatural (int (pos n)) = Unit
IsNatural (int (negsuc n)) = ⊥
IsNatural nan = Unit

-- An index is an exact number that is not negative.
abbrev pub IsIndex : Number → Type 0
IsIndex n = IsNatural n × IsExact n

-- The characters of a printed number: no white space, no underscore, and no dash in one that is
-- not negative.
abbrev IsPlain : ℕ → Type 0
IsPlain c = (is_space c ≡ false) × (c ≢ b'_') × (c ≢ b'-')

digits-IsPlain : (s : Text) → All IsDigit s → All IsPlain s
digits-IsPlain [] h = tt
digits-IsPlain (c ∷ s) (hc, hs) = ((not_space c hc, omega arith, omega arith), digits-IsPlain s hs)

pub show-IsPlain : (n : Number) → IsNatural n → All IsPlain (show n)
unfolding show
show-IsPlain (int (pos n)) h = digits-IsPlain _ (show_ℕ-IsDigit n)
show-IsPlain (int (negsuc n)) h = absurd h
show-IsPlain nan h =
    unfold is_space in
    (
      (refl, omega arith, omega arith),
      ((refl, omega arith, omega arith), ((refl, omega arith, omega arith), tt)),
    )

pub plain-Lacks_dash : (s : Text) → All IsPlain s → Lacks b'-' s
plain-Lacks_dash [] h = tt
plain-Lacks_dash (c ∷ s) (hc, hs) = (hc.2, plain-Lacks_dash s hs)

pub plain-Lacks_underscore : (s : Text) → All IsPlain s → Lacks b'_' s
plain-Lacks_underscore [] h = tt
plain-Lacks_underscore (c ∷ s) (hc, hs) = (hc.1, plain-Lacks_underscore s hs)

pub show-Lacks_underscore : (n : Number) → Lacks b'_' (show n)
show-Lacks_underscore (int (pos n)) = plain-Lacks_underscore _ (show-IsPlain (int (pos n)) tt)
show-Lacks_underscore (int (negsuc n)) =
    unfold show in
    (omega arith, plain-Lacks_underscore _ (digits-IsPlain _ (show_ℕ-IsDigit (suc n))))
show-Lacks_underscore nan = plain-Lacks_underscore _ (show-IsPlain nan tt)

-- What is read from a text without a dash is not negative.
positive-IsNatural : (o : Option ℕ) → IsNatural (positive o)
positive-IsNatural none = tt
positive-IsNatural (some n) = tt

signed-IsNatural : (s : Text) → Lacks b'-' s → IsNatural (signed s)
unfolding signed
signed-IsNatural [] h = tt
signed-IsNatural (c ∷ s) (hc, hs) =
    ground (arith, positive-IsNatural (magnitude s), positive-IsNatural (magnitude (c ∷ s)))

trim_start-Lacks : (s : Text) → Lacks b'-' s → Lacks b'-' (trim_start s)
unfolding trim_start
trim_start-Lacks [] h = tt
trim_start-Lacks (c ∷ s) (hc, hs) = elim (Bool-cases (is_space c)) [
  | inl e ↦ rw (e, trim_start) (trim_start-Lacks s hs)
  | inr e ↦ rw (e, trim_start) (hc, hs)
]

pub parse_int-IsNatural : (s : Text) → Lacks b'-' s → IsNatural (parse_int s)
unfolding parse_int
parse_int-IsNatural s h = signed-IsNatural _ (trim_start-Lacks s h)

show_ℕ_first : (n : ℕ) → (c : ℕ) × (s : Text) × (show_ℕ n ≡ c ∷ s) × (is_space c ≡ false)
show_ℕ_first n = first (show_ℕ n) (show_ℕ-IsDigit n) (magnitude-show_ℕ n)
  where
    first :
        (t : Text)
        → All IsDigit t
        → magnitude t ≡ some n
        → (c : ℕ) × (s : Text) × (t ≡ c ∷ s) × (is_space c ≡ false)
    first [] h e = unfold magnitude in cc
    first (c ∷ s) h e = (c, s, refl, not_space c h.0)

-- A printed number is not empty, and begins with no white space.
pub show_first : (n : Number) → (c : ℕ) × (s : Text) × (show n ≡ c ∷ s) × (is_space c ≡ false)
unfolding show
show_first (int (pos n)) = show_ℕ_first n
show_first (int (negsuc n)) = (b'-', show_ℕ (suc n), refl, unfold is_space in refl)
show_first nan = (b'N', codes "aN", refl, unfold is_space in refl)
