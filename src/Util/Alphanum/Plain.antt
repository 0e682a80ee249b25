-- ===== src/Util/Alphanum/Plain.antt =====
-- The chunks of `chunkify` of evaluation/src/site/resources/analysis/scripts/util.js that are whole
-- numbers or words.
pub mod Chain
use shabdiz.Prelude.{
  ℕ, ◌≡◌, ◌⊎◌, inl, inr, refl, Bool, true, false, Option, none, some, [], ◌∷◌, ◌&&◌, ◌||◌,
  Bool-cases, ltb, ◌^◌, not, arith,
}
use shabdiz.Text.{Text, eq_text, eq_text→eq}
use shabdiz.Text.Number.{show_ℕ, scan}
use shabdiz.Util.Alphanum.{is_numeric, ChunkNumber, decimal, infinity, not_a_number, chunk_number}

-- A chunk that opens with no digit and no dot, and is no number to `Number` either: `Number` reads
-- white space and `Infinity`.
abbrev pub IsWord : Text → Type 0
IsWord [] = ⊥
IsWord (c ∷ s) = (is_numeric c ≡ false) × (chunk_number (c ∷ s) ≡ not_a_number)

-- A whole number as it is printed, or a word.
abbrev pub IsPlain : Text → Type 0
IsPlain t = ((n : ℕ) × (t ≡ show_ℕ n)) ⊎ IsWord t

abbrev is_nan : ChunkNumber → Bool
is_nan not_a_number = true
is_nan _ = false

abbrev is_word : Text → Bool
is_word [] = false
is_word (c ∷ s) = not (is_numeric c) && is_nan (chunk_number (c ∷ s))

-- A whole number without leading zeros, small enough for a double to hold it.
abbrev is_whole : Text → Bool
is_whole t = elim (scan 10 t none) [
  | none ↦ false
  | some n ↦ eq_text t (show_ℕ n) && ltb n (2 ^ 53)
]

abbrev pub is_plain : Text → Bool
is_plain t = is_whole t || is_word t

pub not_and_parts : (x y : Bool) → (not x && y) ≡ true → (x ≡ false) × (y ≡ true)
not_and_parts x y e = ground arith

is_nan_sound : (c : ChunkNumber) → is_nan c ≡ true → c ≡ not_a_number
is_nan_sound not_a_number e = refl
is_nan_sound (decimal m k) e = cc
is_nan_sound (infinity b) e = cc

is_word_sound : (t : Text) → is_word t ≡ true → IsWord t
is_word_sound [] e = cc
is_word_sound (c ∷ s) e =
    let (opens, nan) = not_and_parts (is_numeric c) (is_nan (chunk_number (c ∷ s))) e in
    (opens, is_nan_sound (chunk_number (c ∷ s)) nan)

is_whole_sound : (t : Text) → is_whole t ≡ true → (n : ℕ) × (t ≡ show_ℕ n)
is_whole_sound t e = read (scan 10 t none) e
  where
    read :
        (found : Option ℕ)
        → elim found as (λ x. Bool) [
          | none ↦ false
          | some n ↦ eq_text t (show_ℕ n) && ltb n (2 ^ 53)
        ]
          ≡ true
        → (n : ℕ) × (t ≡ show_ℕ n)
    read none h = cc
    read (some n) h = (n, eq_text→eq t (show_ℕ n) (ground arith))

pub is_plain_sound : (t : Text) → is_plain t ≡ true → IsPlain t
is_plain_sound t e = elim (Bool-cases (is_whole t)) [
  | inl w ↦ inl (is_whole_sound t w)
  | inr w ↦ inr (is_word_sound t (ground arith))
]
