-- ===== src/Util/Strings.antt =====
-- evaluation/src/site/resources/analysis/scripts/util.js: `startsWith`, `contains` and `toTitleCase`
-- of texts, and the library's `replace` of one text. Letters are those of ASCII.
use mathlib.Core.Bool.{false≢true}
use shabdiz.Prelude.{
  ℕ, zero, suc, ◌+◌, ◌-◌, ◌≡◌, ◌↔◌, refl, Bool, true, false, ◌&&◌, ◌||◌, [], ◌∷◌, ◌++◌, Option,
  none, some, arith, leb, ◌==◌, ==_refl, ==_iff, length, if◌then◌else◌, Bool-cases, inl, inr, ap,
}
use shabdiz.Text.{Text, is_space, starts_with as begins, index_of}

abbrev is_zero : Option ℕ → Bool
is_zero (some zero) = true
is_zero _ = false

abbrev is_found : Option ℕ → Bool
is_found none = false
is_found (some i) = true

-- `this.indexOf(str) == 0`.
unfoldable pub starts_with : Text → Text → Bool
unfolding index_of
starts_with this str = is_zero (index_of str this)

-- `this.indexOf(str) != -1`; what is logged on the way is left out.
unfoldable pub contains : Text → Text → Bool
unfolding index_of
contains this str = is_found (index_of str this)

abbrev pub drop : ℕ → Text → Text
drop zero s = s
drop (suc n) [] = []
drop (suc n) (c ∷ s) = drop n s

-- `text.replace(pattern, replacement)` for a pattern that is a text: the first place is replaced.
unfoldable pub replace : Text → Text → Text → Text
replace pattern_text replacement [] = if begins pattern_text [] then replacement else []
replace pattern_text replacement (c ∷ s) =
    let rest = replace pattern_text replacement s in
    if begins pattern_text (c ∷ s)
    then replacement ++ drop (length pattern_text) (c ∷ s)
    else c ∷ rest

abbrev is_upper : ℕ → Bool
is_upper c = leb b'A' c && leb c b'Z'

abbrev is_lower : ℕ → Bool
is_lower c = leb b'a' c && leb c b'z'

-- `\w`.
abbrev pub is_word : ℕ → Bool
is_word c = is_upper c || is_lower c || (leb b'0' c && leb c b'9') || c == b'_'

abbrev pub to_upper : ℕ → ℕ
to_upper c = if is_lower c then c - 32 else c

abbrev pub to_lower : ℕ → ℕ
to_lower c = if is_upper c then c + 32 else c

-- The matches of `/\w\S*/g`, from a place inside a match or not.
pub title_from : Bool → Text → Text
unfolding is_space
title_from inside [] = []
title_from true (c ∷ s) =
    if is_space c then c ∷ title_from false s else to_lower c ∷ title_from true s
title_from false (c ∷ s) =
    if is_word c then to_upper c ∷ title_from true s else c ∷ title_from false s

unfoldable pub to_title_case : Text → Text
unfolding title_from
to_title_case s = title_from false s

is_zero-index_of : (this str : Text) → starts_with this str ≡ begins str this
unfolding starts_with
is_zero-index_of [] str = ground arith
is_zero-index_of (c ∷ s) str = ground arith

begins-append : (str rest : Text) → begins str (str ++ rest) ≡ true
begins-append [] rest = refl
begins-append (c ∷ str) rest = rw (==_refl c) (begins-append str rest)

begins_rest : (str this : Text) → begins str this ≡ true → (rest : Text) × (this ≡ str ++ rest)
begins_rest [] this h = (this, refl)
begins_rest (c ∷ str) [] h = absurd (false≢true h)
begins_rest (c ∷ str) (d ∷ this) h =
    let (rest, e) = begins_rest str this (ground arith) in (rest, ground (arith, ==_iff c d))

-- `startsWith` holds exactly of the texts that are the prefix and a rest.
pub starts_with_iff :
    (this str : Text) → (starts_with this str ≡ true) ↔ ((rest : Text) × (this ≡ str ++ rest))
starts_with_iff this str = (
  (λ h. begins_rest str this (rw (← is_zero-index_of this str) h)),
  (λ (rest, e). rw (is_zero-index_of this str, e) (begins-append str rest)),
)

contains-nil : (str : Text) → contains [] str ≡ begins str []
unfolding contains
contains-nil str = ground arith

contains-cons :
    (c : ℕ) (s str : Text) → contains (c ∷ s) str ≡ (begins str (c ∷ s) || contains s str)
unfolding contains
contains-cons c s str = ground arith

contains-split :
    (this str : Text)
    → contains this str ≡ true
    → (front : Text) × (rest : Text) × (this ≡ front ++ (str ++ rest))
contains-split [] str h = let (rest, e) = begins_rest str [] (rw contains-nil at h) in ([], rest, e)
contains-split (c ∷ s) str h = elim (Bool-cases (begins str (c ∷ s))) [
  | inl b ↦ let (rest, e) = begins_rest str (c ∷ s) b in ([], rest, e)
  | inr b ↦
      let (front, rest, e) = contains-split s str (ground (arith, contains-cons c s str)) in
      (c ∷ front, rest, ap (c ∷◌) e)
]

contains-append : (front str rest : Text) → contains (front ++ (str ++ rest)) str ≡ true
contains-append [] str rest = begins_contains (str ++ rest) (begins-append str rest)
  where
    begins_contains : (t : Text) → begins str t ≡ true → contains t str ≡ true
    begins_contains [] h = rw (contains-nil str) h
    begins_contains (c ∷ t) h = rw (contains-cons c t str, h)
contains-append (c ∷ front) str rest =
    ground (arith, contains-cons c (front ++ (str ++ rest)) str, contains-append front str rest)

-- `contains` holds exactly of the texts in which the other stands between a front and a rest.
pub contains_iff :
    (this str : Text)
    → (contains this str ≡ true)
      ↔ ((front : Text) × (rest : Text) × (this ≡ front ++ (str ++ rest)))
contains_iff this str =
    (contains-split this str, (λ (front, rest, e). rw e (contains-append front str rest)))

is_space-to_lower : (c : ℕ) → is_space (to_lower c) ≡ is_space c
unfolding is_space
is_space-to_lower c = elim (Bool-cases (is_upper c)) [ inl e ↦ rw e (ground arith) | inr e ↦ rw e ]

to_lower_idem : (c : ℕ) → to_lower (to_lower c) ≡ to_lower c
to_lower_idem c = ground arith

to_upper_idem : (c : ℕ) → to_upper (to_upper c) ≡ to_upper c
to_upper_idem c = ground arith

is_word-to_upper : (c : ℕ) → is_word (to_upper c) ≡ is_word c
is_word-to_upper c = ground arith

title_from_idem : (b : Bool) (s : Text) → title_from b (title_from b s) ≡ title_from b s
unfolding title_from
title_from_idem b [] = refl
title_from_idem true (c ∷ s) = elim (Bool-cases (is_space c)) [
  | inl e ↦ rw (e, title_from, e) (ap (c ∷◌) (title_from_idem false s))
  | inr e ↦
      rw (e, title_from, is_space-to_lower c, e, to_lower_idem c)
        (ap (to_lower c ∷◌) (title_from_idem true s))
]
title_from_idem false (c ∷ s) = elim (Bool-cases (is_word c)) [
  | inl e ↦
      rw (e, title_from, is_word-to_upper c, e, to_upper_idem c)
        (ap (to_upper c ∷◌) (title_from_idem true s))
  | inr e ↦ rw (e, title_from, e) (ap (c ∷◌) (title_from_idem false s))
]

-- `toTitleCase` changes no text that is in title case.
pub to_title_case_idem : (s : Text) → to_title_case (to_title_case s) ≡ to_title_case s
unfolding to_title_case
to_title_case_idem s = title_from_idem false s
