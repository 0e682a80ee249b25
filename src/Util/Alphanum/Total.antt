-- ===== src/Util/Alphanum/Total.antt =====
-- `alphanum` of evaluation/src/site/resources/analysis/scripts/util.js puts labels of words and
-- whole numbers in a total order: a comparator that the array's sort can work with.
use shabdiz.Prelude.{
  ◌≡◌, ◌≢◌, inl, inr, refl, sym, ◌∙◌, ap, ap₂, Bool, true, false, Option, List, [], ◌∷◌, All, all,
  ◌&&◌, Bool-cases, not, arith,
}
use shabdiz.Util.Groups.{property_key}
use shabdiz.Text.{Text, codes, eq_text, eq_text_refl, eq_text→eq}
use shabdiz.Value.Sort.{IsConsistent}
use shabdiz.Util.Alphanum.{
  Sign, minus, zero_sign, plus, opposite, compare_chunks, compare_from, chunkify, alphanum,
  rank_left, compare_by,
}
use shabdiz.Util.Alphanum.Chunks.{joined, joined-chunkify, until_nul}
use shabdiz.Util.Alphanum.Plain.{IsPlain, is_plain, is_plain_sound, not_and_parts}
use shabdiz.Util.Alphanum.Plain.Chain.{carry, chunks-chain, chunks-zero}
use shabdiz.Util.Alphanum.Order.{
  compare_chunks-opposite, alphanum-opposite, alphanum_self, rank_right-rank_left,
}

cons-same :
    (a b : Text) (xs ys : List Text)
    → eq_text a b ≡ true
    → compare_from (a ∷ xs) (b ∷ ys) ≡ compare_from xs ys
unfolding compare_from
cons-same a b xs ys e = rw (e, compare_from) refl

cons-other :
    (a b : Text) (xs ys : List Text)
    → eq_text a b ≡ false
    → compare_from (a ∷ xs) (b ∷ ys) ≡ compare_chunks a b
unfolding compare_from
cons-other a b xs ys e = rw (e, compare_from) refl

settled : (s : Sign) → s ≢ plus → s ≢ zero_sign → opposite s ≢ plus → ⊥
settled minus p z o = o refl
settled zero_sign p z o = z refl
settled plus p z o = p refl

-- Of two plain chunks that differ, one is greater.
no_round :
    (a b : Text)
    → IsPlain a
    → IsPlain b
    → eq_text a b ≡ false
    → compare_chunks a b ≢ plus
    → compare_chunks b a ≢ plus
    → ⊥
no_round a b p q e h k =
    settled (compare_chunks a b) h
      (λ z. absurd (ground (arith, e, chunks-zero a b p q z, eq_text_refl a)))
      (λ o. k (compare_chunks-opposite a b e ∙ o))

module _ (a b c : Text) (xs ys zs : List Text)
    (rest : compare_from xs ys ≢ plus → compare_from ys zs ≢ plus → compare_from xs zs ≢ plus) where
  by_chunks :
      (x y z : Bool)
      → eq_text a b ≡ x
      → eq_text b c ≡ y
      → eq_text a c ≡ z
      → IsPlain a
      → IsPlain b
      → IsPlain c
      → compare_from (a ∷ xs) (b ∷ ys) ≢ plus
      → compare_from (b ∷ ys) (c ∷ zs) ≢ plus
      → compare_from (a ∷ xs) (c ∷ zs) ≢ plus
  by_chunks true true true e f g p q r =
      carry (cons-same a b xs ys e) (cons-same b c ys zs f) (cons-same a c xs zs g) rest
  by_chunks true true false e f g p q r =
      absurd (ground (arith, eq_text→eq a b e, eq_text→eq b c f, eq_text_refl a))
  by_chunks true false z e f g p q r =
      let a≡b = eq_text→eq a b e in
      carry (cons-same a b xs ys e) (cons-other b c ys zs f) (rw a≡b (cons-other b c xs zs f))
        (λ h k. k)
  by_chunks false true z e f g p q r =
      let b≡c = eq_text→eq b c f in
      carry (cons-other a b xs ys e) (cons-same b c ys zs f) (rw (← b≡c) (cons-other a b xs zs e))
        (λ h k. h)
  by_chunks false false true e f g p q r =
      carry (cons-other a b xs ys e) (cons-other b c ys zs f) refl
        (λ h k. absurd (no_round a b p q e h (rw (eq_text→eq a c g) k)))
  by_chunks false false false e f g p q r =
      carry (cons-other a b xs ys e) (cons-other b c ys zs f) (cons-other a c xs zs g)
        (chunks-chain a b c p q r)

compare_from-chain :
    (xs ys zs : List Text)
    → All IsPlain xs
    → All IsPlain ys
    → All IsPlain zs
    → compare_from xs ys ≢ plus
    → compare_from ys zs ≢ plus
    → compare_from xs zs ≢ plus
compare_from-chain [] ys [] ha hb hc h k = unfold compare_from in λ e. cc
compare_from-chain [] ys (c ∷ zs) ha hb hc h k = unfold compare_from in λ e. cc
compare_from-chain (a ∷ xs) [] zs ha hb hc h k = absurd (h (unfold compare_from in refl))
compare_from-chain (a ∷ xs) (b ∷ ys) [] ha hb hc h k = absurd (k (unfold compare_from in refl))
compare_from-chain (a ∷ xs) (b ∷ ys) (c ∷ zs) (pa, ha) (pb, hb) (pc, hc) h k =
    by_chunks a b c xs ys zs (compare_from-chain xs ys zs ha hb hc) _ _ _ refl refl refl pa pb pc h
      k

-- A text whose numeric chunks are whole numbers below 2 ^ 53 without leading zeros, and whose other
-- chunks `Number` reads as no number.
abbrev pub is_label : Text → Bool
is_label t = all is_plain (chunkify t)

abbrev pub IsLabel : Text → Type 0
IsLabel t = is_label t ≡ true

pub chunks-IsPlain : (cs : List Text) → all is_plain cs ≡ true → All IsPlain cs
chunks-IsPlain [] e = tt
chunks-IsPlain (c ∷ cs) e = (is_plain_sound c (ground arith), chunks-IsPlain cs (ground arith))

-- On labels, texts whose numeric chunks are whole numbers below 2 ^ 53 without leading zeros and
-- whose other chunks `Number` reads as no number, "not greater" is transitive.
pub alphanum_trans :
    (a b c : Text)
    → is_label a ≡ true
    → is_label b ≡ true
    → is_label c ≡ true
    → alphanum a b ≢ plus
    → alphanum b c ≢ plus
    → alphanum a c ≢ plus
unfolding alphanum
alphanum_trans a b c p q r =
    compare_from-chain (chunkify a) (chunkify b) (chunkify c) (chunks-IsPlain _ p)
      (chunks-IsPlain _ q) (chunks-IsPlain _ r)

compare_from-zero :
    (xs ys : List Text) → All IsPlain xs → All IsPlain ys → compare_from xs ys ≡ zero_sign → xs ≡ ys
compare_from-zero [] [] p q e = refl
compare_from-zero [] (y ∷ ys) p q e = unfold compare_from in cc
compare_from-zero (x ∷ xs) [] p q e = unfold compare_from in cc
compare_from-zero (x ∷ xs) (y ∷ ys) (p, ps) (q, qs) e = elim (Bool-cases (eq_text x y)) [
  | inl same ↦
      ap₂ ◌∷◌ (eq_text→eq x y same)
        (compare_from-zero xs ys ps qs (sym (cons-same x y xs ys same) ∙ e))
  | inr other ↦
      absurd (differ x y other (chunks-zero x y p q (sym (cons-other x y xs ys other) ∙ e)))
]
  where
    differ : (a b : Text) → eq_text a b ≡ false → a ≢ b
    differ a b e h = ground (arith, eq_text_refl a)

-- Labels, texts whose numeric chunks are whole numbers below 2 ^ 53 without leading zeros and whose
-- other chunks `Number` reads as no number, that compare as equal are the same text up to the first
-- NUL.
pub alphanum_equal :
    (a b : Text)
    → is_label a ≡ true
    → is_label b ≡ true
    → alphanum a b ≡ zero_sign
    → until_nul a ≡ until_nul b
unfolding alphanum
alphanum_equal a b p q e =
    let same =
      compare_from-zero (chunkify a) (chunkify b) (chunks-IsPlain _ p) (chunks-IsPlain _ q) e in
    sym (joined-chunkify a) ∙ ap joined same ∙ joined-chunkify b

module _ {A : Type 0} (property : A → Option Text) where
  -- An element that `sortBy` ranks as a label: not `Light`, which it ranks on one side only.
  abbrev pub is_ranked : A → Bool
  is_ranked x =
      let t = property_key (property x) in not (eq_text t (codes "Light")) && is_label (rank_left t)

  abbrev pub IsRanked : A → Type 0
  IsRanked x = is_ranked x ≡ true

  abbrev compared_text : A → Text
  compared_text x = rank_left (property_key (property x))

  IsRanked-not_light :
      (x : A) → IsRanked x → eq_text (property_key (property x)) (codes "Light") ≡ false
  IsRanked-not_light x p = (not_and_parts _ _ p).0

  IsRanked-IsLabel : (x : A) → IsRanked x → IsLabel (compared_text x)
  IsRanked-IsLabel x p = (not_and_parts _ _ p).1

  compare_by-alphanum :
      (x y : A)
      → IsRanked y
      → compare_by property x y ≡ alphanum (compared_text x) (compared_text y)
  unfolding compare_by
  compare_by-alphanum x y p = rw (rank_right-rank_left _ (IsRanked-not_light y p)) refl

  -- The comparator of `sortBy` is consistent on elements whose property is such a label once it is
  -- ranked, and is not `Light`.
  pub compare_by-IsConsistent : IsConsistent (compare_by property) IsRanked
  compare_by-IsConsistent =
      let label = IsRanked-IsLabel in
      record {
        same = λ x p. compare_by-alphanum x x p ∙ alphanum_self (compared_text x);
        swap = λ x y p q.
            compare_by-alphanum y x p
            ∙ alphanum-opposite (compared_text x) (compared_text y)
            ∙ ap opposite (sym (compare_by-alphanum x y q));
        chain = λ x y z p q r.
            carry (compare_by-alphanum x y q) (compare_by-alphanum y z r)
              (compare_by-alphanum x z r)
              (alphanum_trans _ _ _ (label x p) (label y q) (label z r));
      }
