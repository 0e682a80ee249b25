-- ===== src/Text/Split.antt =====
-- What `split` makes of a text that is put together with its separator.
use shabdiz.Prelude.{
  ℕ, ◌≡◌, [], ◌∷◌, ◌++◌, arith, ◌==◌, ==_ne, All, All-append, append_assoc, append-nil, Bool-cases,
  inl, inr,
}
use shabdiz.Text.{Text, Lacks, cut, split}

module _ (sep : ℕ) where
  cut-append : (p rest cur : Text) → Lacks sep p → cut sep cur (p ++ rest) ≡ cut sep (cur ++ p) rest
  unfolding cut
  cut-append [] rest cur h = rw append-nil
  cut-append (c ∷ p) rest cur h =
      ground (arith, cut-append p rest (cur ++ c ∷ []), append_assoc cur (c ∷ []) p)

  cut_at_sep : (rest cur : Text) → cut sep cur (sep ∷ rest) ≡ cur ∷ cut sep [] rest
  unfolding cut
  cut_at_sep rest cur = ground arith

  -- The first part ends at the first separator.
  pub split_first : (p rest : Text) → Lacks sep p → split sep (p ++ sep ∷ rest) ≡ p ∷ split sep rest
  unfolding split
  split_first p rest h = rw (cut-append p (sep ∷ rest) [] h) (cut_at_sep rest p)

  -- A text without the separator is one part.
  pub split_one : (p : Text) → Lacks sep p → split sep p ≡ p ∷ []
  unfolding split
  split_one p h = rw append-nil at (cut-append p [] [] h)

  cut-Lacks : (s cur : Text) → Lacks sep cur → All (Lacks sep) (cut sep cur s)
  unfolding cut
  cut-Lacks [] cur h = (h, tt)
  cut-Lacks (c ∷ s) cur h = elim (Bool-cases (c == sep)) [
    | inl e ↦ rw (e, cut) (h, cut-Lacks s [] tt)
    | inr e ↦
        rw (e, cut) (cut-Lacks s (cur ++ c ∷ []) (All-append _ cur (c ∷ []) h (==_ne c sep e, tt)))
  ]

  -- No part holds the separator.
  pub split-Lacks : (s : Text) → All (Lacks sep) (split sep s)
  unfolding split
  split-Lacks s = cut-Lacks s [] tt
