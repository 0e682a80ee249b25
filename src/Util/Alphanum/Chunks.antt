-- ===== src/Util/Alphanum/Chunks.antt =====
-- `chunkify` cuts a text into its runs of numeric and other characters.
use shabdiz.Prelude.{
  ℕ, ◌≡◌, ◌≢◌, ◌↔◌, refl, sym, ap, ap₂, ◌∙◌, subst, Bool, true, false, not, ◌&&◌, ◌||◌, List, [],
  ◌∷◌, ◌++◌, arith, ◌==◌, if◌then◌else◌, All, All-append, append_assoc, Bool-cases, inl, inr,
}
use shabdiz.Text.{Text}
use shabdiz.Util.Alphanum.{is_numeric, chunks_from, chunkify}

-- The chunks put together again.
abbrev pub joined : List Text → Text
joined [] = []
joined (c ∷ cs) = c ++ joined cs

-- What stands in front of the first NUL.
abbrev pub until_nul : Text → Text
until_nul [] = []
until_nul (c ∷ s) = if c == 0 then [] else c ∷ until_nul s

joined-chunks_from : (n : Bool) (cur t : Text) → joined (chunks_from n cur t) ≡ cur ++ until_nul t
unfolding chunks_from
joined-chunks_from n cur [] = refl
joined-chunks_from n cur (j ∷ t) = ground (
  arith,
  joined-chunks_from n (cur ++ j ∷ []) t,
  joined-chunks_from (is_numeric j) (j ∷ []) t,
  append_assoc cur (j ∷ []) (until_nul t),
)

-- Nothing is lost: the chunks spell the text up to its first NUL.
pub joined-chunkify : (t : Text) → joined (chunkify t) ≡ until_nul t
unfolding chunkify
joined-chunkify [] = refl
joined-chunkify (j ∷ t) = ground (arith, joined-chunks_from (is_numeric j) (j ∷ []) t)

-- Every character of a chunk is of the kind of its first.
abbrev pub IsRun : Bool → Text → Type 0
IsRun n = All (λ c. is_numeric c ≡ n)

-- A list of runs, each not empty, whose kinds alternate, the first of kind `n`.
abbrev pub Alternate : Bool → List Text → Type 0
Alternate n [] = Unit
Alternate n (c ∷ cs) = (c ≢ []) × IsRun n c × Alternate (not n) cs

concat-ne-nil : (cur : Text) (j : ℕ) → cur ++ j ∷ [] ≢ []
concat-ne-nil [] j e = cc
concat-ne-nil (c ∷ cur) j e = cc

chunks_from-Alternate :
    (n : Bool) (cur t : Text) → cur ≢ [] → IsRun n cur → Alternate n (chunks_from n cur t)
unfolding chunks_from
chunks_from-Alternate n cur [] ne run = (ne, run, tt)
chunks_from-Alternate n cur (j ∷ t) ne run = elim (Bool-cases (j == 0)) [
  | inl e ↦ rw (e, chunks_from) (ne, run, tt)
  | inr e ↦
      rw (e, chunks_from)
        (by_kind n (is_numeric j) refl run (chunks_from-Alternate n (cur ++ j ∷ []) t)
          (chunks_from-Alternate (is_numeric j) (j ∷ []) t (concat-ne-nil [] j)))
]
  where
    by_kind :
        (k m : Bool)
        → is_numeric j ≡ m
        → IsRun k cur
        → (cur ++ j ∷ [] ≢ []
            → IsRun k (cur ++ j ∷ [])
            → Alternate k (chunks_from k (cur ++ j ∷ []) t))
        → (IsRun m (j ∷ []) → Alternate m (chunks_from m (j ∷ []) t))
        → Alternate k (
            if (m && k) || (not m && not k)
            then chunks_from k (cur ++ j ∷ []) t
            else cur ∷ chunks_from m (j ∷ []) t)
    by_kind true true e run same new =
        same (concat-ne-nil cur j) (All-append _ cur (j ∷ []) run (e, tt))
    by_kind true false e run same new = (ne, run, new (e, tt))
    by_kind false true e run same new = (ne, run, new (e, tt))
    by_kind false false e run same new =
        same (concat-ne-nil cur j) (All-append _ cur (j ∷ []) run (e, tt))

-- The chunks are not empty, each is all numeric or all not, and neighbours are of different kinds.
pub chunkify-Alternate : (t : Text) → (n : Bool) × Alternate n (chunkify t)
unfolding chunkify
chunkify-Alternate [] = (true, tt)
chunkify-Alternate (j ∷ t) = elim (Bool-cases (j == 0)) [
  | inl e ↦ rw (e, chunkify) (true, tt)
  | inr e ↦
      rw (e, chunkify)
        (
          is_numeric j,
          chunks_from-Alternate (is_numeric j) (j ∷ []) t (concat-ne-nil [] j) (refl, tt),
        )
]

-- A text that ends, or goes on with a character of kind `n`.
abbrev OpensWith : Bool → Text → Type 0
OpensWith n [] = Unit
OpensWith n (c ∷ s) = is_numeric c ≡ n

joined-OpensWith : (n : Bool) (cs : List Text) → Alternate n cs → OpensWith n (joined cs)
joined-OpensWith n [] h = tt
joined-OpensWith n ([] ∷ cs) (ne, run, rest) = absurd (ne refl)
joined-OpensWith n ((c ∷ s) ∷ cs) (ne, (k, run), rest) = k

-- A run ends where characters of the other kind begin.
run_unique :
    (n : Bool) (c d x y : Text)
    → IsRun n c
    → IsRun n d
    → OpensWith (not n) x
    → OpensWith (not n) y
    → c ++ x ≡ d ++ y
    → (c ≡ d) × (x ≡ y)
run_unique n [] [] x y hc hd hx hy e = (refl, e)
run_unique n [] (j ∷ d) [] y hc hd hx hy e = cc
run_unique n [] (j ∷ d) (i ∷ x) y hc (hj, hd) hx hy e = absurd (ground arith)
run_unique n (j ∷ c) [] x [] hc hd hx hy e = cc
run_unique n (j ∷ c) [] x (i ∷ y) (hj, hc) hd hx hy e = absurd (ground arith)
run_unique n (i ∷ c) (j ∷ d) x y (hi, hc) (hj, hd) hx hy e =
    let tails : c ++ x ≡ d ++ y = cc in
    let heads : i ≡ j = cc in
    let (same, rest) = run_unique n c d x y hc hd hx hy tails in (ap₂ ◌∷◌ heads same, rest)

-- A text is divided into runs in one way.
Alternate-unique :
    (n m : Bool) (cs ds : List Text)
    → Alternate n cs
    → Alternate m ds
    → joined cs ≡ joined ds
    → cs ≡ ds
Alternate-unique n m [] [] h k e = refl
Alternate-unique n m [] ([] ∷ ds) h (ne, run, rest) e = absurd (ne refl)
Alternate-unique n m [] ((d ∷ s) ∷ ds) h k e = cc
Alternate-unique n m ([] ∷ cs) ds (ne, run, rest) k e = absurd (ne refl)
Alternate-unique n m ((c ∷ s) ∷ cs) [] h k e = cc
Alternate-unique n m ((c ∷ s) ∷ cs) ([] ∷ ds) h (ne, run, rest) e = absurd (ne refl)
Alternate-unique n m ((c ∷ s) ∷ cs) ((d ∷ t) ∷ ds) (ne, (hc, run), rest) (ne', (hd, run'), rest')
      e =
    let kinds : n ≡ m = ground arith in
    let (same, behind) =
      run_unique m (c ∷ s) (d ∷ t) (joined cs) (joined ds)
        (subst (λ b. IsRun b (c ∷ s)) kinds (hc, run)) (hd, run')
        (joined-OpensWith (not m) cs (subst (λ b. Alternate (not b) cs) kinds rest))
        (joined-OpensWith (not m) ds rest') e in
    ap₂ ◌∷◌ same (Alternate-unique (not n) (not m) cs ds rest rest' behind)

-- The chunks of a text are the one division of the text up to its first NUL into pieces, each not
-- empty and all numeric or all not, whose kinds alternate.
pub chunkify_iff :
    (t : Text) (cs : List Text)
    → (chunkify t ≡ cs) ↔ ((joined cs ≡ until_nul t) × ((n : Bool) × Alternate n cs))
chunkify_iff t cs =
    let (m, chunks) = chunkify-Alternate t in
    (
      λ e. (ap joined (sym e) ∙ joined-chunkify t, (m, subst (Alternate m) e chunks)),
      λ (spelled, (n, runs)).
          Alternate-unique m n (chunkify t) cs chunks runs (joined-chunkify t ∙ sym spelled),
    )
