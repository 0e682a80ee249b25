-- ===== src/Util/Alphanum/Runs.antt =====
-- The chunks that `chunkify` of evaluation/src/site/resources/analysis/scripts/util.js makes of a
-- label with one number.
use shabdiz.Prelude.{
  ℕ, ◌≡◌, ◌≢◌, refl, sym, ◌∙◌, ap, Bool, true, false, not, ◌==◌, List, [], ◌∷◌, ◌++◌, append_assoc,
  append-nil, All, arith,
}
use shabdiz.Text.{Text}
use shabdiz.Text.Number.Laws.{IsDigit}
use shabdiz.Util.Alphanum.{is_numeric, chunks_from, chunkify}

-- A character of one of the two kinds, other than NUL.
abbrev IsKind : Bool → ℕ → Type 0
IsKind n c = (is_numeric c ≡ n) × ((c == 0) ≡ false)

-- A character of no number.
abbrev pub IsLetter : ℕ → Type 0
IsLetter = IsKind false

digits-IsKind : (s : Text) → All IsDigit s → All (IsKind true) s
digits-IsKind [] h = tt
digits-IsKind (c ∷ s) (hc, hs) = ((ground arith, ground arith), digits-IsKind s hs)

-- Characters of its kind are added to the chunk.
chunks_from-run :
    (n : Bool) (cur s t : Text)
    → All (IsKind n) s
    → chunks_from n cur (s ++ t) ≡ chunks_from n (cur ++ s) t
unfolding chunks_from
chunks_from-run n cur [] t h = rw append-nil refl
chunks_from-run n cur (c ∷ s) t ((k, z), hs) =
    ground (arith, chunks_from-run n (cur ++ c ∷ []) s t hs, append_assoc cur (c ∷ []) s)

-- One of the other kind opens the next chunk.
chunks_from-turn :
    (n : Bool) (cur : Text) (c : ℕ) (t : Text)
    → IsKind (not n) c
    → chunks_from n cur (c ∷ t) ≡ cur ∷ chunks_from (not n) (c ∷ []) t
unfolding chunks_from
chunks_from-turn n cur c t (k, z) = ground arith

-- The chunks of a text of one kind.
abbrev pub chunk_of : Text → List Text
chunk_of [] = []
chunk_of (c ∷ s) = (c ∷ s) ∷ []

letters-last : (cur q : Text) → All IsLetter q → chunks_from false cur q ≡ (cur ++ q) ∷ []
letters-last cur q hq =
    ap (chunks_from false cur) (sym (append-nil q))
    ∙ chunks_from-run false cur q [] hq
    ∙ (unfold chunks_from in refl)

chunks_from-last : (cur q : Text) → All IsLetter q → chunks_from true cur q ≡ cur ∷ chunk_of q
chunks_from-last cur [] h = unfold chunks_from in refl
chunks_from-last cur (c ∷ q) (hc, hq) =
    chunks_from-turn true cur c q hc ∙ ap (cur ∷◌) (letters-last (c ∷ []) q hq)

chunkify-digits :
    (d q : Text) → All IsDigit d → d ≢ [] → All IsLetter q → chunkify (d ++ q) ≡ d ∷ chunk_of q
unfolding chunkify
chunkify-digits [] q hd ne hq = absurd (ne refl)
chunkify-digits (c ∷ d) q (hc, hd) ne hq =
    let (k, z) = (digits-IsKind (c ∷ d) (hc, hd)).0 in
    rw (z, k)
      (chunks_from-run true (c ∷ []) d q (digits-IsKind d hd) ∙ chunks_from-last (c ∷ d) q hq)

-- Digits behind a chunk of letters.
chunks_from-digits :
    (cur d q : Text)
    → All IsDigit d
    → d ≢ []
    → All IsLetter q
    → chunks_from false cur (d ++ q) ≡ cur ∷ d ∷ chunk_of q
chunks_from-digits cur [] q hd ne hq = absurd (ne refl)
chunks_from-digits cur (c ∷ d) q (hc, hd) ne hq =
    chunks_from-turn false cur c (d ++ q) (digits-IsKind (c ∷ d) (hc, hd)).0
    ∙ ap (cur ∷◌)
        (chunks_from-run true (c ∷ []) d q (digits-IsKind d hd) ∙ chunks_from-last (c ∷ d) q hq)

pub chunkify-number :
    (p d q : Text)
    → All IsLetter p
    → All IsDigit d
    → d ≢ []
    → All IsLetter q
    → chunkify (p ++ (d ++ q)) ≡ chunk_of p ++ (d ∷ chunk_of q)
unfolding chunkify
chunkify-number [] d q hp hd ne hq = chunkify-digits d q hd ne hq
chunkify-number (x ∷ p) d q ((k, z), hp) hd ne hq =
    rw (z, k)
      (chunks_from-run false (x ∷ []) p (d ++ q) hp ∙ chunks_from-digits (x ∷ p) d q hd ne hq)
