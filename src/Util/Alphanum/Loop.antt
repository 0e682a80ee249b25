-- ===== src/Util/Alphanum/Loop.antt =====
-- The `while` loop of `chunkify` in evaluation/src/site/resources/analysis/scripts/util.js as it is
-- written, with its index into the text and its array: that it ends, and that it leaves the chunks
-- that `chunkify` of Util/Alphanum.antt gives.
use shabdiz.Prelude.{
  ℕ, zero, suc, ◌≡◌, refl, sym, ap, ◌∙◌, ◌+◌, ◌-◌, ◌<◌, ◌==◌, Bool, true, false, not, ◌&&◌, ◌||◌,
  inl, inr, Bool-cases, List, [], ◌∷◌, ◌++◌, Option, none, some, get_elem?, length, length-append,
  append_assoc, append-nil, if◌then◌else◌, arith,
}
use shabdiz.Text.{Text}
use shabdiz.Util.Alphanum.{is_numeric, chunks_from, chunkify}

-- The variables of the loop: `x`, `tz`, the number of chunks y + 1, and `n`, which is the number 0,
-- here `none`, until the first chunk is opened.
pub record Chunking : Type 0 where
  pub x : ℕ
  pub tz : List Text
  pub chunks : ℕ
  pub n : Option Bool

abbrev pub at_start : Chunking
at_start = record { x = 0; tz = []; chunks = 0; n = none }

-- `array[i] = v`, at an index of the array or at its end.
abbrev pub write : ℕ → Text → List Text → List Text
write i v [] = v ∷ []
write zero v (w ∷ ws) = v ∷ ws
write (suc i) v (w ∷ ws) = w ∷ write i v ws

abbrev element : ℕ → List Text → Text
element i tz = elim (get_elem? tz i) [ none ↦ [] | some w ↦ w ]

-- `m !== n`.
abbrev differs : Bool → Option Bool → Bool
differs m none = true
differs m (some n) = (m && not n) || (not m && n)

-- `tz[++y] = ""; n = m`.
abbrev open_chunk : Bool → Chunking → Chunking
open_chunk m s = record s { tz = write s.chunks [] s.tz; chunks = s.chunks + 1; n = some m }

-- `tz[y] += j`.
abbrev add_char : ℕ → Chunking → Chunking
add_char j s = record s { tz = write (s.chunks - 1) (element (s.chunks - 1) s.tz ++ j ∷ []) s.tz }

-- The body of the loop, behind `x++`.
abbrev pub round : ℕ → Chunking → Chunking
round j s =
    let m = is_numeric j in
    let next = record s { x = s.x + 1 } in
    add_char j (if differs m s.n then open_chunk m next else next)

-- The loop: the first argument is fuel. It ends at the end of the text, where `charCodeAt` is `NaN`,
-- and at a NUL.
pub chunk_loop : ℕ → Text → Chunking → Option (List Text)
chunk_loop zero t s = none
chunk_loop (suc fuel) t s = elim (get_elem? t s.x) [
  | none ↦ some s.tz
  | some j ↦ let rest = chunk_loop fuel t (round j s) in if j == 0 then some s.tz else rest
]

write-end : (xs : List Text) (v : Text) → write (length xs) v xs ≡ xs ++ v ∷ []
write-end [] v = refl
write-end (x ∷ xs) v = rw (write-end xs v) refl

write-last : (xs : List Text) (v w : Text) → write (length xs) v (xs ++ w ∷ []) ≡ xs ++ v ∷ []
write-last [] v w = refl
write-last (x ∷ xs) v w = rw (write-last xs v w) refl

module _ {A : Type 0} where
  get_elem?-next :
      (xs : List A) (v : A) (ys : List A) → get_elem? (xs ++ v ∷ ys) (length xs) ≡ some v
  get_elem?-next [] v ys = refl
  get_elem?-next (x ∷ xs) v ys = get_elem?-next xs v ys

  get_elem?-end : (xs : List A) → get_elem? xs (length xs) ≡ none
  get_elem?-end [] = refl
  get_elem?-end (x ∷ xs) = get_elem?-end xs

add_char-last :
    (j : ℕ) (s : Chunking) (done : List Text) (cur : Text)
    → s.tz ≡ done ++ cur ∷ []
    → s.chunks ≡ suc (length done)
    → (add_char j s).tz ≡ done ++ (cur ++ j ∷ []) ∷ []
add_char-last j s done cur filled counted =
    let last : s.chunks - 1 ≡ length done = omega (arith, counted) in
    rw (last, filled, element, get_elem?-next done cur []) (write-last done (cur ++ j ∷ []) cur)

open_chunk-end :
    (m : Bool) (s : Chunking) (done : List Text)
    → s.tz ≡ done
    → s.chunks ≡ length done
    → (open_chunk m s).tz ≡ done ++ [] ∷ []
open_chunk-end m s done filled counted = rw (filled, counted) (write-end done [])

-- The loop is behind a text, inside a chunk of a kind, with the chunks before it done.
record IsInside (done : List Text) (cur : Text) (k : Bool) (before : Text) (s : Chunking)
    : Type 0 where
  place : s.x ≡ length before
  filled : s.tz ≡ done ++ cur ∷ []
  counted : s.chunks ≡ suc (length done)
  kind : s.n ≡ some k

module _ (done : List Text) (cur : Text) (k : Bool) (before : Text) (j : ℕ) (s : Chunking)
    (i : IsInside done cur k before s) where
  place-next : s.x + 1 ≡ length (before ++ j ∷ [])
  place-next = omega (arith, i.place, length-append before (j ∷ []))

  counted-next : s.chunks ≡ length (done ++ cur ∷ [])
  counted-next = omega (arith, i.counted, length-append done (cur ∷ []))

  round-same :
      differs (is_numeric j) (some k) ≡ false
      → IsInside done (cur ++ j ∷ []) k (before ++ j ∷ []) (round j s)
  round-same e = record {
    place = rw (i.kind, e) place-next;
    filled = rw (i.kind, e) (add_char-last j s done cur i.filled i.counted);
    counted = rw (i.kind, e) i.counted;
    kind = rw (i.kind, e) refl;
  }

  round-new :
      differs (is_numeric j) (some k) ≡ true
      → IsInside (done ++ cur ∷ []) (j ∷ []) (is_numeric j) (before ++ j ∷ []) (round j s)
  round-new e = record {
    place = rw (i.kind, e) place-next;
    filled =
        rw (i.kind, e)
          (add_char-last j (open_chunk (is_numeric j) s) (done ++ cur ∷ []) []
            (open_chunk-end (is_numeric j) s (done ++ cur ∷ []) i.filled counted-next)
            (omega (arith, counted-next)));
    counted = rw (i.kind, e) (omega (arith, counted-next));
    kind = rw (i.kind, e) refl;
  }

module _ (fuel : ℕ) (t : Text) (s : Chunking) where
  loop-end : get_elem? t s.x ≡ none → chunk_loop (suc fuel) t s ≡ some s.tz
  unfolding chunk_loop
  loop-end e = rw (chunk_loop, e) refl

  loop-nul :
      (j : ℕ) → get_elem? t s.x ≡ some j → (j == 0) ≡ true → chunk_loop (suc fuel) t s ≡ some s.tz
  unfolding chunk_loop
  loop-nul j e z = rw (chunk_loop, e, z) refl

  loop-round :
      (j : ℕ)
      → get_elem? t s.x ≡ some j
      → (j == 0) ≡ false
      → chunk_loop (suc fuel) t s ≡ chunk_loop fuel t (round j s)
  unfolding chunk_loop
  loop-round j e z = rw (chunk_loop, e, z) refl

-- The test of the two loops for a character of the other kind.
other_kind : (m n : Bool) → differs m (some n) ≡ true → ((m && n) || (not m && not n)) ≡ false
other_kind m n e = ground arith

same_kind : (m n : Bool) → differs m (some n) ≡ false → ((m && n) || (not m && not n)) ≡ true
same_kind m n e = ground arith

-- Inside a chunk, fuel beyond the rest of the text is enough for the rest of the chunks.
loop-chunks_from :
    (rest : Text) (fuel : ℕ) (done : List Text) (cur : Text) (k : Bool) (before : Text)
    (s : Chunking)
    → IsInside done cur k before s
    → length rest < fuel
    → chunk_loop fuel (before ++ rest) s ≡ some (done ++ chunks_from k cur rest)
unfolding chunks_from
loop-chunks_from rest zero done cur k before s i h = absurd (omega (arith, h))
loop-chunks_from [] (suc fuel) done cur k before s i h =
    let over : get_elem? (before ++ []) s.x ≡ none =
      rw (append-nil before, i.place) (get_elem?-end before) in
    loop-end fuel (before ++ []) s over ∙ ap some i.filled
loop-chunks_from (j ∷ rest) (suc fuel) done cur k before s i h =
    let t = before ++ j ∷ rest in
    let here : get_elem? t s.x ≡ some j = rw (i.place) (get_elem?-next before j rest) in
    let further : before ++ j ∷ rest ≡ (before ++ j ∷ []) ++ rest =
      sym (append_assoc before (j ∷ []) rest) in
    let enough : length rest < fuel = omega (arith, h) in
    elim (Bool-cases (j == 0)) [
      | inl z ↦ loop-nul fuel t s j here z ∙ rw (i.filled, z) refl
      | inr z ↦
          loop-round fuel t s j here z
          ∙ ap (λ u. chunk_loop fuel u (round j s)) further
          ∙ (elim (Bool-cases (differs (is_numeric j) (some k))) [
            | inl other ↦
                loop-chunks_from rest fuel (done ++ cur ∷ []) (j ∷ []) (is_numeric j)
                  (before ++ j ∷ []) (round j s) (round-new done cur k before j s i other) enough
                ∙ rw (z, other_kind (is_numeric j) k other, append_assoc done (cur ∷ [])) refl
            | inr same ↦
                loop-chunks_from rest fuel done (cur ++ j ∷ []) k (before ++ j ∷ []) (round j s)
                  (round-same done cur k before j s i same) enough
                ∙ rw (z, same_kind (is_numeric j) k same) refl
          ])
    ]

first-IsInside : (j : ℕ) → IsInside [] (j ∷ []) (is_numeric j) (j ∷ []) (round j at_start)
first-IsInside j = record { place = refl; filled = refl; counted = refl; kind = refl }

-- With fuel for more rounds than the text has characters, and so with fuel for one more, the loop
-- ends, and it leaves the chunks of the text.
pub chunk_loop-chunkify :
    (fuel : ℕ) (t : Text) → length t < fuel → chunk_loop fuel t at_start ≡ some (chunkify t)
unfolding chunkify
chunk_loop-chunkify zero t h = absurd (omega (arith, h))
chunk_loop-chunkify (suc fuel) [] h = loop-end fuel [] at_start refl
chunk_loop-chunkify (suc fuel) (j ∷ t) h = elim (Bool-cases (j == 0)) [
  | inl z ↦ loop-nul fuel (j ∷ t) at_start j refl z ∙ rw z refl
  | inr z ↦
      loop-round fuel (j ∷ t) at_start j refl z
      ∙ loop-chunks_from t fuel [] (j ∷ []) (is_numeric j) (j ∷ []) (round j at_start)
          (first-IsInside j) (omega (arith, h))
      ∙ rw z refl
]
