-- ===== src/Util/Alphanum.antt =====
-- evaluation/src/site/resources/analysis/scripts/util.js: `alphanum`, the order of texts that hold
-- numbers, and `Array.prototype.sortBy`, which puts it to use.
pub mod Chunks
pub mod Order
pub mod Runs
pub mod Natural
pub mod Plain
pub mod Total
pub mod Tokens
pub mod Loop
use shabdiz.Prelude.{
  ℕ, ◌+◌, ◌-◌, ◌*◌, ◌^◌, Bool, true, false, not, ◌&&◌, ◌||◌, List, [], ◌∷◌, ◌++◌, Option, none,
  some, ltb, leb, ◌==◌, if◌then◌else◌,
}
use shabdiz.Text.{Text, codes, eq_text, trim}
use shabdiz.Util.Groups.{property_key}

-- The sign of a comparator's result; `NaN` counts as zero for `sort`.
pub data Sign : Type 0 where
  minus zero_sign plus : Sign

abbrev pub opposite : Sign → Sign
opposite minus = plus
opposite zero_sign = zero_sign
opposite plus = minus

-- `m`: a character of a number, a digit or a dot.
abbrev pub is_numeric : ℕ → Bool
is_numeric i = i == 46 || (leb 48 i && leb i 57)

-- The loop of `chunkify` inside a chunk `cur` of kind `n`. It ends with the text, or at a NUL.
pub chunks_from : Bool → Text → Text → List Text
chunks_from n cur [] = cur ∷ []
chunks_from n cur (j ∷ t) =
    let m = is_numeric j in
    let new_chunk = cur ∷ chunks_from m (j ∷ []) t in
    let same_chunk = chunks_from n (cur ++ j ∷ []) t in
    if j == 0 then cur ∷ [] else if (m && n) || (not m && not n) then same_chunk else new_chunk

-- At the start `n` is the number 0, which is neither kind: the first character opens a chunk.
unfoldable pub chunkify : Text → List Text
unfolding chunks_from
chunkify [] = []
chunkify (j ∷ t) = if j == 0 then [] else chunks_from (is_numeric j) (j ∷ []) t

-- `Number(chunk)`: `decimal m k` is m / 10 ^ k.
pub data ChunkNumber : Type 0 where
  decimal : ℕ → ℕ → ChunkNumber
  infinity : Bool → ChunkNumber
  not_a_number : ChunkNumber

-- The digits and at most one dot; `places` counts the digits behind the dot.
pub read_decimal : Text → ℕ → Bool → ℕ → Bool → ChunkNumber
read_decimal [] m dot places digit = if digit then decimal m places else not_a_number
read_decimal (c ∷ s) m dot places digit =
    let behind = read_decimal s m true 0 digit in
    let next = read_decimal s (m * 10 + (c - 48)) dot (if dot then places + 1 else places) true in
    if c == 46
    then (if dot then not_a_number else behind)
    else if leb 48 c && leb c 57
    then next
    else not_a_number

unfoldable pub chunk_number : Text → ChunkNumber
unfolding read_decimal
chunk_number s =
    let t = trim s in
    if eq_text t []
    then decimal 0 0
    else if eq_text t (codes "Infinity") || eq_text t (codes "+Infinity")
    then infinity true
    else if eq_text t (codes "-Infinity")
    then infinity false
    else read_decimal t 0 false 0 false

abbrev pub sign_ℕ : ℕ → ℕ → Sign
sign_ℕ a b = if ltb a b then minus else if a == b then zero_sign else plus

-- The sign of c - d, where both are numbers.
abbrev pub difference : ChunkNumber → ChunkNumber → Option Sign
difference (decimal m k) (decimal n l) = some (sign_ℕ (m * 10 ^ l) (n * 10 ^ k))
difference (decimal m k) (infinity positive) = some (if positive then minus else plus)
difference (infinity positive) (decimal n l) = some (if positive then plus else minus)
difference (infinity true) (infinity true) = some zero_sign
difference (infinity true) (infinity false) = some plus
difference (infinity false) (infinity true) = some minus
difference (infinity false) (infinity false) = some zero_sign
difference not_a_number d = none
difference c not_a_number = none

-- `a > b` on texts, by code units.
abbrev pub greater : Text → Text → Bool
greater [] t = false
greater (c ∷ s) [] = true
greater (c ∷ s) (d ∷ t) = ltb d c || (c == d && greater s t)

-- Two chunks that differ.
pub compare_chunks : Text → Text → Sign
unfolding chunk_number
compare_chunks a b = elim (difference (chunk_number a) (chunk_number b)) [
  | none ↦ if greater a b then plus else minus
  | some s ↦ s
]

-- The loop over both lists of chunks, which stops at the first pair that differs.
pub compare_from : List Text → List Text → Sign
unfolding compare_chunks
compare_from [] [] = zero_sign
compare_from [] (b ∷ bb) = minus
compare_from (a ∷ aa) [] = plus
compare_from (a ∷ aa) (b ∷ bb) = if eq_text a b then compare_from aa bb else compare_chunks a b

unfoldable pub alphanum : Text → Text → Sign
unfolding chunkify compare_from
alphanum a b = compare_from (chunkify a) (chunkify b)

-- The comparator of `sortBy` on two properties. The code tests `other`, the element, where it means
-- `otherp`, its property: an element is no text, so `Light` on the right is left as it is.
unfoldable pub rank_left : Text → Text
rank_left onep =
    if eq_text onep (codes "Heavy")
    then codes "0" ++ onep
    else if eq_text onep (codes "Medium")
    then codes "1" ++ onep
    else if eq_text onep (codes "Light")
    then codes "2" ++ onep
    else onep

pub rank_right : Text → Text
rank_right otherp =
    if eq_text otherp (codes "Heavy")
    then codes "0" ++ otherp
    else if eq_text otherp (codes "Medium")
    then codes "1" ++ otherp
    else otherp

unfoldable pub compare_by : {A : Type 0} → (A → Option Text) → A → A → Sign
unfolding rank_left rank_right alphanum
compare_by property one other =
    alphanum (rank_left (property_key (property one))) (rank_right (property_key (property other)))
