-- ===== src/Text/Number.antt =====
-- The numbers that the page keeps as indices, how they are printed, and `parseInt`. They are exact
-- integers: the rounding of a double from 2 ^ 53 on is left out, and minus zero, which `===` and
-- printing take for zero, is zero. `IsExact` of Text/Number/Laws.antt is the range in which the
-- source's numbers are these.
pub mod Laws
use shabdiz.Prelude.{
  ℕ, zero, suc, ◌+◌, ◌-◌, ◌*◌, ◌/◌, ◌%◌, Bool, false, ◌&&◌, ◌||◌, [], ◌∷◌, Option, none, some, ltb,
  leb, ◌==◌, if◌then◌else◌,
}
use shabdiz.Prelude.Int.{ℤ, pos, negsuc}
use shabdiz.Text.{Text, codes, trim_start}

pub data Number : Type 0 where
  int : ℤ → Number
  nan : Number

-- `===` on numbers: `NaN` is equal to nothing.
abbrev pub strict_eq : Number → Number → Bool
strict_eq (int (pos m)) (int (pos n)) = m == n
strict_eq (int (negsuc m)) (int (negsuc n)) = m == n
strict_eq _ _ = false

-- The decimal digits of `n` in front of `out`; the first argument is fuel.
unfoldable pub digits : ℕ → ℕ → Text → Text
digits zero n out = out
digits (suc f) n out =
    let out' = (b'0' + n % 10) ∷ out in
    let rest = digits f (n / 10) out' in if ltb n 10 then out' else rest

unfoldable pub show_ℕ : ℕ → Text
unfolding digits
show_ℕ n = digits (suc n) n []

-- A number in a concatenation of texts.
unfoldable pub show : Number → Text
unfolding show_ℕ
show (int (pos n)) = show_ℕ n
show (int (negsuc n)) = b'-' ∷ show_ℕ (suc n)
show nan = codes "NaN"

-- The value of a digit or a letter, if it is below the radix.
unfoldable pub digit : ℕ → ℕ → Option ℕ
digit radix c =
    let d =
      if leb b'0' c && leb c b'9'
      then c - b'0'
      else if leb b'a' c && leb c b'z'
      then c - b'a' + 10
      else if leb b'A' c && leb c b'Z'
      then c - b'A' + 10
      else 36 in
    if ltb d radix then some d else none

abbrev push : ℕ → Option ℕ → ℕ → Option ℕ
push radix none d = some d
push radix (some n) d = some (n * radix + d)

-- The longest run of digits; `none` as long as there was no digit.
unfoldable pub scan : ℕ → Text → Option ℕ → Option ℕ
unfolding digit
scan radix [] acc = acc
scan radix (c ∷ s) acc = elim (digit radix c) [
  | none ↦ acc
  | some d ↦ scan radix s (push radix acc d)
]

-- A prefix `0x` or `0X` asks for the radix 16.
pub magnitude : Text → Option ℕ
unfolding scan
magnitude (c ∷ d ∷ s) =
    if c == b'0' && (d == b'x' || d == b'X') then scan 16 s none else scan 10 (c ∷ d ∷ s) none
magnitude s = scan 10 s none

abbrev pub positive : Option ℕ → Number
positive none = nan
positive (some n) = int (pos n)

abbrev pub negative : Option ℕ → Number
negative none = nan
negative (some zero) = int (pos 0)
negative (some (suc n)) = int (negsuc n)

pub signed : Text → Number
unfolding magnitude
signed [] = nan
signed (c ∷ s) =
    if c == b'-'
    then negative (magnitude s)
    else if c == b'+'
    then positive (magnitude s)
    else positive (magnitude (c ∷ s))

-- `parseInt(text)`.
unfoldable pub parse_int : Text → Number
unfolding signed trim_start
parse_int s = signed (trim_start s)
