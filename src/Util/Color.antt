-- ===== src/Util/Color.antt =====
-- evaluation/src/site/resources/analysis/scripts/util.js: `color.increaseBrightness`, for a whole
-- number of percent. The quotient by 100 is cut off to an integer, so it is taken in whole numbers.
pub mod Laws
use shabdiz.Prelude.{
  ℕ, zero, suc, ◌+◌, ◌-◌, ◌*◌, ◌/◌, ◌%◌, ◌&&◌, ◌||◌, [], ◌∷◌, ◌++◌, Option, none, ltb, ◌==◌,
  if◌then◌else◌, length,
}
use shabdiz.Prelude.Int.{ℤ, pos, negsuc}
use shabdiz.Text.{Text, codes, trim_start, trim_end}
use shabdiz.Text.Number.{Number, int, nan, scan, positive, negative}
use shabdiz.Util.HashCode.{to_int32}
use shabdiz.Util.Strings.{drop}

-- `text.substr(from, 2)`.
abbrev take : ℕ → Text → Text
take zero s = []
take (suc n) [] = []
take (suc n) (c ∷ s) = c ∷ take n s

abbrev substr2 : ℕ → Text → Text
substr2 start s = take 2 (drop start s)

abbrev without_hash : Text → Text → Text
without_hash s [] = s
without_hash s (c ∷ rest) = if c == b'#' then rest else s

-- `hex.replace(/^\s*#|\s*$/g, '')`.
pub strip : Text → Text
unfolding trim_start trim_end
strip hex = trim_end (without_hash hex (trim_start hex))

-- `hex.replace(/(.)/g, '$1$1')`: a dot matches no line terminator.
pub doubled : Text → Text
doubled [] = []
doubled (c ∷ s) =
    if c == 10 || c == 13 || c == 0x2028 || c == 0x2029 then c ∷ doubled s else c ∷ c ∷ doubled s

abbrev hex_magnitude : Text → Option ℕ
hex_magnitude (c ∷ d ∷ s) =
    if c == b'0' && (d == b'x' || d == b'X') then scan 16 s none else scan 16 (c ∷ d ∷ s) none
hex_magnitude s = scan 16 s none

abbrev hex_signed : Text → Number
hex_signed [] = nan
hex_signed (c ∷ s) =
    if c == b'-'
    then negative (hex_magnitude s)
    else if c == b'+'
    then positive (hex_magnitude s)
    else positive (hex_magnitude (c ∷ s))

-- `parseInt(text, 16)`.
pub parse_hex : Text → Number
unfolding scan trim_start
parse_hex s = hex_signed (trim_start s)

abbrev pub hex_digit : ℕ → ℕ
hex_digit d = if ltb d 10 then b'0' + d else b'a' + d - 10

-- `n.toString(16)`; the first argument is fuel.
pub hex_digits : ℕ → ℕ → Text → Text
hex_digits zero n out = out
hex_digits (suc f) n out =
    let out' = hex_digit (n % 16) ∷ out in
    let rest = hex_digits f (n / 16) out' in if ltb n 16 then out' else rest

pub show_hex : ℤ → Text
unfolding hex_digits
show_hex (pos n) = hex_digits (suc n) n []
show_hex (negsuc n) = b'-' ∷ hex_digits (suc (suc n)) (suc n) []

-- `0 | (1 << 8) + r + (256 - r) * percent / 100`: `NaN` becomes 0. A channel is two characters, so
-- it is at least -15 and the sum is positive.
pub brighter : Number → ℕ → ℤ
unfolding to_int32
brighter (int (pos r)) percent = to_int32 (pos (256 + r + (256 - r) * percent / 100))
brighter (int (negsuc r)) percent = to_int32 (pos (255 - r + (257 + r) * percent / 100))
brighter nan percent = pos 0

-- One channel of the result.
pub channel : Text → ℕ → Text
unfolding parse_hex show_hex brighter
channel part percent = drop 1 (show_hex (brighter (parse_hex part) percent))

unfoldable pub increase_brightness : Text → ℕ → Text
unfolding strip doubled channel
increase_brightness hex percent =
    let h = strip hex in
    let full = if length h == 3 then doubled h else h in
    codes "#"
    ++ (channel (substr2 0 full) percent
        ++ (channel (substr2 2 full) percent ++ channel (substr2 4 full) percent))
