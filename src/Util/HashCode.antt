-- ===== src/Util/HashCode.antt =====
-- evaluation/src/site/resources/analysis/scripts/util.js: `String.prototype.hashCode`, in the 32-bit
-- integers that `<<` and `&` give.
use shabdiz.Prelude.{
  ℕ, ◌+◌, ◌-◌, ◌*◌, ◌%◌, ◌^◌, ◌<◌, ◌≡◌, refl, ◌∙◌, [], ◌∷◌, arith, ltb, if◌then◌else◌, ap,
}
use shabdiz.Prelude.Int.{ℤ, pos, negsuc, ◌+ℤ◌, ◌-ℤ◌, ◌*ℤ◌}
use shabdiz.Text.{Text}

-- `ToInt32`: the bit pattern of an integer, and the number that a pattern stands for.
abbrev pub word : ℤ → ℕ
word (pos n) = n % 2 ^ 32
word (negsuc n) = 2 ^ 32 - 1 - n % 2 ^ 32

abbrev pub signed : ℕ → ℤ
signed w = if ltb w (2 ^ 31) then pos w else negsuc (2 ^ 32 - 1 - w)

unfoldable pub to_int32 : ℤ → ℤ
to_int32 z = signed (word z)

-- One round of the loop.
pub mix : ℤ → ℕ → ℤ
unfolding to_int32 ◌+ℤ◌ ◌-ℤ◌ ◌*ℤ◌
mix hash char = to_int32 ((to_int32 (hash *ℤ pos 32) -ℤ hash) +ℤ pos char)

pub hash_from : ℤ → Text → ℤ
unfolding mix
hash_from hash [] = hash
hash_from hash (char ∷ rest) = hash_from (mix hash char) rest

pub hash_code : Text → ℤ
unfolding hash_from
hash_code [] = pos 0
hash_code (char ∷ rest) = hash_from (pos 0) (char ∷ rest)

-- The polynomial in 31 with the characters for coefficients, the first one leading.
abbrev pub polynomial : ℕ → Text → ℕ
polynomial p [] = p
polynomial p (c ∷ s) = polynomial (31 * p + c) s

mix-signed : (w c : ℕ) → w < 2 ^ 32 → mix (signed w) c ≡ signed ((31 * w + c) % 2 ^ 32)
unfolding mix
mix-signed w c h = ground arith

polynomial_mod :
    (s : Text) (p q : ℕ)
    → p % 2 ^ 32 ≡ q % 2 ^ 32
    → polynomial p s % 2 ^ 32 ≡ polynomial q s % 2 ^ 32
polynomial_mod [] p q h = h
polynomial_mod (c ∷ s) p q h = polynomial_mod s (31 * p + c) (31 * q + c) (omega arith)

hash_from-polynomial :
    (s : Text) (w : ℕ) → w < 2 ^ 32 → hash_from (signed w) s ≡ signed (polynomial w s % 2 ^ 32)
unfolding hash_from
hash_from-polynomial [] w h = ap signed (omega arith)
hash_from-polynomial (c ∷ s) w h = rw (mix-signed w c h) (
    hash_from-polynomial s ((31 * w + c) % 2 ^ 32) (omega arith)
    ∙ ap signed (polynomial_mod s ((31 * w + c) % 2 ^ 32) (31 * w + c) (omega arith)))

-- The hash of a text is its polynomial in 31, taken modulo 2 ^ 32 and read as a signed integer.
pub hash_code-polynomial : (s : Text) → hash_code s ≡ signed (polynomial 0 s % 2 ^ 32)
unfolding hash_code
hash_code-polynomial [] = refl
hash_code-polynomial (c ∷ s) = hash_from-polynomial (c ∷ s) 0 (omega arith)
