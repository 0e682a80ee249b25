-- ===== src/Util/Alphanum/Order.antt =====
-- What kind of an order `alphanum` is, and what `sortBy` makes of it.
use shabdiz.Prelude.{◌≡◌, refl, true, false, not, List, [], ◌∷◌, Option, none, some, arith}
use shabdiz.Text.{Text, codes, eq_text, eq_text_refl, eq_text_iff, trim}
use shabdiz.Util.Groups.{property_key}
use shabdiz.Util.Alphanum.{
  Sign, minus, zero_sign, plus, opposite, ChunkNumber, decimal, infinity, not_a_number, difference,
  greater, chunk_number, compare_chunks, compare_from, chunkify, alphanum, rank_left, rank_right,
  compare_by,
}

abbrev flipped : Option Sign → Option Sign
flipped none = none
flipped (some s) = some (opposite s)

difference-flipped : (c d : ChunkNumber) → difference d c ≡ flipped (difference c d)
difference-flipped (decimal m k) (decimal n l) = ground arith
difference-flipped (decimal m k) (infinity true) = refl
difference-flipped (decimal m k) (infinity false) = refl
difference-flipped (infinity true) (decimal n l) = refl
difference-flipped (infinity false) (decimal n l) = refl
difference-flipped (infinity true) (infinity true) = refl
difference-flipped (infinity true) (infinity false) = refl
difference-flipped (infinity false) (infinity true) = refl
difference-flipped (infinity false) (infinity false) = refl
difference-flipped (decimal m k) not_a_number = refl
difference-flipped (infinity true) not_a_number = refl
difference-flipped (infinity false) not_a_number = refl
difference-flipped not_a_number (decimal m k) = refl
difference-flipped not_a_number (infinity true) = refl
difference-flipped not_a_number (infinity false) = refl
difference-flipped not_a_number not_a_number = refl

greater-not : (a b : Text) → eq_text a b ≡ false → greater b a ≡ not (greater a b)
greater-not [] [] h = cc
greater-not [] (d ∷ t) h = refl
greater-not (c ∷ s) [] h = refl
greater-not (c ∷ s) (d ∷ t) h = ground (arith, greater-not s t)

pub compare_chunks-opposite :
    (a b : Text) → eq_text a b ≡ false → compare_chunks b a ≡ opposite (compare_chunks a b)
unfolding compare_chunks
compare_chunks-opposite a b h =
    ground (arith, difference-flipped (chunk_number a) (chunk_number b), greater-not a b h)

eq_text_comm : (a b : Text) → eq_text a b ≡ eq_text b a
eq_text_comm a b = ground (arith, eq_text_iff a b, eq_text_iff b a)

compare_from-opposite : (aa bb : List Text) → compare_from bb aa ≡ opposite (compare_from aa bb)
unfolding compare_from
compare_from-opposite [] [] = refl
compare_from-opposite [] (b ∷ bb) = refl
compare_from-opposite (a ∷ aa) [] = refl
compare_from-opposite (a ∷ aa) (b ∷ bb) =
    ground (arith, compare_from-opposite aa bb, eq_text_comm a b, compare_chunks-opposite a b)

-- Swapping the texts turns the sign of `alphanum` around.
pub alphanum-opposite : (a b : Text) → alphanum b a ≡ opposite (alphanum a b)
unfolding alphanum
alphanum-opposite a b = compare_from-opposite (chunkify a) (chunkify b)

compare_from_self : (aa : List Text) → compare_from aa aa ≡ zero_sign
unfolding compare_from
compare_from_self [] = refl
compare_from_self (a ∷ aa) = rw (eq_text_refl a, compare_from) (compare_from_self aa)

-- A text is equal to itself.
pub alphanum_self : (a : Text) → alphanum a a ≡ zero_sign
unfolding alphanum
alphanum_self a = compare_from_self (chunkify a)

pub rank_right-rank_left :
    (t : Text) → eq_text t (codes "Light") ≡ false → rank_right t ≡ rank_left t
unfolding rank_right rank_left
rank_right-rank_left t h = ground arith

module _ {A : Type 0} (property : A → Option Text) where
  -- `sortBy` compares antisymmetrically where neither property is `Light`.
  pub compare_by-opposite :
      (x y : A)
      → eq_text (property_key (property x)) (codes "Light") ≡ false
      → eq_text (property_key (property y)) (codes "Light") ≡ false
      → compare_by property y x ≡ opposite (compare_by property x y)
  unfolding compare_by
  compare_by-opposite x y hx hy =
      rw (rank_right-rank_left _ hx, rank_right-rank_left _ hy)
        (alphanum-opposite (rank_left (property_key (property x)))
          (rank_left (property_key (property y))))

-- The three intensities that `sortBy` ranks.
pub data Intensity : Type 0 where
  heavy medium light : Intensity

abbrev pub intensity_text : Intensity → Text
intensity_text heavy = codes "Heavy"
intensity_text medium = codes "Medium"
intensity_text light = codes "Light"

-- The sign that the ranks ask for; two elements that are `Light` compare as less both ways, since
-- the right one is not ranked.
abbrev pub intensity_sign : Intensity → Intensity → Sign
intensity_sign heavy heavy = zero_sign
intensity_sign heavy _ = minus
intensity_sign medium heavy = plus
intensity_sign medium medium = zero_sign
intensity_sign medium light = minus
intensity_sign light light = minus
intensity_sign light _ = plus

-- `sortBy` puts `Heavy` before `Medium` before `Light`; two equal intensities compare as equal, but
-- for `Light`, which compares as less than itself.
pub compare_by-Intensity :
    {A : Type 0} (property : A → Option Text) (a b : Intensity) (x y : A)
    → property x ≡ some (intensity_text a)
    → property y ≡ some (intensity_text b)
    → compare_by property x y ≡ intensity_sign a b
unfolding compare_by chunkify trim
compare_by-Intensity property heavy heavy x y hx hy = rw (hx, hy)
compare_by-Intensity property heavy medium x y hx hy = rw (hx, hy)
compare_by-Intensity property heavy light x y hx hy = rw (hx, hy)
compare_by-Intensity property medium heavy x y hx hy = rw (hx, hy)
compare_by-Intensity property medium medium x y hx hy = rw (hx, hy)
compare_by-Intensity property medium light x y hx hy = rw (hx, hy)
compare_by-Intensity property light heavy x y hx hy = rw (hx, hy)
compare_by-Intensity property light medium x y hx hy = rw (hx, hy)
compare_by-Intensity property light light x y hx hy = rw (hx, hy)
