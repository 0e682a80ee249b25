-- ===== src/Util/Distance.antt =====
-- evaluation/src/site/resources/analysis/scripts/util.js: `euclideanDistance`, over the arithmetic
-- of doubles.
use shabdiz.Prelude.{ℕ, ◌≡◌, refl, ◌==◌, List, [], ◌∷◌, if◌then◌else◌, length, arith}
use shabdiz.Prelude.Result.{Result, ok, err, thrown}
use shabdiz.Text.{codes}

-- Addition, subtraction, multiplication and the square root of doubles, and the double 0.
pub record Doubles : Type 0 where
  pub zero : ℕ
  pub add : ℕ → ℕ → ℕ
  pub sub : ℕ → ℕ → ℕ
  pub mul : ℕ → ℕ → ℕ
  pub sqrt : ℕ → ℕ

-- A difference has the same square both ways.
pub record IsSquaring (d : Doubles) : Type 0 where
  pub square : (x y : ℕ) → d.mul (d.sub x y) (d.sub x y) ≡ d.mul (d.sub y x) (d.sub y x)

module _ (d : Doubles) where
  -- The loop over the coordinates.
  unfoldable pub sum_from : ℕ → List ℕ → List ℕ → ℕ
  sum_from sum [] q = sum
  sum_from sum (x ∷ p) [] = sum
  sum_from sum (x ∷ p) (y ∷ q) = sum_from (d.add sum (d.mul (d.sub x y) (d.sub x y))) p q

  unfoldable pub euclidean_distance : List ℕ → List ℕ → Result ℕ
  unfolding sum_from
  euclidean_distance p1 p2 =
      if length p1 == length p2
      then ok (d.sqrt (sum_from d.zero p1 p2))
      else err (thrown (codes "unequal pint lengths"))

  module _ (s : IsSquaring d) where
    sum_from_comm : (sum : ℕ) (p q : List ℕ) → sum_from sum p q ≡ sum_from sum q p
    unfolding sum_from
    sum_from_comm sum [] [] = refl
    sum_from_comm sum [] (y ∷ q) = refl
    sum_from_comm sum (x ∷ p) [] = refl
    sum_from_comm sum (x ∷ p) (y ∷ q) =
        rw (s.square x y) (sum_from_comm (d.add sum (d.mul (d.sub y x) (d.sub y x))) p q)

    -- The distance is the same both ways, and throws both ways for points of unequal lengths, where
    -- a difference has the same square both ways.
    pub euclidean_distance_comm : (p q : List ℕ) → euclidean_distance p q ≡ euclidean_distance q p
    unfolding euclidean_distance
    euclidean_distance_comm p q = ground (arith, sum_from_comm d.zero p q)
