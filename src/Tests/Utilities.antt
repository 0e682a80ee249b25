-- ===== src/Tests/Utilities.antt =====
-- Runs of what is proved of the utilities.
use shabdiz.Prelude.{
  ◌≡◌, ◌≢◌, ◌↔◌, refl, ◌%◌, ◌^◌, Bool, true, List, [], ◌∷◌, ◌++◌, none, some, any, arith, select,
}
use shabdiz.Prelude.Result.{ok, is_error}
use shabdiz.Text.{trim, Text, codes, eq_text}
use shabdiz.Util.Groups.{Groups, group_by, own, made_keys, is_inherited}
use shabdiz.Util.Groups.Laws.{property_text, unless_empty, group_by_throws, group_by-own}
use shabdiz.Util.Arrays.{Distinct}
use shabdiz.Util.Alphanum.{sign_ℕ, alphanum, compare_by, chunkify, chunk_number, Sign, minus, plus}
use shabdiz.Util.Alphanum.Total.{is_label, alphanum_trans}
use shabdiz.Util.Alphanum.Loop.{at_start, chunk_loop, chunk_loop-chunkify}
use shabdiz.Util.Alphanum.Tokens.{number, word, tokens, compare_tokens, alphanum-tokens}
use shabdiz.Text.Number.{show_ℕ, scan}
use shabdiz.Util.Alphanum.Natural.{alphanum-show_ℕ}
use shabdiz.Util.Alphanum.Order.{light, compare_by-Intensity}
use shabdiz.Util.Alphanum.Chunks.{joined, until_nul, Alternate, chunkify_iff}
use shabdiz.Util.HashCode.{hash_code, hash_code-polynomial, signed, polynomial}
use shabdiz.Util.Color.{increase_brightness}
use shabdiz.Util.Color.Laws.{color, lifted, IsRaised, increase_brightness-lifted}

abbrev churns : List Text
churns = codes "Heavy" ∷ codes "12 hrs" ∷ codes "Heavy" ∷ codes "3 hrs" ∷ []

group_by_throws_example :
    is_error (group_by some none (codes "toString" ∷ churns))
    ≡ any (λ x. is_inherited (property_text some none x)) (codes "toString" ∷ churns)
group_by_throws_example = group_by_throws some none (codes "toString" ∷ churns)

abbrev churn_groups : Groups Text
churn_groups =
    (codes "Heavy", codes "Heavy" ∷ codes "Heavy" ∷ [])
    ∷ (codes "12 hrs", codes "12 hrs" ∷ [])
    ∷ (codes "3 hrs", codes "3 hrs" ∷ [])
    ∷ []

churns-grouped : group_by some none churns ≡ ok churn_groups
unfolding group_by
churns-grouped = refl

group_by-own_example :
    Distinct eq_text (made_keys churn_groups)
    × ((k : Text)
        → own k churn_groups
          ≡ unless_empty (select (λ x. eq_text (property_text some none x) k) churns))
group_by-own_example = group_by-own some none churns churns-grouped

-- Numbers with more than one dot are compared as texts, so three labels may go around.
labels_around :
    (alphanum (codes "9") (codes "10") ≡ minus)
    × (alphanum (codes "10") (codes "5.5.5") ≡ minus)
    × (alphanum (codes "5.5.5") (codes "9") ≡ minus)
unfolding alphanum trim
labels_around = (refl, refl, refl)

-- Two durations, as the scenarios have them.
alphanum-show_ℕ_example :
    alphanum (show_ℕ 4 ++ codes " hrs") (show_ℕ 12 ++ codes " hrs") ≡ sign_ℕ 4 12
alphanum-show_ℕ_example =
    alphanum-show_ℕ [] (codes " hrs") 4 12 (omega arith) (omega arith) tt
      ((refl, refl), ((refl, refl), ((refl, refl), ((refl, refl), tt))))

-- Labels of durations, the last with a NUL behind it.
labels :
    (is_label (codes "3 hrs") ≡ true)
    × (is_label (codes "12 hrs") ≡ true)
    × (is_label (codes "20 hrs") ≡ true)
    × (is_label (codes "3 hrs" ++ 0 ∷ []) ≡ true)
unfolding chunkify chunk_number scan show_ℕ trim
labels = (refl, refl, refl, refl)

minus-ne_plus : {s : Sign} → s ≡ minus → s ≢ plus
minus-ne_plus e k = cc

hours_ascend :
    (alphanum (codes "3 hrs") (codes "12 hrs") ≡ minus)
    × (alphanum (codes "12 hrs") (codes "20 hrs") ≡ minus)
unfolding alphanum chunkify chunk_number trim
hours_ascend = (refl, refl)

alphanum_trans_example : alphanum (codes "3 hrs") (codes "20 hrs") ≢ plus
alphanum_trans_example =
    alphanum_trans (codes "3 hrs") (codes "12 hrs") (codes "20 hrs") labels.0 labels.1 labels.2
      (minus-ne_plus hours_ascend.0) (minus-ne_plus hours_ascend.1)

alphanum-tokens_example :
    alphanum (codes "3 hrs") (codes "20 hrs")
    ≡ compare_tokens (tokens (codes "3 hrs")) (tokens (codes "20 hrs"))
alphanum-tokens_example = alphanum-tokens (codes "3 hrs") (codes "20 hrs") labels.0 labels.2

label_tokens : tokens (codes "20 hrs") ≡ number 20 ∷ word (codes " hrs") ∷ []
unfolding chunkify scan
label_tokens = refl

chunk_loop-chunkify_example :
    chunk_loop 12 (codes "run 12 of 3") at_start ≡ some (chunkify (codes "run 12 of 3"))
chunk_loop-chunkify_example = chunk_loop-chunkify 12 (codes "run 12 of 3") (omega arith)

compare_by-Intensity_example : compare_by some (codes "Light") (codes "Light") ≡ minus
compare_by-Intensity_example =
    compare_by-Intensity some light light (codes "Light") (codes "Light") refl refl

abbrev run_chunks : List Text
run_chunks = codes "run " ∷ codes "12" ∷ codes " of " ∷ codes "3" ∷ []

chunkify_iff_example : (chunkify (codes "run 12 of 3") ≡ run_chunks) ↔ (
    (joined run_chunks ≡ until_nul (codes "run 12 of 3")) × ((n : Bool) × Alternate n run_chunks))
chunkify_iff_example = chunkify_iff (codes "run 12 of 3") run_chunks

hash_code-polynomial_example :
    hash_code (codes "reconfiguration") ≡ signed (polynomial 0 (codes "reconfiguration") % 2 ^ 32)
hash_code-polynomial_example = hash_code-polynomial (codes "reconfiguration")

increase_brightness-lifted_example :
    (increase_brightness (color 51 102 204) 100
      ≡ color (lifted 51 100 % 256) (lifted 102 100 % 256) (lifted 204 100 % 256))
    × IsRaised 51 100
    × IsRaised 102 100
    × IsRaised 204 100
increase_brightness-lifted_example =
    increase_brightness-lifted 51 102 204 100 (omega arith) (omega arith) (omega arith)
      (omega arith)
