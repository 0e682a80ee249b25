-- ===== src/Scope/Points.antt =====
-- evaluation/src/site/resources/analysis/scripts/scope.js: the points that `renderer` makes of rows.
use shabdiz.Prelude.{ℕ, ◌||◌, List, [], ◌∷◌, ◌++◌, Option, none, some, if◌then◌else◌}
use shabdiz.Prelude.Int.{pos}
use shabdiz.Prelude.Result.{Result, ok, err, type_error, ◌>>=◌}
use shabdiz.Text.{Text, codes}
use shabdiz.Util.Strings.{replace}
use shabdiz.Value.{
  Value, undefined, num, str, fn, arr, obj, Fields, end, field, items, get, read_property,
  is_nullish, equals_text, Host, Function, to_percent, nanosecond_to_millisecond, byte_to_gigabyte,
  failure_percent, extend_theme, builtin,
}
use shabdiz.Query.Matches.{loosely_equal}

-- A row of `metrics.csv`.
pub record Metric : Type 0 where
  pub name : Option Text
  pub type : Option Text

module _ {A : Type 0} (h : Host A) where
  abbrev whole : ℕ → ℕ
  whole n = h.decimal (pos n) 0

  -- `util.convert`: the conversions of units.
  unfoldable pub nanosecond_to_ms : Value → Value
  nanosecond_to_ms v = num (h.div (h.to_number v) (whole 1000000))

  unfoldable pub second_to_hour : Value → Value
  second_to_hour v = num (h.div (h.to_number v) (whole 3600))

  unfoldable pub byte_to_gb : Value → Value
  byte_to_gb v = num (h.div (h.to_number v) (whole 1073741824))

  unfoldable pub percent : Value → Value
  percent v = num (h.mul (h.to_number v) (whole 100))

  -- A call of `themm.convert.y`; no theme has the other functions in that place.
  unfoldable pub convert : Function → Value → Result Value
  unfolding nanosecond_to_ms byte_to_gb percent
  convert to_percent v = ok (percent v)
  convert nanosecond_to_millisecond v = ok (nanosecond_to_ms v)
  convert byte_to_gigabyte v = ok (byte_to_gb v)
  convert failure_percent v = ok (percent (num (h.sub (whole 1) (h.to_number v))))
  convert extend_theme v = err type_error
  convert builtin v = err type_error

  abbrev call : Value → Value → Result Value
  call (fn f) v = convert f v
  call _ v = err type_error

  -- `themm.convert.y(v)`, where both `themm.convert` and its `y` are there, and else `v`.
  unfoldable pub converted : Value → Value → Result Value
  unfolding convert
  converted themm v = do
    table ← read_property (codes "convert") themm
    y ← (if is_nullish table then ok undefined else read_property (codes "y") table)
    (if is_nullish y then ok v else call y v)

  -- The column of a row that the metric's type asks for; `undefined` for any other type.
  unfoldable pub column : Metric → Text → Fields → Value
  column metric suffix row =
      let is = λ (t : Text). loosely_equal metric.type (some t) in
      if is (codes "Sampler") || is (codes "Timer")
      then get (codes "overall_" ++ suffix) row
      else if is (codes "Rate")
      then get (codes "rate_" ++ suffix) row
      else if is (codes "Counter")
      then get (codes "counter_" ++ suffix) row
      else if is (codes "Gauge")
      then get (codes "value_" ++ suffix) row
      else undefined

  -- `y == 'NaN' ? 0 : y`.
  abbrev pub nan_to_zero : Value → Value
  nan_to_zero y = if equals_text (codes "NaN") y then num (whole 0) else y

  -- `util.convert.secondToHour(record.time * 10)`.
  abbrev hours : Fields → Value
  hours row = second_to_hour (num (h.mul (h.to_number (get (codes "time") row)) (whole 10)))

  unfoldable pub mean_point : Value → Metric → Fields → Result Value
  unfolding column converted second_to_hour
  mean_point themm metric row = do
    y ← converted themm (nan_to_zero (column metric (codes "mean") row))
    ok (arr (items (hours row ∷ y ∷ [])))

  -- The bounds keep `NaN`.
  unfoldable pub interval_point : Value → Metric → Fields → Result Value
  unfolding column converted second_to_hour
  interval_point themm metric row = do
    lower ← converted themm (column metric (codes "ci_lower") row)
    upper ← converted themm (column metric (codes "ci_upper") row)
    ok (arr (items (hours row ∷ lower ∷ upper ∷ [])))

  -- The point of one scenario and its interval, from the first row of its file; a missing row and a
  -- missing churn throw.
  unfoldable pub summary : Value → Option Text → List Fields → Result (Value × Value)
  unfolding converted replace
  summary themm churn [] = err type_error
  summary themm churn (row ∷ rows) = do
    y ← converted themm (nan_to_zero (get (codes "mean") row))
    lower ← converted themm (get (codes "ci_lower") row)
    upper ← converted themm (get (codes "ci_upper") row)
    name ← (elim churn [ none ↦ err type_error | some t ↦ ok (replace (codes " hrs") [] t) ])
    ok (
      obj (field (codes "name") (str name) (field (codes "y") y end)),
      arr (items (lower ∷ upper ∷ [])),
    )
