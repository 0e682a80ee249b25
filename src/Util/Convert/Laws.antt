-- ===== src/Util/Convert/Laws.antt =====
-- The texts of units and workloads of evaluation/src/site/resources/analysis/scripts/util.js.
use mathlib.Core.Bool.{false≢true}
use shabdiz.Prelude.{
  ℕ, Bool, true, false, not, ◌&&◌, [], ◌∷◌, ◌++◌, map, arith, ◌≡◌, ◌≢◌, refl, sym, ◌∙◌, ap, Option,
  some, if◌then◌else◌, Bool-cases, inl, inr,
}
use shabdiz.Prelude.Result.{ok, ok_parts, ok-inj}
use shabdiz.Text.{Text, codes, eq_text, Lacks, split}
use shabdiz.Text.Split.{split_first}
use shabdiz.Util.Strings.{to_upper}
use shabdiz.Util.Convert.{
  time_unit_to_short_time_unit, Duration, duration_to_string, Intervals, Printing,
  intervals_to_string, given, workload_to_string,
}

-- The units of time, by their names.
pub data TimeUnit : Type 0 where
  nanoseconds microseconds milliseconds seconds minutes hours days : TimeUnit

abbrev pub unit_text : TimeUnit → Text
unit_text nanoseconds = codes "NANOSECONDS"
unit_text microseconds = codes "MICROSECONDS"
unit_text milliseconds = codes "MILLISECONDS"
unit_text seconds = codes "SECONDS"
unit_text minutes = codes "MINUTES"
unit_text hours = codes "HOURS"
unit_text days = codes "DAYS"

-- The unit that a short text stands for.
abbrev read_unit : Text → Option TimeUnit
read_unit t =
    if eq_text t (codes "ns")
    then some nanoseconds
    else if eq_text t (codes "micros")
    then some microseconds
    else if eq_text t (codes "ms")
    then some milliseconds
    else if eq_text t (codes "s")
    then some seconds
    else if eq_text t (codes "mins")
    then some minutes
    else if eq_text t (codes "hrs")
    then some hours
    else some days

read_unit-short : (u : TimeUnit) → read_unit (time_unit_to_short_time_unit (unit_text u)) ≡ some u
unfolding time_unit_to_short_time_unit
read_unit-short nanoseconds = refl
read_unit-short microseconds = refl
read_unit-short milliseconds = refl
read_unit-short seconds = refl
read_unit-short minutes = refl
read_unit-short hours = refl
read_unit-short days = refl

-- No two of the seven units have the same short text.
pub time_unit_to_short_time_unit-inj :
    (u v : TimeUnit)
    → time_unit_to_short_time_unit (unit_text u) ≡ time_unit_to_short_time_unit (unit_text v)
    → u ≡ v
time_unit_to_short_time_unit-inj u v h =
    let same : some u ≡ some v = sym (read_unit-short u) ∙ (ap read_unit h ∙ read_unit-short v) in
    cc

-- A duration whose text says its length: neither 0 nor without end.
abbrev pub is_counted : Printing → ℕ → Bool
is_counted p n = not (p.same n (p.whole 9223372036854775807)) && not (p.same n (p.whole 0))

-- The length and the short text of the unit.
abbrev counted_text : Printing → ℕ → TimeUnit → Text
counted_text p n u = p.number n ++ (codes " " ++ time_unit_to_short_time_unit (unit_text u))

neither : (x y : Bool) → (not x && not y) ≡ true → (x ≡ false) × (y ≡ false)
neither x y e = (ground arith, ground arith)

abbrev pub lasting : Text → ℕ → Duration
lasting unit n = record { time_unit = some unit; length = some n }

duration_to_string-counted :
    (p : Printing) (s : Text) (n : ℕ) (u : TimeUnit)
    → map to_upper s ≡ unit_text u
    → is_counted p n ≡ true
    → duration_to_string p (lasting s n) ≡ ok (counted_text p n u)
unfolding duration_to_string
duration_to_string-counted p s n u upper counted =
    let (finite, positive) = neither _ _ counted in rw (finite, positive, upper) refl

split_short :
    (u : TimeUnit)
    → split b' ' (time_unit_to_short_time_unit (unit_text u))
      ≡ time_unit_to_short_time_unit (unit_text u) ∷ []
unfolding split time_unit_to_short_time_unit
split_short nanoseconds = refl
split_short microseconds = refl
split_short milliseconds = refl
split_short seconds = refl
split_short minutes = refl
split_short hours = refl
split_short days = refl

-- What is printed before the space, and behind it.
split-counted_text :
    (p : Printing) (n : ℕ) (u : TimeUnit)
    → Lacks b' ' (p.number n)
    → split b' ' (counted_text p n u) ≡ p.number n ∷ time_unit_to_short_time_unit (unit_text u) ∷ []
split-counted_text p n u spaceless =
    split_first b' ' (p.number n) (time_unit_to_short_time_unit (unit_text u)) spaceless
    ∙ ap (p.number n ∷◌) (split_short u)

-- Where no number is printed with a space: two durations of lengths that are neither 0 nor the one
-- that stands for no end, in units of the seven in whatever case, that have the same text have the
-- same unit and lengths that are printed alike.
pub duration_to_string-inj :
    (p : Printing) (s t : Text) (m n : ℕ) (u v : TimeUnit)
    → ((k : ℕ) → Lacks b' ' (p.number k))
    → map to_upper s ≡ unit_text u
    → map to_upper t ≡ unit_text v
    → is_counted p m ≡ true
    → is_counted p n ≡ true
    → duration_to_string p (lasting s m) ≡ duration_to_string p (lasting t n)
    → (p.number m ≡ p.number n) × (u ≡ v)
duration_to_string-inj p s t m n u v spaceless upper_s upper_t counted_m counted_n e =
    let same : counted_text p m u ≡ counted_text p n v = ok-inj (
      sym (duration_to_string-counted p s m u upper_s counted_m)
      ∙ e
      ∙ duration_to_string-counted p t n v upper_t counted_n) in
    let parts =
      sym (split-counted_text p m u (spaceless m))
      ∙ ap (split b' ') same
      ∙ split-counted_text p n v (spaceless n) in
    (cc, time_unit_to_short_time_unit-inj u v cc)

none_or : (t : Text) → (if eq_text t (codes "Infinite") then codes "None" else t) ≢ codes "Infinite"
none_or t h = elim (Bool-cases (eq_text t (codes "Infinite"))) [
  | inl e ↦
      let k : (if eq_text t (codes "Infinite") then codes "None" else t) ≡ codes "None" =
        rw e refl in
      false≢true (ap (eq_text (codes "Infinite")) (sym k ∙ h))
  | inr e ↦
      let k : (if eq_text t (codes "Infinite") then codes "None" else t) ≡ t = rw e refl in
      false≢true (sym e ∙ ap (λ s. eq_text s (codes "Infinite")) (sym k ∙ h))
]

-- A workload is never shown as `Infinite`.
pub workload_to_string-finite :
    (p : Printing) (field : Option Intervals) {t : Text}
    → workload_to_string p field ≡ ok t
    → t ≢ codes "Infinite"
unfolding workload_to_string
workload_to_string-finite p field {t} h e =
    let (i, a, b) = ok_parts (given field) _ h in
    let (intervals, c, d) = ok_parts (intervals_to_string p i) _ b in
    let v : (if eq_text intervals (codes "Infinite") then codes "None" else intervals)
        ≡ codes "Infinite" =
      ok-inj d ∙ e in
    none_or intervals v
