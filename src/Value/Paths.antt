-- ===== src/Value/Paths.antt =====
-- What stands at a path of keys in a value that `$.extend` has merged.
pub mod Merge
pub mod Outline
use shabdiz.Prelude.{
  ℕ, ◌≡◌, refl, ◌⊎◌, inl, inr, Bool, Bool-cases, true, false, ◌||◌, ◌&&◌, List, [], ◌∷◌,
  if◌then◌else◌, arith,
}
use shabdiz.Text.{Text}
use shabdiz.Value.{
  Value, undefined, null, bool, num, str, fn, arr, obj, Fields, end, get, Items, nil,
}
use shabdiz.Value.Extend.{fields_of, items_of, item}

-- A step into an object or into an array.
pub data Step : Type 0 where
  at_key : Text → Step
  at_index : ℕ → Step

abbrev pub take_step : Step → Value → Value
take_step (at_key k) v = get k (fields_of v)
take_step (at_index i) v = item i (items_of v)

-- `undefined` where the path leaves the value.
abbrev pub at_path : List Step → Value → Value
at_path [] v = v
at_path (s ∷ path) v = at_path path (take_step s v)

-- A value that a merge replaces as a whole.
abbrev pub is_leaf : Value → Bool
is_leaf undefined = false
is_leaf (obj f) = false
is_leaf (arr xs) = false
is_leaf _ = true

abbrev pub is_undefined : Value → Bool
is_undefined undefined = true
is_undefined _ = false

abbrev pub is_object : Value → Bool
is_object (obj f) = true
is_object _ = false

abbrev pub is_array : Value → Bool
is_array (arr xs) = true
is_array _ = false

abbrev pub fits : Step → Value → Bool
fits (at_key k) = is_object
fits (at_index i) = is_array

-- The path leads to `undefined` through objects at its keys and arrays at its indices, so that
-- nothing stands in the way of what was there before.
abbrev pub leaves_alone : List Step → Value → Bool
leaves_alone [] v = is_undefined v
leaves_alone (s ∷ path) v = is_undefined v || (fits s v && leaves_alone path (take_step s v))

pub is_undefined_sound : (v : Value) → is_undefined v ≡ true → v ≡ undefined
is_undefined_sound undefined e = refl
is_undefined_sound null e = cc
is_undefined_sound (bool b) e = cc
is_undefined_sound (num n) e = cc
is_undefined_sound (str t) e = cc
is_undefined_sound (fn f) e = cc
is_undefined_sound (arr xs) e = cc
is_undefined_sound (obj f) e = cc

-- An object, or a value that has no properties.
pub object-cases :
    (v : Value) → ((f : Fields) × (v ≡ obj f)) ⊎ ((fields_of v ≡ end) × (is_object v ≡ false))
object-cases (obj f) = inl (f, refl)
object-cases undefined = inr (refl, refl)
object-cases null = inr (refl, refl)
object-cases (bool b) = inr (refl, refl)
object-cases (num n) = inr (refl, refl)
object-cases (str t) = inr (refl, refl)
object-cases (fn f) = inr (refl, refl)
object-cases (arr xs) = inr (refl, refl)

-- An array, or a value that has no elements.
pub array-cases :
    (v : Value) → ((xs : Items) × (v ≡ arr xs)) ⊎ ((items_of v ≡ nil) × (is_array v ≡ false))
array-cases (arr xs) = inl (xs, refl)
array-cases undefined = inr (refl, refl)
array-cases null = inr (refl, refl)
array-cases (bool b) = inr (refl, refl)
array-cases (num n) = inr (refl, refl)
array-cases (str t) = inr (refl, refl)
array-cases (fn f) = inr (refl, refl)
array-cases (obj f) = inr (refl, refl)

-- A step that does not fit leads to `undefined`.
take_step-unfit : (s : Step) (v : Value) → fits s v ≡ false → take_step s v ≡ undefined
take_step-unfit (at_key k) v e = elim (object-cases v) [
  | inl (f, o) ↦ absurd (ground arith)
  | inr (n, o) ↦ rw n refl
]
take_step-unfit (at_index i) v e = elim (array-cases v) [
  | inl (xs, o) ↦ absurd (ground arith)
  | inr (n, o) ↦ rw n refl
]

take_step_undefined : (s : Step) → take_step s undefined ≡ undefined
take_step_undefined (at_key k) = refl
take_step_undefined (at_index i) = refl

pub at_path_undefined : (path : List Step) → at_path path undefined ≡ undefined
at_path_undefined [] = refl
at_path_undefined (at_key k ∷ path) = at_path_undefined path
at_path_undefined (at_index i ∷ path) = at_path_undefined path

pub at_path-unfit :
    (s : Step) (path : List Step) (v : Value) → fits s v ≡ false → at_path (s ∷ path) v ≡ undefined
at_path-unfit s path v e = rw (take_step-unfit s v e) (at_path_undefined path)

pub at_path-leaves_alone :
    (path : List Step) (v : Value) → leaves_alone path v ≡ true → at_path path v ≡ undefined
at_path-leaves_alone [] v e = is_undefined_sound v e
at_path-leaves_alone (s ∷ path) v e = elim (Bool-cases (fits s v)) [
  | inl f ↦ elim (Bool-cases (is_undefined v)) [
    | inl u ↦ rw (is_undefined_sound v u) (at_path_undefined (s ∷ path))
    | inr u ↦ at_path-leaves_alone path (take_step s v) (ground arith)
  ]
  | inr f ↦ at_path-unfit s path v f
]

pub leaves_alone_undefined : (path : List Step) → leaves_alone path undefined ≡ true
leaves_alone_undefined [] = refl
leaves_alone_undefined (s ∷ path) = refl

pub leaves_alone-step :
    (s : Step) (path : List Step) (v : Value)
    → leaves_alone (s ∷ path) v ≡ true
    → leaves_alone path (take_step s v) ≡ true
leaves_alone-step s path v e = elim (Bool-cases (is_undefined v)) [
  | inl u ↦ rw (is_undefined_sound v u, take_step_undefined s) (leaves_alone_undefined path)
  | inr u ↦ ground arith
]

-- A leaf stands at the path, or nothing does that a merge would read.
abbrev pub is_settled : List Step → Value → Bool
is_settled path v = is_leaf (at_path path v) || leaves_alone path v

-- What a merge is to put at the path.
abbrev pub overridden : List Step → Value → Value → Value
overridden path old new = if leaves_alone path new then at_path path old else at_path path new
