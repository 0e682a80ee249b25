-- ===== src/Value.antt =====
-- The values of the language that themes, charts and rows of tables are made of, and what the page
-- takes from outside: jQuery, Papa Parse, the network, floating-point arithmetic and the sort.
pub mod Extend
pub mod Sort
pub mod Paths
use shabdiz.Prelude.{ℕ, Bool, true, false, List, [], ◌∷◌, Option, if◌then◌else◌}
use shabdiz.Prelude.Int.{ℤ}
use shabdiz.Prelude.Result.{Result, ok, err, type_error}
use shabdiz.Text.{Text, eq_text}
use shabdiz.Util.Alphanum.{Sign}

-- The functions that stand in themes, each by its name; `builtin` is one that objects inherit.
pub data Function : Type 0 where
  builtin extend_theme to_percent nanosecond_to_millisecond byte_to_gigabyte failure_percent :
      Function

-- A number is the bit pattern of its double, on which only the operations of the host compute.
mutual
  pub data Value : Type 0 where
    undefined null : Value
    bool : Bool → Value
    num : ℕ → Value
    str : Text → Value
    fn : Function → Value
    arr : Items → Value
    obj : Fields → Value

  pub data Items : Type 0 where
    nil : Items
    cons : Value → Items → Items

  pub data Fields : Type 0 where
    end : Fields
    field : Text → Value → Fields → Fields

-- `object[key]` for an object's own keys.
abbrev pub get : Text → Fields → Value
get key end = undefined
get key (field k v rest) = if eq_text k key then v else get key rest

abbrev pub items : List Value → Items
items [] = nil
items (v ∷ vs) = cons v (items vs)

-- `value.key`: a property of `undefined` or `null` throws; what is no object has none of these.
abbrev pub read_property : Text → Value → Result Value
read_property key undefined = err type_error
read_property key null = err type_error
read_property key (obj fields) = ok (get key fields)
read_property key _ = ok undefined

-- `value == undefined`, which `null` passes too.
abbrev pub is_nullish : Value → Bool
is_nullish undefined = true
is_nullish null = true
is_nullish _ = false

-- `value == text`.
abbrev pub equals_text : Text → Value → Bool
equals_text t (str s) = eq_text s t
equals_text t _ = false

-- The host: `decimal m k` is the literal m / 10 ^ k, `deep_extend target source` the result of
-- `$.extend(true, target, source)`, `csv` the rows of `Papa.parse` with a header and dynamic types,
-- `table` those with a header only, each with the text that it has for a name of the header,
-- `fetch` the status and the text of a request, `sort` the array's sort by a comparator.
pub record Host (A : Type 0) : Type 0 where
  pub decimal : ℤ → ℕ → ℕ
  pub sub : ℕ → ℕ → ℕ
  pub mul : ℕ → ℕ → ℕ
  pub div : ℕ → ℕ → ℕ
  pub to_number : Value → ℕ
  pub deep_extend : Value → Value → Value
  pub csv : Text → List Fields
  pub table : Text → List (Text → Option Text)
  pub fetch : Text → ℕ × Text
  pub sort : (A → A → Sign) → List A → List A
