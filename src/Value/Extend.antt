-- ===== src/Value/Extend.antt =====
-- What the page relies on of `$.extend(true, target, source)`, as jQuery documents it.
use shabdiz.Prelude.{ℕ, zero, suc, ◌≡◌}
use shabdiz.Text.{Text}
use shabdiz.Value.{Value, undefined, arr, obj, Fields, end, get, Items, nil, cons}

-- The properties of an object; of anything else, none.
abbrev pub fields_of : Value → Fields
fields_of (obj fields) = fields
fields_of _ = end

abbrev pub as_object : Value → Value
as_object v = obj (fields_of v)

-- The elements of an array; of anything else, none.
abbrev pub items_of : Value → Items
items_of (arr xs) = xs
items_of _ = nil

abbrev pub as_array : Value → Value
as_array v = arr (items_of v)

-- `array[i]`.
abbrev pub item : ℕ → Items → Value
item i nil = undefined
item zero (cons v vs) = v
item (suc i) (cons v vs) = item i vs

-- One property: `undefined` is not copied, objects and arrays are merged, all else is copied.
abbrev pub merged : (Value → Value → Value) → Value → Value → Value
merged ext old undefined = old
merged ext old (obj new) = ext (as_object old) (obj new)
merged ext old (arr new) = ext (as_array old) (arr new)
merged ext old new = new

-- A source that is `undefined` is skipped; of two objects each property is merged, of two arrays
-- each element.
pub record IsDeepExtend (ext : Value → Value → Value) : Type 0 where
  pub skip : (target : Value) → ext target undefined ≡ target
  pub merge :
      (t s : Fields)
      → (r : Fields) × (ext (obj t) (obj s) ≡ obj r)
        × ((key : Text) → get key r ≡ merged ext (get key t) (get key s))
  pub merge_items :
      (xs ys : Items)
      → (zs : Items) × (ext (arr xs) (arr ys) ≡ arr zs)
        × ((i : ℕ) → item i zs ≡ merged ext (item i xs) (item i ys))
