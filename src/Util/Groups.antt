-- ===== src/Util/Groups.antt =====
-- evaluation/src/site/resources/analysis/scripts/util.js: `Array.prototype.groupBy`, and of the
-- language what it stands on: property keys, the names that an object inherits, `Object.keys`.
pub mod Laws
pub mod Keys
pub mod Members
use shabdiz.Prelude.{
  ℕ, ◌+◌, ◌-◌, ◌^◌, Bool, ◌&&◌, List, [], ◌∷◌, ◌++◌, Option, none, some, ltb, if◌then◌else◌, any,
}
use shabdiz.Prelude.Result.{Result, ok, err, type_error}
use shabdiz.Text.{Text, codes, eq_text}
use shabdiz.Text.Number.{scan, show_ℕ}

-- A property of an element, or `undefined`, as a key.
abbrev pub property_key : Option Text → Text
property_key none = codes "undefined"
property_key (some t) = t

-- The names that `{}` inherits from `Object.prototype`: reading one is not `undefined`.
abbrev pub inherited_names : List Text
inherited_names =
    codes "constructor"
    ∷ codes "__defineGetter__"
    ∷ codes "__defineSetter__"
    ∷ codes "hasOwnProperty"
    ∷ codes "__lookupGetter__"
    ∷ codes "__lookupSetter__"
    ∷ codes "isPrototypeOf"
    ∷ codes "propertyIsEnumerable"
    ∷ codes "toString"
    ∷ codes "valueOf"
    ∷ codes "__proto__"
    ∷ codes "toLocaleString"
    ∷ []

unfoldable pub is_inherited : Text → Bool
is_inherited key = any (eq_text key) inherited_names

-- The object `groups`: its own properties in the order in which they were made.
abbrev pub Groups : Type 0 → Type 0
Groups A = List (Text × List A)

-- A key that is an array index, as its number: `Object.keys` lists these first.
pub array_index : Text → Option ℕ
array_index key = elim (scan 10 key none) [
  | none ↦ none
  | some n ↦ if eq_text (show_ℕ n) key && ltb n (2 ^ 32 - 1) then some n else none
]

pub insert_index : ℕ × Text → List (ℕ × Text) → List (ℕ × Text)
insert_index (n, key) [] = (n, key) ∷ []
insert_index (n, key) ((m, other) ∷ rest) =
    if ltb n m then (n, key) ∷ (m, other) ∷ rest else (m, other) ∷ insert_index (n, key) rest

-- The keys that are array indices, ascending, and the others, as made.
pub index_keys : List Text → List (ℕ × Text)
unfolding insert_index array_index
index_keys [] = []
index_keys (key ∷ rest) = elim (array_index key) [
  | none ↦ index_keys rest
  | some n ↦ insert_index (n, key) (index_keys rest)
]

pub name_keys : List Text → List Text
unfolding array_index
name_keys [] = []
name_keys (key ∷ rest) = elim (array_index key) [
  | none ↦ key ∷ name_keys rest
  | some n ↦ name_keys rest
]

pub second : List (ℕ × Text) → List Text
second [] = []
second ((n, key) ∷ rest) = key ∷ second rest

-- The order in which `Object.keys` lists keys that were made in the given order.
unfoldable pub key_order : List Text → List Text
unfolding index_keys name_keys second
key_order made = second (index_keys made) ++ name_keys made

module _ {A : Type 0} where
  abbrev pub made_keys : Groups A → List Text
  made_keys [] = []
  made_keys ((key, members) ∷ rest) = key ∷ made_keys rest

  unfoldable pub object_keys : Groups A → List Text
  unfolding key_order
  object_keys groups = key_order (made_keys groups)

  -- `groups[key]` for a key that is not inherited.
  abbrev pub own : Text → Groups A → Option (List A)
  own key [] = none
  own key ((k, members) ∷ rest) = if eq_text k key then some members else own key rest

  -- `groups[key].push(element)`, after a new array where there was none.
  unfoldable pub push : Text → A → Groups A → Groups A
  push key element [] = (key, element ∷ []) ∷ []
  push key element ((k, members) ∷ rest) =
      if eq_text k key
      then (k, members ++ element ∷ []) ∷ rest
      else (k, members) ∷ push key element rest

  -- The loop: what is found under an inherited name has no `push` that can be called.
  unfoldable pub group_from : (A → Text) → List A → Groups A → Result (Groups A)
  unfolding push is_inherited
  group_from key [] groups = ok groups
  group_from key (element ∷ rest) groups =
      let next = group_from key rest (push (key element) element groups) in
      if is_inherited (key element) then err type_error else next

  -- `this.groupBy(property_name, alias_function)`, the property read by `property`.
  unfoldable pub group_by :
      (A → Option Text) → Option (Option Text → Option Text) → List A → Result (Groups A)
  unfolding group_from
  group_by property none array = group_from (λ e. property_key (property e)) array []
  group_by property (some alias) array =
      group_from (λ e. property_key (alias (property e))) array []
