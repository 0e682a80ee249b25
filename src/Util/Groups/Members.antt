-- ===== src/Util/Groups/Members.antt =====
-- What the groups of evaluation/src/site/resources/analysis/scripts/util.js hold together: the
-- elements that were grouped, each as often as it was there.
use mathlib.Core.List.{Perm, perm_middle, flat_map}
use mathlib.Core.List.Perm
use shabdiz.Prelude.{
  ◌≡◌, refl, ap, ◌∙◌, false, List, [], ◌∷◌, ◌++◌, append_assoc, append-nil, Option, none, some,
  Bool-cases, inl, inr, arith,
}
use shabdiz.Prelude.Perms.{flat_map-perm}
use shabdiz.Prelude.Result.{ok}
use shabdiz.Text.{Text, eq_text, eq_text_iff, eq_text_refl}
use shabdiz.Util.Arrays.{contains, Distinct}
use shabdiz.Util.Groups.{Groups, made_keys, own, push, object_keys, group_by}
use shabdiz.Util.Groups.Laws.{group_all, group_by-group_all, property_text, group_by-own}
use shabdiz.Util.Groups.Keys.{object_keys-order}

module _ {A : Type 0} where
  -- The members of all groups.
  abbrev pub all_members : Groups A → List A
  all_members [] = []
  all_members ((key, members) ∷ rest) = members ++ all_members rest

  -- The members of a group, none for a key that was not made.
  abbrev pub members_of : Groups A → Text → List A
  members_of groups key = elim (own key groups) [ none ↦ [] | some xs ↦ xs ]

  push-perm :
      (key : Text) (x : A) (g : Groups A) → Perm (all_members (push key x g)) (x ∷ all_members g)
  unfolding push
  push-perm key x [] = Perm.refl _
  push-perm key x ((j, xs) ∷ rest) = elim (Bool-cases (eq_text j key)) [
    | inl e ↦
        rw (e, append_assoc xs (x ∷ []) (all_members rest)) (perm_middle xs (all_members rest))
    | inr e ↦ rw e (
        Perm.trans (Perm.append_left xs (push-perm key x rest)) (perm_middle xs (all_members rest)))
  ]

  group_all-perm :
      (key : A → Text) (xs : List A) (g : Groups A)
      → Perm (all_members (group_all key xs g)) (all_members g ++ xs)
  group_all-perm key [] g = rw append-nil (Perm.refl _)
  group_all-perm key (x ∷ xs) g = Perm.trans (group_all-perm key xs (push (key x) x g)) (
      Perm.trans (Perm.append_right xs (push-perm (key x) x g))
        (Perm.symm (perm_middle (all_members g) xs)))

  -- Behind another group, the members of keys that are not its key are the same.
  flat_map-behind :
      (j : Text) (xs : List A) (rest : Groups A) (keys : List Text)
      → contains eq_text j keys ≡ false
      → flat_map (members_of ((j, xs) ∷ rest)) keys ≡ flat_map (members_of rest) keys
  unfolding flat_map
  flat_map-behind j xs rest [] n = refl
  flat_map-behind j xs rest (k ∷ keys) n = elim (Bool-cases (eq_text j k)) [
    | inl e ↦ absurd (ground (arith, eq_text_iff j k, eq_text_iff k j))
    | inr e ↦
        rw (e, members_of)
          (ap (members_of rest k ++◌) (flat_map-behind j xs rest keys (ground arith)))
  ]

  flat_map-members :
      (g : Groups A)
      → Distinct eq_text (made_keys g)
      → flat_map (members_of g) (made_keys g) ≡ all_members g
  unfolding flat_map
  flat_map-members [] d = refl
  flat_map-members ((j, xs) ∷ rest) (new, d) =
      rw (eq_text_refl j, members_of)
        (ap (xs ++◌) (flat_map-behind j xs rest (made_keys rest) new ∙ flat_map-members rest d))

  -- Where `groupBy` returns, the groups of the keys that `Object.keys` lists hold together the
  -- elements of the array, each as often as it stands there.
  pub group_by-perm :
      (property : A → Option Text) (alias : Option (Option Text → Option Text)) (xs : List A)
      {g : Groups A}
      → group_by property alias xs ≡ ok g
      → Perm (flat_map (members_of g) (object_keys g)) xs
  group_by-perm property alias xs {g} h =
      let e : group_all (property_text property alias) xs [] ≡ g =
        ground (arith, group_by-group_all property alias xs) in
      let same = flat_map-members g (group_by-own property alias xs h).0 in
      Perm.trans (flat_map-perm (members_of g) (object_keys-order g).0)
        (rw (same, ← e) (group_all-perm (property_text property alias) xs []))
