-- ===== src/OrSet/Entries.antt =====
-- The dots of an element after one change, and the invariant of the entries.
use gresse.Prelude.{◌≡◌, refl, true, List, [], ◌∷◌, ite, filter, Key, Option-cases, inl, inr, arith}
use gresse.Map
use gresse.Map.{Map}
use gresse.Dots.{Dot, dot_key}
use gresse.OrSet.{
  push_new, not_in, or_nil, is_nil, insert_dot, remove_dots, Change, insert, remove, apply_change,
}

filter_nil : (removed : List Dot) → filter (not_in removed) [] ≡ []
unfolding filter
filter_nil removed = refl

nil_of_is_nil : (dots : List Dot) → is_nil dots ≡ true → dots ≡ []
nil_of_is_nil [] h = refl
nil_of_is_nil (d ∷ dots) h = cc

module _ {T : Type 0} ⦃key : Key T⦄ where
  -- The dots under which an element was inserted and not removed; the element is present if some.
  abbrev pub dots_of : T → Map T (List Dot) → List Dot
  dots_of x entries = or_nil (Map.get x entries)

  -- What one change makes of the dots of one element.
  abbrev pub changed : Change T → Dot → T → List Dot → List Dot
  changed (insert element) dot x dots = ite (key.dec element x) (push_new dot dots) dots
  changed (remove element removed) dot x dots =
      ite (key.dec element x) (filter (not_in removed) dots) dots

  dots_of-insert_dot :
      (x e : T) (d : Dot) (m : Map T (List Dot))
      → dots_of x (insert_dot e d m) ≡ ite (key.dec e x) (push_new d (dots_of x m)) (dots_of x m)
  unfolding insert_dot
  dots_of-insert_dot x e d m = ground (arith, Map.get-upsert x e (push_new d) (push_new d []) m)

  dots_of-remove_dots :
      (x e : T) (removed : List Dot) (m : Map T (List Dot))
      → dots_of x (remove_dots e removed m)
        ≡ ite (key.dec e x) (filter (not_in removed) (dots_of x m)) (dots_of x m)
  unfolding remove_dots
  dots_of-remove_dots x e removed m = elim (Option-cases (Map.get e m)) [
    | inl absent ↦ rw (absent, remove_dots) (ground (arith, filter_nil removed))
    | inr (dots, found) ↦
        rw (found, remove_dots)
          (ground (
            arith,
            Map.get-remove x e m,
            Map.get-insert x e (filter (not_in removed) dots) m,
            nil_of_is_nil (filter (not_in removed) dots),
          ))
  ]

  pub dots_of-apply_change :
      (c : Change T) (d : Dot) (x : T) (m : Map T (List Dot))
      → dots_of x (apply_change c d m) ≡ changed c d x (dots_of x m)
  unfolding apply_change
  dots_of-apply_change (insert e) d x m = dots_of-insert_dot x e d m
  dots_of-apply_change (remove e removed) d x m = dots_of-remove_dots x e removed m
