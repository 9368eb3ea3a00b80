-- ===== src/Entry/Deviate/Bounds.antt =====
-- The bounds of lists behind a `deviate add` or `deviate delete` (pkg/yang/entry.go).
use goyang.Base.{ℕ, ◌≡◌, refl, true, false, List, some, Bytes, arith, if◌then◌else◌, ◌∙◌}
use goyang.Base.Result.{Result, ok, err}
use goyang.Entry.{Entry, ListAttr, is_list, is_leaf_list}
use goyang.Entry.Deviate.{
  DeviateError, is_any_list, with_default, set_min, set_max, min_of, max_of, set_rest, set_bounds,
  set_states, add_default, deviate_add,
}

list_attr-with_default :
    (r : Result DeviateError (List Bytes)) (e : Entry)
    → ((with_default r e).0.list_attr ≡ e.list_attr)
      × (is_any_list (with_default r e).0 ≡ is_any_list e)
unfolding with_default is_any_list is_list is_leaf_list
list_attr-with_default (ok ds) e = (refl, refl)
list_attr-with_default (err x) e = (refl, refl)

pub is_any_list-set_min : (n : ℕ) (e : Entry) → is_any_list (set_min n e) ≡ is_any_list e
unfolding set_min is_any_list is_list is_leaf_list
is_any_list-set_min n e = ground arith

-- The bounds that a statement gives to a list.
abbrev pub bounded : Entry → ListAttr → ListAttr
bounded spec a = record {
  min_elements = if spec.has_min_elements then min_of spec else a.min_elements;
  max_elements = if spec.has_max_elements then max_of spec else a.max_elements;
  ordered_by = a.ordered_by;
}

list_attr-set_bounds :
    (spec e : Entry) (es : List DeviateError)
    → is_any_list e ≡ false
    → (set_bounds spec e es).0.list_attr ≡ e.list_attr
unfolding set_bounds set_rest
list_attr-set_bounds spec e es h = ground arith

bounded-set_bounds :
    (spec e : Entry) (es : List DeviateError) (a : ListAttr)
    → is_any_list e ≡ true
    → e.list_attr ≡ some a
    → ((set_bounds spec e es).0.list_attr ≡ some (bounded spec a)) × ((set_bounds spec e es).1 ≡ es)
unfolding set_bounds set_rest set_min set_max
bounded-set_bounds spec e es a h q = ground (arith, is_any_list-set_min (min_of spec) e)

module _ (spec e : Entry) where
  abbrev start : Entry × List DeviateError
  start = with_default (add_default (is_leaf_list e) spec.default e.default) (set_states spec e)

  same_start : (start.0.list_attr ≡ e.list_attr) × (is_any_list start.0 ≡ is_any_list e)
  unfolding set_states is_any_list is_list is_leaf_list
  same_start =
      list_attr-with_default (add_default (is_leaf_list e) spec.default e.default)
        (set_states spec e)

  -- A deviate add sets the bounds that it has on a list or leaf-list and keeps the others; it leaves a
  -- node that is neither without bounds.
  pub deviate_add_bounds :
      ((a : ListAttr)
        → is_any_list e ≡ true
        → e.list_attr ≡ some a
        → (deviate_add spec e).0.list_attr ≡ some (bounded spec a))
      × (is_any_list e ≡ false → (deviate_add spec e).0.list_attr ≡ e.list_attr)
  unfolding deviate_add
  deviate_add_bounds = (
    λ a h q. (bounded-set_bounds spec start.0 start.1 a (same_start.1 ∙ h) (same_start.0 ∙ q)).0,
    λ h. list_attr-set_bounds spec start.0 start.1 (same_start.1 ∙ h) ∙ same_start.0,
  )
