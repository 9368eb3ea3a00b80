-- ===== src/Entry/Deviate/Undo.antt =====
-- `deviate delete` takes back what `deviate add` with the same statement did to a node that had none
-- of it (pkg/yang/entry.go).
use goyang.Base.{
  ◌≡◌, ◌⊎◌, refl, ap, true, false, List, [], ◌∷◌, none, some, Bytes, arith, if◌then◌else◌, inl, inr,
  text_eq_iff, ◌∙◌,
}
use goyang.Entry.{Entry, ListAttr, ts_unset, is_list, is_leaf_list, max_uint64}
use goyang.Entry.Deviate.{
  DeviateError, changed, deleted, is_any_list, add_default, delete_default, with_default, set_min,
  set_max, min_of, max_of, set_rest, set_bounds, set_states, deviate_add, delete_bounds,
  deviate_delete,
}
use goyang.Entry.Deviate.Bounds.{is_any_list-set_min}

-- The statement has no bounds, or the node is a list without those that it has.
abbrev pub IsUnbounded : Entry → Entry → Type 0
IsUnbounded spec e =
    ((spec.has_min_elements ≡ false) × (spec.has_max_elements ≡ false))
    ⊎ ((a : ListAttr) × (is_any_list e ≡ true)
        × (e.list_attr ≡ some a)
        × ((spec.has_min_elements ≡ false) ⊎ (a.min_elements ≡ 0))
        × ((spec.has_max_elements ≡ false) ⊎ (a.max_elements ≡ max_uint64)))

module _ (spec : Entry) where
  abbrev bind_bounds : Entry → Entry
  bind_bounds e =
      let e1 = if spec.has_min_elements then set_min (min_of spec) e else e in
      if spec.has_max_elements then set_max (max_of spec) e1 else e1

  set_bounds_free :
      (e : Entry)
      → IsUnbounded spec e
      → spec.units ≡ []
      → spec.type ≡ none
      → set_bounds spec e [] ≡ (bind_bounds e, [])
  unfolding set_bounds set_rest
  set_bounds_free e h u t = ground (arith, is_any_list-set_min (min_of spec) e)

  delete_bounds_free :
      (e : Entry) → IsUnbounded spec e → delete_bounds spec (bind_bounds e) [] ≡ (e, [])
  unfolding delete_bounds set_min set_max min_of max_of
  delete_bounds_free e h = ground (arith, is_any_list-set_min (min_of spec) e)

  -- The states and the default behind an addition to a node without them.
  abbrev begun : Entry → Entry
  begun e = record (set_states spec e) { default = spec.default }

  begun_lem :
      (e : Entry)
      → e.default ≡ []
      → (spec.default ≡ []) ⊎ ((is_leaf_list e ≡ false) × (d : Bytes) × (spec.default ≡ d ∷ []))
      → with_default (add_default (is_leaf_list e) spec.default e.default) (set_states spec e)
        ≡ (begun e, [])
  unfolding with_default add_default set_states
  begun_lem e h o = ground arith

  same_begun :
      (e : Entry)
      → (is_any_list (begun e) ≡ is_any_list e)
        × ((begun e).list_attr ≡ e.list_attr)
        × (is_leaf_list (bind_bounds (begun e)) ≡ is_leaf_list e)
  unfolding is_any_list is_list is_leaf_list set_min set_max set_states
  same_begun e = (refl, refl, ground arith)

  ended_lem :
      (e : Entry)
      → e.config ≡ ts_unset
      → e.mandatory ≡ ts_unset
      → e.default ≡ []
      → (spec.default ≡ []) ⊎ ((is_leaf_list e ≡ false) × (d : Bytes) × (spec.default ≡ d ∷ []))
      → (let added = bind_bounds (begun e) in
          with_default
            (delete_default (is_leaf_list added) spec.default added.default)
            (record added {
              config = deleted spec.config added.config;
              mandatory = deleted spec.mandatory added.mandatory;
            }))
        ≡ (bind_bounds e, [])
  unfolding with_default delete_default set_states changed deleted set_min set_max
  ended_lem e c m f (inl q) = ground (arith, same_begun e)
  ended_lem e c m f (inr (l, d, q)) = ground (arith, same_begun e, text_eq_iff d d)

-- The node has nothing of what the statement adds, and can take it: one default at most, and none for
-- a leaf-list. The statement has no units and no type, which a deletion leaves alone.
pub record IsFree (spec e : Entry) : Type 0 where
  pub config : e.config ≡ ts_unset
  pub mandatory : e.mandatory ≡ ts_unset
  pub default : e.default ≡ []
  pub one_default :
      (spec.default ≡ []) ⊎ ((is_leaf_list e ≡ false) × (d : Bytes) × (spec.default ≡ d ∷ []))
  pub units : spec.units ≡ []
  pub type : spec.type ≡ none
  pub bounds : IsUnbounded spec e

-- A deviate delete takes back what a deviate add with the same statement did to a node that had
-- nothing of it; both end without an error.
pub deviate_delete-deviate_add :
    (spec e : Entry)
    → IsFree spec e
    → (added : Entry) × (deviate_add spec e ≡ (added, [])) × (deviate_delete spec added ≡ (e, []))
unfolding deviate_add deviate_delete is_any_list is_list is_leaf_list set_states
deviate_delete-deviate_add spec e h = (
  bind_bounds spec (begun spec e),
  ap (λ (r : Entry × List DeviateError). set_bounds spec r.0 r.1)
        (begun_lem spec e h.default h.one_default)
      ∙ set_bounds_free spec (begun spec e) h.bounds h.units h.type,
  ap (λ (r : Entry × List DeviateError). delete_bounds spec r.0 r.1)
        (ended_lem spec e h.config h.mandatory h.default h.one_default)
      ∙ delete_bounds_free spec e h.bounds,
)
