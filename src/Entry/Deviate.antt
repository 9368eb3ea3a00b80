-- ===== src/Entry/Deviate.antt =====
-- Deviations of pkg/yang/entry.go: what `ApplyDeviate` makes of the entry that a deviation names.
pub mod Bounds
pub mod Undo
use goyang.Base.{
  ℕ, Bool, true, false, not, ◌&&◌, ◌||◌, List, [], ◌∷◌, ◌++◌, Option, none, some, Bytes, codes,
  text_eq, ◌==◌, if◌then◌else◌,
}
use mathlib.Core.Option
use goyang.Base.Result.{Result, ok, err}
use goyang.Entry.{
  Entry, ListAttr, TriState, ts_unset, ts_true, ts_false, is_list, is_leaf_list, max_uint64,
}
use goyang.Entry.Tree.{Tree, delete_child}

pub data DeviationType : Type 0 where
  deviation_unset deviation_not_supported deviation_add : DeviationType
  deviation_replace deviation_delete : DeviationType

unfoldable pub from_deviation : DeviationType → Bytes
from_deviation deviation_not_supported = codes "not-supported"
from_deviation deviation_add = codes "add"
from_deviation deviation_replace = codes "replace"
from_deviation deviation_delete = codes "delete"
from_deviation deviation_unset = codes "unknown"

unfoldable pub to_deviation : Bytes → Option DeviationType
unfolding text_eq
to_deviation s =
    if text_eq s (codes "not-supported")
    then some deviation_not_supported
    else if text_eq s (codes "add")
    then some deviation_add
    else if text_eq s (codes "replace")
    then some deviation_replace
    else if text_eq s (codes "delete")
    then some deviation_delete
    else none

pub data DeviateError : Type 0 where
  more_than_one_default has_a_default min_on_non_list max_on_non_list no_parent : DeviateError
  default_of_leaf_list no_default other_default other_min other_max : DeviateError

-- `devSpec.Config != TSUnset`, else the state of the node stays
unfoldable pub changed : TriState → TriState → TriState
changed ts_unset old = old
changed ts_true old = ts_true
changed ts_false old = ts_false

-- the state behind a deletion
unfoldable pub deleted : TriState → TriState → TriState
deleted ts_unset old = old
deleted ts_true old = ts_unset
deleted ts_false old = ts_unset

unfoldable pub is_any_list : Entry → Bool
unfolding is_list is_leaf_list
is_any_list e = is_list e || is_leaf_list e

-- the default of a node behind `deviate add` with the defaults of the statement
unfoldable pub add_default : Bool → List Bytes → List Bytes → Result DeviateError (List Bytes)
add_default leaf_list [] old = ok old
add_default true (d ∷ ds) old = ok (old ++ d ∷ ds)
add_default false (d ∷ []) [] = ok (d ∷ [])
add_default false (d ∷ []) (o ∷ os) = err has_a_default
add_default false (d ∷ c ∷ ds) old = err more_than_one_default

-- that behind `deviate replace`
unfoldable pub replace_default : List Bytes → List Bytes → List Bytes
replace_default [] old = old
replace_default (d ∷ ds) old = d ∷ ds

-- that behind `deviate delete`
unfoldable pub delete_default : Bool → List Bytes → List Bytes → Result DeviateError (List Bytes)
unfolding text_eq
delete_default leaf_list [] old = ok old
delete_default true (d ∷ ds) old = err default_of_leaf_list
delete_default false (d ∷ ds) [] = err no_default
delete_default false (d ∷ ds) (o ∷ os) = if text_eq d o then ok [] else err other_default

-- the node with a new default, or with the old one and an error
unfoldable pub with_default : Result DeviateError (List Bytes) → Entry → Entry × List DeviateError
with_default (ok ds) e = (record e { default = ds }, [])
with_default (err x) e = (e, x ∷ [])

-- `ListAttr.MinElements = n`, and the same for the other bound
unfoldable pub set_min : ℕ → Entry → Entry
set_min n e = record e {
  list_attr = Option.map {A = ListAttr} (λ a. record a { min_elements = n }) e.list_attr;
}

unfoldable pub set_max : ℕ → Entry → Entry
set_max n e = record e {
  list_attr = Option.map {A = ListAttr} (λ a. record a { max_elements = n }) e.list_attr;
}

unfoldable pub min_of : Entry → ℕ
min_of e = elim e.list_attr [ none ↦ 0 | some a ↦ a.min_elements ]

unfoldable pub max_of : Entry → ℕ
max_of e = elim e.list_attr [ none ↦ 0 | some a ↦ a.max_elements ]

-- The part of a `deviate add` or `deviate replace` behind the bounds: units and type.
unfoldable pub set_rest : Entry → Entry → Entry
set_rest spec e = record e {
  units = elim spec.units [ [] ↦ e.units | c ∷ cs ↦ c ∷ cs ];
  type = elim spec.type [ none ↦ e.type | some t ↦ some t ];
}

-- The bounds and the rest. A bound for a node that is no list ends the statement with an error.
unfoldable pub set_bounds : Entry → Entry → List DeviateError → Entry × List DeviateError
unfolding is_any_list set_min set_max min_of max_of set_rest
set_bounds spec e es =
    let e1 = if spec.has_min_elements then set_min (min_of spec) e else e in
    let e2 = if spec.has_max_elements then set_max (max_of spec) e1 else e1 in
    if spec.has_min_elements && not (is_any_list e)
    then (e, es ++ min_on_non_list ∷ [])
    else if spec.has_max_elements && not (is_any_list e1)
    then (e1, es ++ max_on_non_list ∷ [])
    else (set_rest spec e2, es)

unfoldable pub set_states : Entry → Entry → Entry
unfolding changed
set_states spec e = record e {
  config = changed spec.config e.config;
  mandatory = changed spec.mandatory e.mandatory;
}

-- `deviate add`: the node behind the statement, and the errors
unfoldable pub deviate_add : Entry → Entry → Entry × List DeviateError
unfolding set_states with_default add_default is_leaf_list set_bounds
deviate_add spec e =
    let r =
      with_default (add_default (is_leaf_list e) spec.default e.default) (set_states spec e) in
    set_bounds spec r.0 r.1

unfoldable pub deviate_replace : Entry → Entry → Entry × List DeviateError
unfolding set_states replace_default set_bounds
deviate_replace spec e =
    set_bounds spec
      (record (set_states spec e) { default = replace_default spec.default e.default }) []

-- The bounds of a `deviate delete` become those of a list without bounds; that they were others than
-- the statement says is an error.
unfoldable pub delete_bounds : Entry → Entry → List DeviateError → Entry × List DeviateError
unfolding is_any_list set_min set_max min_of max_of
delete_bounds spec e es =
    let es1 =
      if spec.has_min_elements && not (min_of e == min_of spec) then es ++ other_min ∷ [] else es in
    let e1 = if spec.has_min_elements then set_min 0 e else e in
    let es2 =
      if spec.has_max_elements && not (max_of e1 == max_of spec)
      then es1 ++ other_max ∷ []
      else es1 in
    let e2 = if spec.has_max_elements then set_max max_uint64 e1 else e1 in
    if spec.has_min_elements && not (is_any_list e)
    then (e, es ++ min_on_non_list ∷ [])
    else if spec.has_max_elements && not (is_any_list e1)
    then (e1, es1 ++ max_on_non_list ∷ [])
    else (e2, es2)

unfoldable pub deviate_delete : Entry → Entry → Entry × List DeviateError
unfolding deleted with_default delete_default is_leaf_list delete_bounds
deviate_delete spec e =
    let states = record e {
      config = deleted spec.config e.config;
      mandatory = deleted spec.mandatory e.mandatory;
    } in
    let r = with_default (delete_default (is_leaf_list e) spec.default e.default) states in
    delete_bounds spec r.0 r.1

-- `deviate not-supported`: the parent of the node without it
unfoldable pub deviate_not_supported : Option Tree → Entry → Result DeviateError Tree
unfolding delete_child
deviate_not_supported none e = err no_parent
deviate_not_supported (some p) e = ok (delete_child e.name p)
