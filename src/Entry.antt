-- ===== src/Entry.antt =====
-- Entries of pkg/yang/entry.go: their kinds and states, the tree, and what is asked of one entry.
--
-- An entry is a tree; its parent is the entry that holds it. A function that goes to parents takes
-- the entries from the one in question up to the root. The map of children is a list of keys and
-- entries, where `has_dir` says whether the Go map is there (not nil).
pub mod Tree
pub mod Deviate
pub mod Find
pub mod Errors
pub mod Elements
pub mod Augment
use goyang.Base.{
  ℕ, Bool, true, false, not, ◌&&◌, ◌||◌, List, [], ◌∷◌, ◌++◌, Option, none, some, Bytes, codes,
  text_eq, length, ◌-◌, ◌^◌, ◌==◌, if◌then◌else◌,
}
use goyang.Base.Result.{Result, ok, err}
use goyang.Base.Strconv.{ConvError, parse_uint10, format_uint}
use goyang.YangType.{YangType, yang_type}

pub data TriState : Type 0 where
  ts_unset ts_true ts_false : TriState

-- `(TriState).Value`
unfoldable pub tri_value : TriState → Bool
tri_value ts_true = true
tri_value ts_unset = false
tri_value ts_false = false

unfoldable pub tri_string : TriState → Bytes
tri_string ts_unset = codes "unset"
tri_string ts_true = codes "true"
tri_string ts_false = codes "false"

pub data EntryKind : Type 0 where
  leaf_entry directory_entry any_data_entry any_xml_entry case_entry : EntryKind
  choice_entry input_entry notification_entry output_entry deviate_entry : EntryKind

unfoldable pub entry_kind_to_name : EntryKind → Bytes
entry_kind_to_name leaf_entry = codes "Leaf"
entry_kind_to_name directory_entry = codes "Directory"
entry_kind_to_name any_data_entry = codes "AnyData"
entry_kind_to_name any_xml_entry = codes "AnyXML"
entry_kind_to_name case_entry = codes "Case"
entry_kind_to_name choice_entry = codes "Choice"
entry_kind_to_name input_entry = codes "Input"
entry_kind_to_name notification_entry = codes "Notification"
entry_kind_to_name output_entry = codes "Output"
entry_kind_to_name deviate_entry = codes "Deviate"

-- `k == CaseEntry` and the other tests of kinds
unfoldable pub is_leaf_kind : EntryKind → Bool
is_leaf_kind leaf_entry = true
is_leaf_kind _ = false

unfoldable pub is_directory_kind : EntryKind → Bool
is_directory_kind directory_entry = true
is_directory_kind _ = false

unfoldable pub is_choice_kind : EntryKind → Bool
is_choice_kind choice_entry = true
is_choice_kind _ = false

unfoldable pub is_case_kind : EntryKind → Bool
is_case_kind case_entry = true
is_case_kind _ = false

unfoldable pub is_output_kind : EntryKind → Bool
is_output_kind output_entry = true
is_output_kind _ = false

abbrev pub max_uint64 : ℕ
max_uint64 = 2 ^ 64 - 1

pub record ListAttr : Type 0 where
  pub min_elements : ℕ
  pub max_elements : ℕ
  pub ordered_by : Option Bytes

unfoldable pub new_default_list_attr : ListAttr
new_default_list_attr = record { min_elements = 0; max_elements = max_uint64; ordered_by = none }

-- The errors that the operations below note; those of other code are texts.
pub data EntryError : Type 0 where
  other : Bytes → EntryError
  duplicate_key duplicate_node unknown_child : Bytes → EntryError

-- The fields of an `Entry` that the operations below read or write, but the children. The base node
-- is there as its location, its name, and, for a leaf, its `mandatory` statement.
pub record Entry : Type 0 where
  pub name : Bytes
  pub kind : EntryKind
  pub source : Bytes
  pub leaf_mandatory : Option (Option Bytes)
  pub default : List Bytes
  pub units : Bytes
  pub errors : List EntryError
  pub config : TriState
  pub mandatory : TriState
  pub prefix : Option Bytes
  pub namespace : Option Bytes
  pub exts : List Bytes
  pub type : Option YangType
  pub list_attr : Option ListAttr
  pub has_dir : Bool
  pub has_min_elements : Bool
  pub has_max_elements : Bool

abbrev is_some {ℓ} : {A : Type ℓ} → Option A → Bool
is_some none = false
is_some (some a) = true

unfoldable pub is_dir : Entry → Bool
is_dir e = e.has_dir

unfoldable pub is_leaf : Entry → Bool
unfolding is_dir is_leaf_kind
is_leaf e = not (is_dir e) && is_leaf_kind e.kind && not (is_some e.list_attr)

unfoldable pub is_leaf_list : Entry → Bool
unfolding is_dir is_leaf_kind
is_leaf_list e = not (is_dir e) && is_leaf_kind e.kind && is_some e.list_attr

unfoldable pub is_list : Entry → Bool
unfolding is_dir
is_list e = is_dir e && is_some e.list_attr

unfoldable pub is_container : Entry → Bool
unfolding is_directory_kind
is_container e = is_directory_kind e.kind && not (is_some e.list_attr)

unfoldable pub is_choice : Entry → Bool
unfolding is_choice_kind
is_choice e = is_choice_kind e.kind

unfoldable pub is_case : Entry → Bool
unfolding is_case_kind
is_case e = is_case_kind e.kind

-- `ReadOnly` of the first of the entries, those behind it are its parents
unfoldable pub read_only : List Entry → Bool
unfolding is_output_kind tri_value
read_only [] = false
read_only (e ∷ parents) =
    let above = read_only parents in
    if is_output_kind e.kind then true else elim e.config [
      | ts_unset ↦ above
      | ts_true ↦ not (tri_value ts_true)
      | ts_false ↦ not (tri_value ts_false)
    ]

-- `Path`
unfoldable pub path : List Entry → Bytes
path [] = []
path (e ∷ parents) = path parents ++ (b'/' ∷ e.name)

-- the text of a statement, none where it is missing
unfoldable pub tristate_value : Option Bytes → Result Bytes TriState
unfolding text_eq
tristate_value none = ok ts_unset
tristate_value (some v) =
    if text_eq v (codes "true")
    then ok ts_true
    else if text_eq v (codes "false")
    then ok ts_false
    else err v

pub data ElementsError : Type 0 where
  not_a_number : ConvError → ElementsError
  is_zero : ElementsError

unfoldable pub sem_check_max_elements : Option Bytes → Result ElementsError ℕ
unfolding text_eq parse_uint10
sem_check_max_elements none = ok max_uint64
sem_check_max_elements (some v) =
    let read : Result ElementsError ℕ = elim (parse_uint10 v) [
      | err e ↦ err (not_a_number e)
      | ok n ↦ if n == 0 then err is_zero else ok n
    ] in
    if text_eq v (codes "unbounded") then ok max_uint64 else read

unfoldable pub sem_check_min_elements : Option Bytes → Result ElementsError ℕ
unfolding parse_uint10
sem_check_min_elements none = ok 0
sem_check_min_elements (some v) = elim (parse_uint10 v) [
  | err e ↦ err (not_a_number e)
  | ok n ↦ ok n
]

-- whether the default of the type stands for the entry: it is a leaf that is not mandatory, or a
-- leaf-list without a least number of elements
unfoldable pub takes_default : Entry → Bool
unfolding is_leaf is_leaf_list text_eq
takes_default e = elim e.leaf_mandatory [
  | none ↦ false
  | some m ↦
      is_leaf e && elim m [ none ↦ true | some v ↦ text_eq v (codes "false") ]
      || is_leaf_list e && elim e.list_attr [ none ↦ false | some a ↦ a.min_elements == 0 ]
]

-- `DefaultValues`: those of the entry, else that of its type for a leaf that is not mandatory
unfoldable pub default_values : Entry → List Bytes
unfolding takes_default
default_values e = elim e.default [
  | d ∷ ds ↦ d ∷ ds
  | [] ↦ elim e.type [
    | none ↦ []
    | some (yang_type t ts) ↦ if t.has_default && takes_default e then t.default ∷ [] else []
  ]
]

unfoldable pub single_default_value : Entry → Bytes × Bool
unfolding default_values
single_default_value e = elim (default_values e) [
  | [] ↦ ([], false)
  | d ∷ ds ↦ elim ds [ [] ↦ (d, true) | c ∷ cs ↦ ([], false) ]
]
