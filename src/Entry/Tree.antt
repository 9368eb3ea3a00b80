-- ===== src/Entry/Tree.antt =====
-- The tree of entries of pkg/yang/entry.go: children, errors, merging, choices and the search for
-- an entry by its path.
pub mod Choices
pub mod Merging
use goyang.Base.{
  ℕ, Bool, true, false, not, ◌&&◌, ◌||◌, List, [], ◌∷◌, ◌++◌, Option, none, some, Bytes, codes,
  text_eq, if◌then◌else◌,
}
use goyang.Base.Strings.{split}
use goyang.Entry.{
  Entry, EntryError, EntryKind, duplicate_key, duplicate_node, unknown_child, TriState, case_entry,
  is_choice, is_case,
}
use goyang.Modules.Prefix.{split_prefix}

mutual
  pub data Tree : Type 0 where
    tree : Entry → Children → Rpc → Tree

  -- `Dir`, in some order
  pub data Children : Type 0 where
    no_children : Children
    child : Bytes → Tree → Children → Children

  -- `RPC`, with the number of the entry that is the `Parent` of its input and its output
  pub data Rpc : Type 0 where
    no_rpc : Rpc
    rpc : ℕ → Channel → Channel → Rpc

  -- `Input` or `Output`
  pub data Channel : Type 0 where
    no_channel : Channel
    channel : Tree → Channel

unfoldable pub entry_of : Tree → Entry
entry_of (tree e c r) = e

unfoldable pub children_of : Tree → Children
children_of (tree e c r) = c

-- `e.Dir[key]`
unfoldable pub find_child : Bytes → Children → Option Tree
unfolding text_eq
find_child key no_children = none
find_child key (child k t c) = if text_eq key k then some t else find_child key c

-- `e.Dir[key] = t` for a new key
unfoldable pub put_child : Bytes → Tree → Children → Children
put_child key t no_children = child key t no_children
put_child key t (child k u c) = child k u (put_child key t c)

unfoldable pub remove_child : Bytes → Children → Children
unfolding text_eq
remove_child key no_children = no_children
remove_child key (child k t c) =
    let rest = remove_child key c in if text_eq key k then rest else child k t rest

unfoldable pub note_error : EntryError → Entry → Entry
note_error x e = record e { errors = e.errors ++ x ∷ [] }

-- the method `add`
unfoldable pub add_child : Bytes → Tree → Tree → Tree
unfolding find_child put_child note_error
add_child key t (tree e c r) = elim (find_child key c) [
  | some u ↦ tree (note_error (duplicate_key key) e) c r
  | none ↦ tree e (put_child key t c) r
]

-- the method `delete`
unfoldable pub delete_child : Bytes → Tree → Tree
unfolding find_child remove_child note_error
delete_child key (tree e c r) =
    let e1 : Entry = elim (find_child key c) [
      | some u ↦ e
      | none ↦ note_error (unknown_child key) e
    ] in
    tree e1 (remove_child key c) r

-- The errors that `importErrors` takes over from an entry: its own, then those of its children.
unfoldable mutual
  pub errors_of : Tree → List EntryError
  errors_of (tree e c r) = e.errors ++ errors_in c

  pub errors_in : Children → List EntryError
  errors_in no_children = []
  errors_in (child k t c) = errors_of t ++ errors_in c

-- The errors for which `checkErrors` calls its function, in order: the children's first.
unfoldable mutual
  pub checked_errors : Tree → List EntryError
  checked_errors (tree e c r) = checked_in c ++ e.errors

  pub checked_in : Children → List EntryError
  checked_in no_children = []
  checked_in (child k t c) = checked_errors t ++ checked_in c

unfoldable pub import_errors : Tree → Tree → Tree
unfolding errors_of
import_errors (tree e c r) t = tree (record e { errors = e.errors ++ errors_of t }) c r

-- The duplicate of an entry. What an RPC points to is shared, so the parent of its input and its
-- output is the entry that it was before; the parents of the other entries are where they stand.
unfoldable mutual
  pub dup : Tree → Tree
  dup (tree e c r) = tree e (dup_dir c) r

  pub dup_dir : Children → Children
  dup_dir no_children = no_children
  dup_dir (child k t c) = child k (dup t) (dup_dir c)

-- `de.Dir = nil` for each child
unfoldable pub cut_children : Children → Children
cut_children no_children = no_children
cut_children (child k (tree e c r) cs) =
    child k (tree (record e { has_dir = false }) no_children r) (cut_children cs)

unfoldable pub shallow_dup : Tree → Tree
unfolding cut_children
shallow_dup (tree e c r) = tree e (cut_children c) r

-- the duplicate of a child that `merge` puts into another entry
unfoldable pub adapt : Option Bytes → Option Bytes → List Bytes → Tree → Tree
unfolding dup
adapt prefix namespace exts t = elim (dup t) [
  | tree e c r ↦
      tree
        (record e {
          prefix = elim prefix [ none ↦ e.prefix | some p ↦ some p ];
          namespace = elim namespace [ none ↦ e.namespace | some n ↦ some n ];
          exts = e.exts ++ exts;
        })
        c r
]

-- the loop of `merge` over the children of the other entry
unfoldable pub merge_dir : Option Bytes → Option Bytes → List Bytes → Children → Tree → Tree
unfolding adapt find_child put_child note_error
merge_dir prefix namespace exts no_children t = t
merge_dir prefix namespace exts (child k v vs) (tree e c r) =
    merge_dir prefix namespace exts vs (elim (find_child k c) [
      | some u ↦ tree (note_error (duplicate_node k) e) c r
      | none ↦ tree e (put_child k (adapt prefix namespace exts v) c) r
    ])

unfoldable pub merge : Option Bytes → Option Bytes → Tree → Tree → Tree
unfolding merge_dir import_errors
merge prefix namespace other t =
    merge_dir prefix namespace (entry_of other).exts (children_of other) (import_errors t other)

-- the case that `FixChoice` puts around a child of a choice
unfoldable pub new_case : Entry → Entry
new_case ce = record {
  name = ce.name;
  kind = case_entry;
  source = ce.source;
  leaf_mandatory = none;
  default = [];
  units = [];
  errors = [];
  config = ce.config;
  mandatory = TriState.ts_unset;
  prefix = ce.prefix;
  namespace = none;
  exts = [];
  type = none;
  list_attr = none;
  has_dir = true;
  has_min_elements = false;
  has_max_elements = false;
}

unfoldable pub wrap_case : Tree → Tree
unfolding new_case
wrap_case (tree e c r) = tree (new_case e) (child e.name (tree e c r) no_children) no_rpc

-- `e.Kind == ChoiceEntry && len(e.Errors) == 0`
unfoldable pub needs_cases : Entry → Bool
unfolding is_choice
needs_cases e = is_choice e && elim e.errors [ [] ↦ true | x ∷ xs ↦ false ]

-- `FixChoice`. The program puts cases around the children and then goes down through them; going
-- down first and putting the case around the result gives the same tree.
unfoldable mutual
  unfolding needs_cases wrap_case is_case entry_of

  pub fix_choice : Tree → Tree
  fix_choice (tree e c r) = tree e (fix_dir (needs_cases e) c) r

  pub fix_dir : Bool → Children → Children
  fix_dir wraps no_children = no_children
  fix_dir wraps (child k t c) =
      let t1 = fix_choice t in
      let rest = fix_dir wraps c in
      child k (if wraps && not (is_case (entry_of t)) then wrap_case t1 else t1) rest
