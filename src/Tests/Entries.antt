-- ===== src/Tests/Entries.antt =====
-- Runs of the models of pkg/yang/entry.go.
use goyang.Base.{
  ◌≡◌, refl, Bool, true, false, [], ◌∷◌, none, some, Bytes, codes, arith, inl, inr, if◌then◌else◌,
  ◌==◌,
}
use goyang.Base.Result.{ok, err}
use goyang.Base.Strconv.{format_uint}
use goyang.Entry.{
  Entry, EntryKind, leaf_entry, choice_entry, directory_entry, deviate_entry, ts_unset, ts_true,
  ListAttr, is_leaf_list, sem_check_max_elements, sem_check_min_elements, is_zero, max_uint64,
}
use goyang.Entry.Tree.{
  Tree, tree, no_children, child, no_rpc, rpc, channel, no_channel, dup, fix_choice, entry_of,
}
use goyang.Entry.Tree.Choices.{is_fixed, data_names, rpcs, fix_choice_lem}
use goyang.Entry.Find.{find_parts}
use goyang.Entry.Elements.{Within, sem_check_elements_bounds}
use goyang.Entry.Errors.{less}
use goyang.Entry.Deviate.{deviate_add, deviate_delete}
use goyang.Entry.Deviate.Undo.{deviate_delete-deviate_add}

abbrev blank : Bytes → EntryKind → Bool → Entry
blank name kind has_dir = record {
  name = name;
  kind = kind;
  source = codes "m.yang:1:1";
  leaf_mandatory = none;
  default = [];
  units = [];
  errors = [];
  config = ts_unset;
  mandatory = ts_unset;
  prefix = none;
  namespace = none;
  exts = [];
  type = none;
  list_attr = none;
  has_dir = has_dir;
  has_min_elements = false;
  has_max_elements = false;
}

abbrev leaf : Bytes → Tree
leaf name = tree (blank name leaf_entry false) no_children no_rpc

-- A container with a choice between two leaves.
abbrev pick : Tree
pick =
    tree (blank (codes "pick") choice_entry true)
      (child (codes "a") (leaf (codes "a")) (child (codes "b") (leaf (codes "b")) no_children))
      no_rpc

abbrev top : Tree
top = tree (blank (codes "top") directory_entry true) (child (codes "pick") pick no_children) no_rpc

not_fixed : is_fixed top ≡ false
unfolding goyang.Entry.Tree.needs_cases goyang.Entry.is_case entry_of
not_fixed = refl

fix_choice_lem_example :
    (is_fixed (fix_choice top) ≡ true)
    × (fix_choice (fix_choice top) ≡ fix_choice top)
    × (data_names (fix_choice top) ≡ data_names top)
    × (rpcs (fix_choice top) ≡ rpcs top)
fix_choice_lem_example = fix_choice_lem top

find_down :
    find_parts (λ k. []) (codes "m:pick" ∷ codes "m:b" ∷ codes ".." ∷ []) (top ∷ [])
    ≡ pick ∷ top ∷ []
unfolding find_parts
find_down = refl

-- An RPC whose input is a choice between two leaves.
abbrev call : Tree
call =
    tree (blank (codes "call") directory_entry true) no_children (rpc 0 (channel pick) no_channel)

-- The choice below the input gets no cases.
call_stays : fix_choice call ≡ call
unfolding fix_choice
call_stays = refl

-- From the input of a duplicate the walk goes back to the RPC that was duplicated.
dup_back :
    find_parts (λ k. call ∷ []) (codes "input" ∷ codes ".." ∷ []) (dup call ∷ top ∷ []) ≡ call ∷ []
unfolding find_parts dup
dup_back = refl

sem_check_elements_bounds_example :
    Within 1 (sem_check_max_elements (some (codes "12")))
    × Within 0 (sem_check_min_elements (some (codes "12")))
    × (sem_check_max_elements none ≡ ok max_uint64)
    × (sem_check_max_elements (some (codes "unbounded")) ≡ ok max_uint64)
    × (sem_check_min_elements none ≡ ok 0)
    × (sem_check_min_elements (some (format_uint 7)) ≡ ok 7)
    × (sem_check_max_elements (some (format_uint 7)) ≡ (if 7 == 0 then err is_zero else ok 7))
sem_check_elements_bounds_example = sem_check_elements_bounds (some (codes "12")) 7 (omega arith)

-- The line numbers are compared as numbers.
less_lines : less (codes "m.yang:9:1: x") (codes "m.yang:10:1: x") ≡ true
unfolding less
less_lines = refl

-- A statement with a state and a bound, and a list that has none of them.
abbrev blank_spec : Entry
blank_spec = blank (codes "deviate") deviate_entry true

abbrev blank_list : Entry
blank_list = blank (codes "list") directory_entry true

abbrev spec : Entry
spec = record blank_spec {
  config = ts_true;
  list_attr = some (record { min_elements = 2; max_elements = max_uint64; ordered_by = none });
  has_min_elements = true;
}

abbrev node : Entry
node = record blank_list {
  list_attr = some (record { min_elements = 0; max_elements = max_uint64; ordered_by = none });
}

deviate_delete-deviate_add_example :
    (added : Entry) × (deviate_add spec node ≡ (added, []))
    × (deviate_delete spec added ≡ (node, []))
unfolding goyang.Entry.Deviate.is_any_list
deviate_delete-deviate_add_example = deviate_delete-deviate_add spec node (record {
  config = refl;
  mandatory = refl;
  default = refl;
  one_default = inl refl;
  units = refl;
  type = refl;
  bounds = inr (
    record { min_elements = 0; max_elements = max_uint64; ordered_by = none },
    refl,
    refl,
    inr refl,
    inr refl,
  );
})
