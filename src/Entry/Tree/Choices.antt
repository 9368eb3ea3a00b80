-- ===== src/Entry/Tree/Choices.antt =====
-- What `FixChoice` of pkg/yang/entry.go does to a tree of entries.
use mathlib.Core.List.{append-nil}
use goyang.Base.{
  ◌≡◌, refl, ap, Bool, true, false, not, ◌&&◌, List, [], ◌∷◌, ◌++◌, Bytes, arith, if◌then◌else◌,
  either, ◌||◌, ◌∙◌,
}
use goyang.Entry.{is_choice, is_case}
use goyang.Entry.Tree.{
  Tree, tree, Children, no_children, child, Rpc, no_rpc, rpc, entry_of, wrap_case, needs_cases,
  fix_choice, fix_dir,
}

-- Every choice without errors has cases only, in the tree that `Dir` spans; what is below the input
-- and the output of an RPC is not looked at.
abbrev mutual
  pub is_fixed : Tree → Bool
  is_fixed (tree e c r) = are_fixed (needs_cases e) c

  pub are_fixed : Bool → Children → Bool
  are_fixed wraps no_children = true
  are_fixed wraps (child k t c) =
      (not wraps || is_case (entry_of t)) && is_fixed t && are_fixed wraps c

-- The names of the nodes of the data tree that `Dir` spans, depth first: choices and cases are left
-- out.
abbrev mutual
  pub data_names : Tree → List Bytes
  data_names (tree e c r) = if is_choice e || is_case e then data_in c else e.name ∷ data_in c

  pub data_in : Children → List Bytes
  data_in no_children = []
  data_in (child k t c) = data_names t ++ data_in c

-- What is RPC in the tree, with all that is below the input and the output, depth first.
abbrev own_rpc : Rpc → List Rpc
own_rpc no_rpc = []
own_rpc (rpc k i o) = rpc k i o ∷ []

abbrev mutual
  pub rpcs : Tree → List Rpc
  rpcs (tree e c r) = own_rpc r ++ rpcs_in c

  pub rpcs_in : Children → List Rpc
  rpcs_in no_children = []
  rpcs_in (child k t c) = rpcs t ++ rpcs_in c

entry_of-fix_choice : (t : Tree) → entry_of (fix_choice t) ≡ entry_of t
unfolding entry_of fix_choice
entry_of-fix_choice (tree e c r) = refl

is_fixed-wrap_case : (t : Tree) → is_fixed (wrap_case t) ≡ is_fixed t
unfolding wrap_case needs_cases is_choice
is_fixed-wrap_case (tree e c r) = ground arith

is_case-wrap_case : (t : Tree) → is_case (entry_of (wrap_case t)) ≡ true
unfolding wrap_case entry_of is_case
is_case-wrap_case (tree e c r) = refl

module _ (wraps : Bool) (t : Tree) where
  -- what `FixChoice` makes of a child
  abbrev fixed_child : Tree
  fixed_child =
      if wraps && not (is_case (entry_of t)) then wrap_case (fix_choice t) else fix_choice t

  child_fixed :
      is_fixed (fix_choice t) ≡ true
      → ((not wraps || is_case (entry_of fixed_child)) ≡ true) × (is_fixed fixed_child ≡ true)
  child_fixed h = ground (
    arith,
    is_fixed-wrap_case (fix_choice t),
    is_case-wrap_case (fix_choice t),
    ap is_case (entry_of-fix_choice t),
  )

mutual
  unfolding fix_choice

  is_fixed-fix_choice : (t : Tree) → is_fixed (fix_choice t) ≡ true
  is_fixed-fix_choice (tree e c r) = are_fixed-fix_dir (needs_cases e) c

  are_fixed-fix_dir : (wraps : Bool) (c : Children) → are_fixed wraps (fix_dir wraps c) ≡ true
  are_fixed-fix_dir wraps no_children = refl
  are_fixed-fix_dir wraps (child k t c) =
      let (cases, fixed) = child_fixed wraps t (is_fixed-fix_choice t) in
      rw (cases, fixed, are_fixed-fix_dir wraps c) refl

mutual
  unfolding fix_choice

  fix_choice_fixed : (t : Tree) → is_fixed t ≡ true → fix_choice t ≡ t
  fix_choice_fixed (tree e c r) h = ap (λ d. tree e d r) (fix_dir_fixed (needs_cases e) c h)

  fix_dir_fixed : (wraps : Bool) (c : Children) → are_fixed wraps c ≡ true → fix_dir wraps c ≡ c
  fix_dir_fixed wraps no_children h = refl
  fix_dir_fixed wraps (child k t c) h =
      let same = fix_choice_fixed t (ground arith) in
      let rest = fix_dir_fixed wraps c (ground arith) in
      let stays : (wraps && not (is_case (entry_of t))) ≡ false = ground arith in
      rw (same, rest, stays) refl

data_names-wrap_case : (t : Tree) → data_names (wrap_case t) ≡ data_names t
unfolding wrap_case is_choice is_case
data_names-wrap_case (tree e c r) = append-nil (data_names (tree e c r))

mutual
  unfolding fix_choice

  data_names-fix_choice : (t : Tree) → data_names (fix_choice t) ≡ data_names t
  data_names-fix_choice (tree e c r) = rw (data_in-fix_dir (needs_cases e) c) refl

  data_in-fix_dir : (wraps : Bool) (c : Children) → data_in (fix_dir wraps c) ≡ data_in c
  data_in-fix_dir wraps no_children = refl
  data_in-fix_dir wraps (child k t c) =
      let same = data_names-fix_choice t in
      let names : data_names (fixed_child wraps t) ≡ data_names t =
        either (wraps && not (is_case (entry_of t))) (λ x. data_names x ≡ data_names t)
          (data_names-wrap_case (fix_choice t) ∙ same) same in
      rw (names, data_in-fix_dir wraps c) refl

rpcs-wrap_case : (t : Tree) → rpcs (wrap_case t) ≡ rpcs t
unfolding wrap_case
rpcs-wrap_case (tree e c r) = append-nil (rpcs (tree e c r))

mutual
  unfolding fix_choice

  rpcs-fix_choice : (t : Tree) → rpcs (fix_choice t) ≡ rpcs t
  rpcs-fix_choice (tree e c r) = ap (λ l. own_rpc r ++ l) (rpcs_in-fix_dir (needs_cases e) c)

  rpcs_in-fix_dir : (wraps : Bool) (c : Children) → rpcs_in (fix_dir wraps c) ≡ rpcs_in c
  rpcs_in-fix_dir wraps no_children = refl
  rpcs_in-fix_dir wraps (child k t c) =
      let same = rpcs-fix_choice t in
      let all : rpcs (fixed_child wraps t) ≡ rpcs t =
        either (wraps && not (is_case (entry_of t))) (λ x. rpcs x ≡ rpcs t)
          (rpcs-wrap_case (fix_choice t) ∙ same) same in
      ap (λ l. l ++ rpcs_in (fix_dir wraps c)) all ∙ ap (λ l. rpcs t ++ l) (rpcs_in-fix_dir wraps c)

-- Behind FixChoice every choice without errors has cases only as its children, in the tree that Dir
-- spans; a second call changes nothing; the nodes of that data tree are the same, in the same order;
-- and so is all that is below the input and the output of an RPC, choices without cases included.
pub fix_choice_lem :
    (t : Tree)
    → (is_fixed (fix_choice t) ≡ true)
      × (fix_choice (fix_choice t) ≡ fix_choice t)
      × (data_names (fix_choice t) ≡ data_names t)
      × (rpcs (fix_choice t) ≡ rpcs t)
fix_choice_lem t = (
  is_fixed-fix_choice t,
  fix_choice_fixed (fix_choice t) (is_fixed-fix_choice t),
  data_names-fix_choice t,
  rpcs-fix_choice t,
)
