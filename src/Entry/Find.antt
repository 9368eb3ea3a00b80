-- ===== src/Entry/Find.antt =====
-- The walk of `Find` in pkg/yang/entry.go along the parts of a path. A place in the tree is the entry
-- there with the chain of its `Parent` pointers up to the root; the empty list is the nil entry.
--
-- The parent of an entry in `Dir` is the one that holds it. That of an input or an output is the
-- entry that `ToEntry` made for the RPC, which a duplicate of the RPC does not become: its place is
-- an argument, by the number that the RPC has.
use goyang.Base.{ℕ, List, [], ◌∷◌, Option, none, some, Bytes, codes, text_eq, if◌then◌else◌}
use goyang.Entry.Tree.{Tree, tree, no_rpc, rpc, Channel, no_channel, channel, find_child}
use goyang.Modules.Prefix.{split_prefix}

abbrev pub Spot : Type 0
Spot = List Tree

-- `home` is the place of the parent.
unfoldable pub into_channel : Channel → Spot → Spot
into_channel no_channel home = []
into_channel (channel t) home = t ∷ home

-- a part below an RPC: its input or its output; with another part the walk stays where it is
unfoldable pub into_rpc : Bytes → Channel → Channel → Spot → Spot → Spot
unfolding into_channel text_eq
into_rpc part i o home at =
    if text_eq part (codes "input")
    then into_channel i home
    else if text_eq part (codes "output")
    then into_channel o home
    else at

-- a part below another entry: `none` is the return of nil, `some []` goes on with nil
unfoldable pub into_dir : Bytes → Option Tree → Spot → Option Spot
unfolding text_eq
into_dir part found at =
    if text_eq part (codes ".")
    then some at
    else if text_eq part []
    then none
    else if text_eq part (codes "..")
    then none
    else elim found [ none ↦ some [] | some t ↦ some (t ∷ at) ]

module _ (home : ℕ → Spot) where
  -- one round of the loop for an entry
  unfoldable pub find_step : Bytes → Spot → Option Spot
  unfolding into_rpc into_dir split_prefix find_child text_eq
  find_step part [] = none
  find_step part (tree e c no_rpc ∷ up) =
      let name = (split_prefix part).1 in
      if text_eq part (codes ".")
      then some (tree e c no_rpc ∷ up)
      else if text_eq part (codes "..")
      then some up
      else into_dir name (find_child name c) (tree e c no_rpc ∷ up)
  find_step part (tree e c (rpc k i o) ∷ up) =
      if text_eq part (codes ".")
      then some (tree e c (rpc k i o) ∷ up)
      else if text_eq part (codes "..")
      then some up
      else some (into_rpc (split_prefix part).1 i o (home k) (tree e c (rpc k i o) ∷ up))

  unfoldable pub find_parts : List Bytes → Spot → Spot
  unfolding find_step
  find_parts [] at = at
  find_parts (p ∷ ps) at = elim (find_step p at) [ none ↦ [] | some next ↦ find_parts ps next ]
