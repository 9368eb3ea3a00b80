-- ===== src/Entry/Tree/Merging.antt =====
-- `merge` of pkg/yang/entry.go: which children the entry has behind it.
use goyang.Base.{◌≡◌, List, Option, none, some, Bytes}
use goyang.Entry.{Entry}
use goyang.Entry.Tree.{Tree, Children, no_children, child, find_child, adapt}

-- A key of a Go map stands in it once.
abbrev pub AreKeys : Children → Type 0
AreKeys no_children = Unit
AreKeys (child k t c) = (find_child k c ≡ none) × AreKeys c

-- What `merge` finds behind it: the entry's own child, or the adapted one of the other entry.
abbrev pub merged : Option Tree → Option Tree → (Tree → Tree) → Option Tree
merged (some t) other f = some t
merged none none f = none
merged none (some t) f = some (f t)

module _ (prefix namespace : Option Bytes) (exts : List Bytes) where
  abbrev into : Tree → Tree
  into = adapt prefix namespace exts
