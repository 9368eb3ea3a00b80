-- ===== src/Tests/Modules.antt =====
-- Runs of the model of pkg/yang/modules.go.
use goyang.Base.{
  ℕ, ◌≡◌, ◌↔◌, refl, false, List, [], ◌∷◌, none, some, Bytes, codes, arith, All, subst, text_lt,
  inl, inr,
}
use goyang.Base.Result.{Result, ok, ok_same}
use goyang.Base.Maps.{lookup}
use goyang.Enum.{text_keys}
use goyang.Modules.{
  Module, Modules, module_kind, ModuleError, Node, module_node, Reader, full_name_at, new_modules,
  read, find_module, full_name,
}
use goyang.Modules.Catalog.{name_at}
use goyang.Modules.Tables.{IsIndexed, In}
use goyang.Modules.Adding.{IsPlainResult, IsPlainReader, read-IsIndexed, new_modules-IsIndexed}
use goyang.Modules.Finding.{find_module_latest}
use goyang.Modules.Namespace.{
  find_module_by_namespace, IsUnique, IsCached, find_module_by_namespace_lem,
}
use goyang.Modules.Inclusion.{include_all}
use goyang.Modules.Inclusion.Room.{IsNamed, IsNamedReader, Fits}
use goyang.Modules.Inclusion.Total.{include_all_returns}

abbrev plain_module : Bytes → Bytes → List Bytes → Module
plain_module name ns revisions = record {
  name = name;
  belongs_to = none;
  namespace = ns;
  prefix = some name;
  revision = revisions;
  includes = [];
  imports = [];
  identity = [];
}

abbrev old_foo : Module
old_foo = plain_module (codes "foo") (codes "urn:foo") (codes "2019-01-01" ∷ [])

abbrev new_foo : Module
new_foo =
    plain_module (codes "foo") (codes "urn:foo") (codes "2020-06-01" ∷ codes "2019-01-01" ∷ [])

abbrev bare_bar : Module
bare_bar = plain_module (codes "bar") (codes "urn:bar") []

abbrev bar : Module
bar = record bare_bar {
  imports =
      record { name = codes "foo"; prefix = codes "f"; revision_date = none; linked = none } ∷ [];
}

abbrev nodes : List (Result ModuleError Node)
nodes = ok (module_node new_foo) ∷ ok (module_node old_foo) ∷ ok (module_node bar) ∷ []

-- Every name reads the same three modules.
abbrev reader : Reader
reader name = ok nodes

abbrev state : Modules
state = (read reader new_modules (codes "all")).0

reader-IsPlain : IsPlainReader reader
reader-IsPlain name ns e = subst (All IsPlainResult) (ok_same _ _ e) (refl, (refl, (refl, tt)))

-- The bare name is that of the newest revision.
bare_name : lookup (codes "foo") state.modules ≡ some 0
unfolding lookup read new_modules text_lt
bare_name = refl

read-IsIndexed_example : IsIndexed (read reader new_modules (codes "all")).0
read-IsIndexed_example =
    read-IsIndexed reader reader-IsPlain new_modules (codes "all") new_modules-IsIndexed

find_module_latest_example :
    (a : ℕ) × (find_module reader module_kind (name_at state.store 1) none state ≡ (some a, state))
    × ((c : ℕ)
        → In state.store module_kind c
        → name_at state.store c ≡ name_at state.store 1
        → text_lt (full_name_at state.store a) (full_name_at state.store c) ≡ false)
unfolding read new_modules text_lt
find_module_latest_example =
    find_module_latest reader state module_kind read-IsIndexed_example 1 (old_foo, refl, refl)

abbrev one_foo : Modules
one_foo = (read (λ n. ok (ok (module_node new_foo) ∷ [])) new_modules (codes "foo")).0

one_foo-IsCached : IsCached one_foo
unfolding read lookup new_modules text_lt
one_foo-IsCached ns r l = absurd (ground arith)

find_module_by_namespace_lem_example :
    ((r : ℕ)
      → ((find_module_by_namespace one_foo (codes "urn:foo")).0 ≡ ok r)
        ↔ IsUnique one_foo (codes "urn:foo") r)
    × IsCached (find_module_by_namespace one_foo (codes "urn:foo")).1
find_module_by_namespace_lem_example =
    find_module_by_namespace_lem one_foo one_foo-IsCached (codes "urn:foo")

-- foo@2020-06-01, foo@2019-01-01 and bar
abbrev all_names : List Bytes
all_names = codes "foo@2020-06-01" ∷ codes "foo@2019-01-01" ∷ codes "bar" ∷ []

reader-IsNamed : IsNamedReader all_names reader
unfolding full_name text_lt
reader-IsNamed name ns e =
    subst (All (IsNamed all_names)) (ok_same _ _ e)
      (inl refl, (inr (inl refl), (inr (inr (inl refl)), tt)))

state-Fits : Fits all_names state
unfolding read lookup new_modules text_lt
state-Fits = omega arith

include_all_returns_example :
    (s : Modules × List ModuleError) × (include_all reader false 7 (0 ∷ 1 ∷ 2 ∷ []) state ≡ some s)
include_all_returns_example =
    include_all_returns all_names reader reader-IsNamed false (0 ∷ 1 ∷ 2 ∷ []) state state-Fits
