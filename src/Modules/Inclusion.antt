-- ===== src/Modules/Inclusion.antt =====
-- `include` of pkg/yang/modules.go: the modules that a module includes and imports, visited once
-- each and linked. `none` is a run that has not ended within its fuel.
pub mod Room
pub mod Kept
pub mod Total
use goyang.Base.{
  ℕ, zero, suc, Bool, true, false, List, [], ◌∷◌, map, Option, none, some, Bytes, get_elem?,
  update_at, is_in,
}
use goyang.Base.Options.{◌>>=◌}
use goyang.Modules.{
  Module, Modules, ModuleKind, module_kind, submodule_kind, ModuleError, no_such_module,
  no_such_submodule, Reader, find_module,
}

-- What an include or import statement says: a name and perhaps a revision date.
abbrev pub Link : Type 0
Link = Bytes × Option Bytes

unfoldable pub include_links : Module → List Link
include_links m = map (λ i. (i.name, i.revision_date)) m.includes

unfoldable pub import_links : Module → List Link
import_links m = map (λ i. (i.name, i.revision_date)) m.imports

-- `i.Module = im` for the statement with the index `i` of the module at `a`
unfoldable pub link : ModuleKind → ℕ → ℕ → ℕ → List Module → List Module
link submodule_kind a i b =
    update_at a
      (λ m. record m { includes = update_at i (λ x. record x { linked = some b }) m.includes })
link module_kind a i b =
    update_at a
      (λ m. record m { imports = update_at i (λ x. record x { linked = some b }) m.imports })

unfoldable pub no_such : ModuleKind → Bytes → ModuleError
no_such submodule_kind = no_such_submodule
no_such module_kind = no_such_module

-- The state that a run leaves, and the error that stopped it.
abbrev pub Run : Type 0
Run = Option (Modules × Option ModuleError)

module _ (reader : Reader) (ignore : Bool) where
  -- One of the two loops of `include`: `visit` is the recursive call, `i` the index of the first
  -- statement. Includes look for submodules, imports for modules.
  unfoldable pub follow : (Modules → ℕ → Run) → ModuleKind → ℕ → ℕ → List Link → Modules → Run
  unfolding link no_such find_module
  follow visit k a i [] ms = some (ms, none)
  follow visit k a i ((name, date) ∷ ls) ms =
      let found = find_module reader k name date ms in
      elim found.0 [
        | none ↦ elim ignore [
          | true ↦ follow visit k a (suc i) ls found.1
          | false ↦ some (found.1, some (no_such k name))
        ]
        | some b ↦ visit found.1 b >>= λ (ms1, e). elim e [
          | some x ↦ some (ms1, some x)
          | none ↦ follow visit k a (suc i) ls (record ms1 { store = link k a i b ms1.store })
        ]
      ]

  -- the body of `include` behind the test of the visited modules
  unfoldable pub follow_both : (Modules → ℕ → Run) → ℕ → Module → Modules → Run
  unfolding follow include_links import_links
  follow_both visit a m ms = do
    (ms1, e) ← follow visit submodule_kind a 0 (include_links m) ms
    elim e [
      | some x ↦ some (ms1, some x)
      | none ↦ follow visit module_kind a 0 (import_links m) ms1
    ]

  unfoldable pub include : ℕ → Modules → ℕ → Run
  unfolding follow_both
  include zero ms a = none
  include (suc fuel) ms a = elim (is_in a ms.included) [
    | true ↦ some (ms, none)
    | false ↦
        let ms1 = record ms { included = a ∷ ms.included } in
        elim (get_elem? ms.store a) [
          | none ↦ some (ms1, none)
          | some m ↦ follow_both (include fuel) a m ms1
        ]
  ]

  -- the loop of `process` over the modules that were read; an error is noted and the loop goes on
  unfoldable pub include_all : ℕ → List ℕ → Modules → Option (Modules × List ModuleError)
  unfolding include
  include_all fuel [] ms = some (ms, [])
  include_all fuel (a ∷ todo) ms = do
    (ms1, e) ← include fuel ms a
    (ms2, es) ← include_all fuel todo ms1
    some (ms2, elim e [ none ↦ es | some x ↦ x ∷ es ])
