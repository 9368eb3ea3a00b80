-- ===== src/Modules/Namespace.antt =====
-- `FindModuleByNamespace` of pkg/yang/modules.go: the cache, and the search through the modules.
use goyang.Base.{
  ℕ, ◌≡◌, ◌↔◌, ◌⊎◌, inl, inr, List, [], ◌∷◌, Option, none, some, Bytes, text_eq, text_eq_iff, arith,
  get_elem?, ◌==◌, if◌then◌else◌, ⊎_elim, subst, subst₂, Bool-cases, ◌∙◌, Option-cases,
}
use goyang.Base.Maps.{lookup, insert, lookup-insert}
use goyang.Base.Result.{Result, ok, err, Result-cases}
use goyang.Enum.{text_keys}
use goyang.Modules.{Module, Modules, ModuleError, ambiguous_namespace, no_such_namespace}

unfoldable pub namespace_at : List Module → ℕ → Bytes
namespace_at store a = elim (get_elem? store a) [ none ↦ [] | some m ↦ m.namespace ]

-- the loop over the map of modules
unfoldable pub search_ns :
    List Module → Bytes → Option ℕ → List (Bytes × ℕ) → Result ModuleError (Option ℕ)
unfolding namespace_at text_eq
search_ns store ns found [] = ok found
search_ns store ns none ((k, a) ∷ t) =
    let skip = search_ns store ns none t in
    let take = search_ns store ns (some a) t in
    if text_eq (namespace_at store a) ns then take else skip
search_ns store ns (some b) ((k, a) ∷ t) =
    let rest = search_ns store ns (some b) t in
    if text_eq (namespace_at store a) ns
    then if a == b then rest else err (ambiguous_namespace ns)
    else rest

unfoldable pub find_module_by_namespace : Modules → Bytes → Result ModuleError ℕ × Modules
unfolding search_ns lookup insert
find_module_by_namespace ms ns = elim (lookup ns ms.by_ns) [
  | some a ↦ (ok a, ms)
  | none ↦ elim (search_ns ms.store ns none ms.modules) [
    | err e ↦ (err e, ms)
    | ok none ↦ (err (no_such_namespace ns), ms)
    | ok (some a) ↦ (ok a, record ms { by_ns = insert ns a ms.by_ns })
  ]
]

-- The address is in the map under some name.
abbrev pub IsIn : ℕ → List (Bytes × ℕ) → Type 0
IsIn a [] = ⊥
IsIn a ((k, b) ∷ t) = (a ≡ b) ⊎ IsIn a t

abbrev pub Has : List Module → Bytes → ℕ → Type 0
Has store ns a = namespace_at store a ≡ ns

-- Every module of the map that has the namespace is the one at `b`.
abbrev pub IsOnly : List Module → Bytes → ℕ → List (Bytes × ℕ) → Type 0
IsOnly store ns b [] = Unit
IsOnly store ns b ((k, a) ∷ t) = (Has store ns a → a ≡ b) × IsOnly store ns b t

module _ (store : List Module) (ns : Bytes) where
  search_ns-some :
      (b r : ℕ) (t : List (Bytes × ℕ))
      → (search_ns store ns (some b) t ≡ ok (some r)) ↔ ((r ≡ b) × IsOnly store ns b t)
  unfolding search_ns
  search_ns-some b r [] = ground arith
  search_ns-some b r ((k, a) ∷ t) =
      ground (arith, search_ns-some b r t, text_eq_iff (namespace_at store a) ns)

  search_ns-none :
      (r : ℕ) (t : List (Bytes × ℕ))
      → (search_ns store ns none t ≡ ok (some r))
        ↔ (IsIn r t × Has store ns r × IsOnly store ns r t)
  unfolding search_ns
  search_ns-none r [] = ground arith
  search_ns-none r ((k, a) ∷ t) =
      ground
        (arith, search_ns-none r t, search_ns-some a r t, text_eq_iff (namespace_at store a) ns)

IsOnly-in :
    (store : List Module) (ns : Bytes) (a b : ℕ) (t : List (Bytes × ℕ))
    → IsOnly store ns b t
    → IsIn a t
    → Has store ns a
    → a ≡ b
IsOnly-in store ns a b [] o i e = absurd i
IsOnly-in store ns a b ((k, c) ∷ t) o i e =
    ⊎_elim (λ q. q ∙ o.0 (subst (Has store ns) q e)) (λ j. IsOnly-in store ns a b t o.1 j e) i

-- The one module of the map that has the namespace.
abbrev pub IsUnique : Modules → Bytes → ℕ → Type 0
IsUnique ms ns r = IsIn r ms.modules × Has ms.store ns r × IsOnly ms.store ns r ms.modules

-- The cache holds right answers.
abbrev pub IsCached : Modules → Type 0
IsCached ms = (ns : Bytes) (r : ℕ) → lookup ns ms.by_ns ≡ some r → IsUnique ms ns r

module _ (ms : Modules) (h : IsCached ms) (ns : Bytes) where
  finds : (r : ℕ) → ((find_module_by_namespace ms ns).0 ≡ ok r) ↔ IsUnique ms ns r
  unfolding find_module_by_namespace
  finds r = elim (Option-cases (lookup ns ms.by_ns)) [
    | inl e ↦ ground (arith, search_ns-none ms.store ns r ms.modules)
    | inr (a, e) ↦
        let u = h ns a e in
        ground (
          arith,
          λ (o : IsOnly ms.store ns r ms.modules). IsOnly-in ms.store ns a r ms.modules o u.0 u.1,
        )
  ]

  IsCached-insert :
      (a : ℕ)
      → search_ns ms.store ns none ms.modules ≡ ok (some a)
      → IsCached (record ms { by_ns = insert ns a ms.by_ns })
  IsCached-insert a e n r l = elim (Bool-cases (text_eq ns n)) [
    | inl same ↦
        let is_new : a ≡ r = ground (arith, lookup-insert ns n a ms.by_ns) in
        subst₂ (IsUnique ms) ((text_eq_iff ns n).0 same) is_new
          ((search_ns-none ms.store ns a ms.modules).0 e)
    | inr other ↦ h n r (ground (arith, lookup-insert ns n a ms.by_ns))
  ]

  stays : IsCached (find_module_by_namespace ms ns).1
  unfolding find_module_by_namespace
  stays = elim (Option-cases (lookup ns ms.by_ns)) [
    | inr (a, e) ↦ rw (find_module_by_namespace, e) h
    | inl e ↦ elim (Result-cases (search_ns ms.store ns none ms.modules)) [
      | inr (x, f) ↦ rw (find_module_by_namespace, e, f) h
      | inl (none, f) ↦ rw (find_module_by_namespace, e, f) h
      | inl (some a, f) ↦ rw (find_module_by_namespace, e, f) (IsCached-insert a f)
    ]
  ]

  -- With a right cache, a namespace finds a module exactly when it is the only module of the map that
  -- has the namespace, and the search leaves the cache right.
  pub find_module_by_namespace_lem :
      ((r : ℕ) → ((find_module_by_namespace ms ns).0 ≡ ok r) ↔ IsUnique ms ns r)
      × IsCached (find_module_by_namespace ms ns).1
  find_module_by_namespace_lem = (finds, stays)
