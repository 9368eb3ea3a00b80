-- ===== src/Modules/Tables.antt =====
-- The two maps of `Modules` through `add`, `Parse` and `Read` of pkg/yang/modules.go.
use goyang.Base.{
  ℕ, ◌≡◌, ◌≢◌, ◌↔◌, ◌⊎◌, inl, inr, refl, true, false, List, [], ◌∷◌, ◌++◌, none, some, Bytes, ◌∙◌,
  arith, length, get_elem?, ap, sym, subst₂, ⊎_elim, get_elem?-append, get_elem?_last,
  get_elem?_cases,
}
use goyang.Base.Maps.{lookup}
use goyang.Enum.{text_keys}
use goyang.Modules.{
  Module, Modules, ModuleKind, Node, module_node, other_node, kind, full_name, full_name_at, table,
  add_names,
}
use goyang.Modules.Names.{has_at, full_name_cases}
use goyang.Modules.Catalog.{IsCatalog, name_at, add_names-IsCatalog}

-- The address holds a module of the kind.
abbrev pub In : List Module → ModuleKind → ℕ → Type 0
In store k b = (m : Module) × (get_elem? store b ≡ some m) × (kind m ≡ k)

-- What the two maps promise of the modules of the store.
pub record IsIndexed (ms : Modules) : Type 0 where
  pub catalog :
      (k : ModuleKind)
      → IsCatalog (name_at ms.store) (full_name_at ms.store) (In ms.store k) (table k ms)
  pub plain : (b : ℕ) (m : Module) → get_elem? ms.store b ≡ some m → has_at m.name ≡ false

-- The promise depends on the names of the modules of the kind only.
IsCatalog-same :
    (name full name' full' : ℕ → Bytes) (In' In'' : ℕ → Type 0) (t : List (Bytes × ℕ))
    → ((b : ℕ) → In'' b ↔ In' b)
    → ((b : ℕ) → In' b → (name b ≡ name' b) × (full b ≡ full' b))
    → IsCatalog name full In' t
    → IsCatalog name' full' In'' t
IsCatalog-same name full name' full' In' In'' t iff same h = record {
  known = λ k a l. let (i, c) = h.known k a l in ((iff a).1 i, ground (arith, same a));
  bare = λ b i.
      let (a, l, g) = h.bare b ((iff b).0 i) in
      let (i', c) = h.known (name b) a l in
      (a, ground (arith, same b), ground (arith, same b, same a));
  exact = λ b i d. ground (arith, same b, h.exact b, iff b);
}

name_at_known :
    (store : List Module) (b : ℕ) (x : Module)
    → get_elem? store b ≡ some x
    → name_at store b ≡ x.name
unfolding name_at
name_at_known store b x e = ground arith

full_name_at_known :
    (store : List Module) (b : ℕ) (x : Module)
    → get_elem? store b ≡ some x
    → full_name_at store b ≡ full_name x
unfolding full_name_at
full_name_at_known store b x e = ground arith

module _ (store : List Module) (m : Module) where
  abbrev pub more : List Module
  more = store ++ m ∷ []

  In_more :
      (k : ModuleKind) (b : ℕ) → In more k b → In store k b ⊎ ((b ≡ length store) × (kind m ≡ k))
  In_more k b (x, e, h) = elim (get_elem?_cases store m b x e) [
    | inl old ↦ inl (x, old, h)
    | inr (at, same) ↦ inr (at, ap kind (sym same) ∙ h)
  ]

  In_old : (k : ModuleKind) (b : ℕ) → In store k b → In more k b
  In_old k b (x, e, h) = (x, get_elem?-append store (m ∷ []) b x e, h)

  In_new : (k : ModuleKind) → kind m ≡ k → In more k (length store)
  In_new k h = (m, get_elem?_last store m, h)

  names_old :
      (k : ModuleKind) (b : ℕ)
      → In store k b
      → (name_at store b ≡ name_at more b) × (full_name_at store b ≡ full_name_at more b)
  names_old k b (x, e, h) =
      let e' = get_elem?-append store (m ∷ []) b x e in
      (
        name_at_known store b x e ∙ sym (name_at_known more b x e'),
        full_name_at_known store b x e ∙ sym (full_name_at_known more b x e'),
      )

  shape :
      (k : ModuleKind) (b : ℕ)
      → In more k b
      → (full_name_at more b ≡ name_at more b) ⊎ (has_at (full_name_at more b) ≡ true)
  shape k b (x, e, h) =
      rw (name_at_known more b x e, full_name_at_known more b x e) (full_name_cases x)

  -- The map of the new module's kind.
  pub IsCatalog-add_names :
      (t : List (Bytes × ℕ))
      → IsCatalog (name_at store) (full_name_at store) (In store (kind m)) t
      → ((b : ℕ) (x : Module) → get_elem? more b ≡ some x → has_at x.name ≡ false)
      → lookup (full_name m) t ≡ none
      → IsCatalog
          (name_at more)
          (full_name_at more)
          (In more (kind m))
          (add_names more m.name (full_name m) (length store) t)
  IsCatalog-add_names t h plain new =
      let here = get_elem?_last store m in
      let n = name_at_known more (length store) m here in
      let f = full_name_at_known more (length store) m here in
      let old =
        IsCatalog-same (name_at store) (full_name_at store) (name_at more) (full_name_at more)
          (In store (kind m)) (In store (kind m)) t (λ b. (λ i. i, λ i. i)) (names_old (kind m))
          h in
      subst₂
        (λ a b.
          IsCatalog (name_at more) (full_name_at more) (In more (kind m))
            (add_names more a b (length store) t))
        n f
        (add_names-IsCatalog more (In store (kind m)) (In more (kind m)) (length store)
          (λ b. (
            λ i. ⊎_elim inl (λ e. inr e.0) (In_more (kind m) b i),
            ⊎_elim (In_old (kind m) b) (λ e. rw e (In_new (kind m) refl)),
          ))
          (λ b (x, e, k). rw (name_at_known more b x e) (plain b x e)) (shape (kind m)) t old
          (rw f new))

  -- The map of the other kind.
  pub IsCatalog-other :
      (k : ModuleKind) (t : List (Bytes × ℕ))
      → kind m ≢ k
      → IsCatalog (name_at store) (full_name_at store) (In store k) t
      → IsCatalog (name_at more) (full_name_at more) (In more k) t
  IsCatalog-other k t d =
      IsCatalog-same (name_at store) (full_name_at store) (name_at more) (full_name_at more)
        (In store k) (In more k) t
        (λ b. (λ i. ⊎_elim (λ o. o) (λ e. absurd (d e.1)) (In_more k b i), In_old k b))
        (names_old k)

abbrev pub IsPlain : Node → Type 0
IsPlain (module_node m) = has_at m.name ≡ false
IsPlain (other_node name k) = Unit
