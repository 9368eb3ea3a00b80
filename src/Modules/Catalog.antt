-- ===== src/Modules/Catalog.antt =====
-- What the map that `add` writes promises: a full name finds its module, and a bare name the module
-- of that name whose full name is the greatest.
use goyang.Base.{
  ap, get_elem?, ℕ, ◌≡◌, ◌≢◌, ◌↔◌, ◌⊎◌, inl, inr, refl, true, false, List, [], none, some, Bytes,
  text_eq, text_lt, text_eq_iff, text_lt_irrefl, text_lt_trans, arith, Bool-cases, Option-cases,
}
use goyang.Base.Maps.{lookup, insert, lookup-insert}
use goyang.Enum.{text_keys}
use goyang.Modules.{Module, full_name_at, add_bare, add_names}
use goyang.Modules.Names.{has_at}

-- The modules of a kind are those addresses of which `In` holds.
pub record IsCatalog (name_of full : ℕ → Bytes) (In : ℕ → Type 0) (t : List (Bytes × ℕ))
    : Type 0 where
  pub known : (k : Bytes) (a : ℕ) → lookup k t ≡ some a → In a × ((k ≡ full a) ⊎ (k ≡ name_of a))
  pub bare :
      (b : ℕ)
      → In b
      → (a : ℕ) × (lookup (name_of b) t ≡ some a) × (text_lt (full a) (full b) ≡ false)
  pub exact : (b : ℕ) → In b → full b ≢ name_of b → lookup (full b) t ≡ some b

unfoldable pub name_at : List Module → ℕ → Bytes
name_at store a = elim (get_elem? store a) [ none ↦ [] | some m ↦ m.name ]

module _ (store : List Module) (In In' : ℕ → Type 0) (n : ℕ)
    (grows : (b : ℕ) → In' b ↔ (In b ⊎ (b ≡ n)))
    (plain : (b : ℕ) → In' b → has_at (name_at store b) ≡ false)
    (shape : (b : ℕ)
      → In' b
      → (full_name_at store b ≡ name_at store b) ⊎ (has_at (full_name_at store b) ≡ true))
    (t : List (Bytes × ℕ)) (h : IsCatalog (name_at store) (full_name_at store) In t)
    (new : lookup (full_name_at store n) t ≡ none) where
  abbrev full : ℕ → Bytes
  full = full_name_at store

  abbrev name_of : ℕ → Bytes
  name_of = name_at store

  -- the map after the full name was entered
  abbrev t1 : List (Bytes × ℕ)
  t1 = insert (full n) n t

  abbrev Known : List (Bytes × ℕ) → Type 0
  Known u = (k : Bytes) (a : ℕ) → lookup k u ≡ some a → In' a × ((k ≡ full a) ⊎ (k ≡ name_of a))

  known1 : Known t1
  known1 k a l =
      ground (arith, lookup-insert (full n) k n t, grows a, h.known k a, text_eq_iff (full n) k)

  known2 : Known (insert (name_of n) n t1)
  known2 k a l =
      ground
        (arith, lookup-insert (name_of n) k n t1, known1 k a, grows n, text_eq_iff (name_of n) k)

  Known-add_names : Known (add_names store (name_of n) (full n) n t)
  unfolding add_names add_bare
  Known-add_names k a = ground (arith, known1 k a, known2 k a)

  abbrev Bare : List (Bytes × ℕ) → ℕ → Type 0
  Bare u b = (a : ℕ) × (lookup (name_of b) u ≡ some a) × (text_lt (full a) (full b) ≡ false)

  -- A bare name of the old modules is not the full name that is entered.
  old-Bare : (b : ℕ) → In b → Bare t1 b
  old-Bare b i =
      let (a, l, g) = h.bare b i in
      (
        a,
        ground (arith, lookup-insert (full n) (name_of b) n t, text_eq_iff (full n) (name_of b)),
        g,
      )

  Bare-insert :
      ((b : ℕ) → In b → name_of b ≡ name_of n → text_lt (full n) (full b) ≡ false)
      → (b : ℕ) → In' b
      → Bare (insert (name_of n) n t1) b
  Bare-insert top b i = elim (Bool-cases (text_eq (name_of n) (name_of b))) [
    | inl e ↦ (
      n,
      ground (arith, lookup-insert (name_of n) (name_of b) n t1),
      ground (arith, grows b, top b, text_lt_irrefl (full n), text_eq_iff (name_of n) (name_of b)),
    )
    | inr e ↦ elim ((grows b).0 i) [
      | inl old ↦
          let (a, l, g) = old-Bare b old in
          (a, ground (arith, lookup-insert (name_of n) (name_of b) n t1), g)
      | inr e' ↦ ground (arith, text_eq_iff (name_of n) (name_of b))
    ]
  ]

  Bare-keep : Bare t1 n → (b : ℕ) → In' b → Bare t1 b
  Bare-keep here b i = elim ((grows b).0 i) [ inl old ↦ old-Bare b old | inr e ↦ rw e here ]

  -- The module under the bare name has the greatest full name of all modules of the name.
  top :
      (o : ℕ)
      → lookup (name_of n) t1 ≡ some o
      → text_lt (full o) (full n) ≡ true
      → (b : ℕ) → In b
      → name_of b ≡ name_of n
      → text_lt (full n) (full b) ≡ false
  top o l lt b i e =
      let (a, l', g) = old-Bare b i in
      ground (arith, ap (λ z. lookup z t1) e, text_lt_trans (full o) (full n) (full b))

  -- A bare name that is not entered has no old module.
  fresh_bare :
      lookup (name_of n) t1 ≡ none
      → (b : ℕ) → In b
      → name_of b ≡ name_of n
      → text_lt (full n) (full b) ≡ false
  fresh_bare l b i e = let (a, l', g) = old-Bare b i in ground (arith, ap (λ z. lookup z t1) e)

  Bare-add_names : (b : ℕ) → In' b → Bare (add_names store (name_of n) (full n) n t) b
  unfolding add_names add_bare
  Bare-add_names b i = elim (Bool-cases (text_eq (full n) (name_of n))) [
    | inl e ↦ rw e (
        Bare-keep
          (n, ground (arith, lookup-insert (full n) (name_of n) n t), text_lt_irrefl (full n)) b i)
    | inr e ↦ elim (Option-cases (lookup (name_of n) t1)) [
      | inl l ↦ rw (e, add_bare, l) (Bare-insert (λ b i e'. fresh_bare l b i e') b i)
      | inr (o, l) ↦ elim (Bool-cases (text_lt (full o) (full n))) [
        | inl lt ↦ rw (e, add_bare, l, lt) (Bare-insert (top o l lt) b i)
        | inr ge ↦ rw (e, add_bare, l, ge) (Bare-keep (o, l, ge) b i)
      ]
    ]
  ]

  abbrev Exact : List (Bytes × ℕ) → Type 0
  Exact u = (b : ℕ) → In' b → full b ≢ name_of b → lookup (full b) u ≡ some b

  exact1 : Exact t1
  exact1 b i d = elim ((grows b).0 i) [
    | inl old ↦
        ground
          (arith, lookup-insert (full n) (full b) n t, h.exact b, text_eq_iff (full n) (full b))
    | inr e ↦
        rw e (ground (arith, lookup-insert (full n) (full n) n t, text_eq_iff (full n) (full n)))
  ]

  -- A full name that is no bare name is not the bare name that is entered.
  exact2 : Exact (insert (name_of n) n t1)
  exact2 b i d =
      let apart : name_of n ≢ full b =
        λ e. ground (arith, plain n ((grows n).1 (inr refl)), shape b, ap has_at e) in
      ground
        (arith, lookup-insert (name_of n) (full b) n t1, exact1 b, text_eq_iff (name_of n) (full b))

  Exact-add_names : Exact (add_names store (name_of n) (full n) n t)
  unfolding add_names add_bare
  Exact-add_names b i d = ground (arith, exact1 b, exact2 b)

  pub add_names-IsCatalog : IsCatalog name_of full In' (add_names store (name_of n) (full n) n t)
  add_names-IsCatalog = record {
    known = Known-add_names;
    bare = Bare-add_names;
    exact = Exact-add_names;
  }
