-- ===== src/Modules/Inclusion/Room.antt =====
-- How many modules can be read: with finitely many full names in the files, the store that
-- pkg/yang/modules.go fills is bounded, because `add` refuses a full name that it knows.
use goyang.Base.{
  ℕ, ◌+◌, ◌≤◌, ◌<◌, ◌≡◌, ◌⊎◌, inl, inr, Bool, true, false, List, [], ◌∷◌, ◌++◌, none, some, Bytes,
  text_eq_iff, arith, length, All, Option-cases, if◌then◌else◌, length-append, subst,
}
use goyang.Base.Maps.{lookup, insert, lookup-insert}
use goyang.Base.Result.{Result, ok, err, Result-cases}
use goyang.Enum.{text_keys}
use goyang.Modules.{
  Module, Modules, ModuleKind, module_kind, submodule_kind, ModuleError, Node, module_node,
  other_node, Reader, kind, full_name, table, set_table, add_bare, add_names, add_module, add,
  add_nodes, read,
}

abbrev knows : Bytes → List (Bytes × ℕ) → Bool
knows k t = elim (lookup k t) [ none ↦ false | some a ↦ true ]

-- The names of a list that a map knows, counted.
abbrev pub count : List Bytes → List (Bytes × ℕ) → ℕ
count [] t = 0
count (u ∷ us) t = (if knows u t then 1 else 0) + count us t

abbrev pub IsOneOf : Bytes → List Bytes → Type 0
IsOneOf u [] = ⊥
IsOneOf u (v ∷ vs) = (u ≡ v) ⊎ IsOneOf u vs

count_le : (us : List Bytes) (t : List (Bytes × ℕ)) → count us t ≤ length us
count_le [] t = omega arith
count_le (u ∷ us) t = ground (arith, count_le us t)

abbrev IsMore : List (Bytes × ℕ) → List (Bytes × ℕ) → Type 0
IsMore t t' = (k : Bytes) → knows k t ≡ true → knows k t' ≡ true

count_mono : (us : List Bytes) (t t' : List (Bytes × ℕ)) → IsMore t t' → count us t ≤ count us t'
count_mono [] t t' h = omega arith
count_mono (u ∷ us) t t' h = ground (arith, count_mono us t t' h, h u)

count_lt :
    (us : List Bytes) (t t' : List (Bytes × ℕ)) (u : Bytes)
    → IsMore t t'
    → IsOneOf u us
    → lookup u t ≡ none
    → knows u t' ≡ true
    → count us t < count us t'
count_lt [] t t' u h i new old = absurd i
count_lt (v ∷ us) t t' u h (inl e) new old =
    let at : (lookup v t ≡ none) × (knows v t' ≡ true) =
      subst (λ z. (lookup z t ≡ none) × (knows z t' ≡ true)) e (new, old) in
    ground (arith, count_mono us t t' h)
count_lt (v ∷ us) t t' u h (inr i) new old = ground (arith, count_lt us t t' u h i new old, h v)

module _ (store : List Module) (name full : Bytes) (a : ℕ) (t : List (Bytes × ℕ)) where
  abbrev after : List (Bytes × ℕ)
  after = add_names store name full a t

  after-IsMore : IsMore t after
  unfolding add_names add_bare
  after-IsMore k h =
      ground (arith, lookup-insert full k a t, lookup-insert name k a (insert full a t))

  after-knows : knows full after ≡ true
  unfolding add_names add_bare
  after-knows = ground (
    arith,
    lookup-insert full full a t,
    lookup-insert name full a (insert full a t),
    text_eq_iff full full,
  )

-- The store has at most as many modules as the maps know names of `us`.
abbrev pub Fits : List Bytes → Modules → Type 0
Fits us ms = length ms.store ≤ count us ms.modules + count us ms.sub_modules

pub Fits-room :
    (us : List Bytes) (ms : Modules) → Fits us ms → length ms.store ≤ length us + length us
Fits-room us ms h = omega (arith, h, count_le us ms.modules, count_le us ms.sub_modules)

module _ (store : List Module) (m : Module) where
  -- A map with the names of a new module.
  abbrev named : List (Bytes × ℕ) → List (Bytes × ℕ)
  named = after (store ++ m ∷ []) m.name (full_name m) (length store)

  size_more : length (store ++ m ∷ []) ≡ length store + 1
  size_more = length-append store (m ∷ [])

  room_more :
      (us : List Bytes) (t : List (Bytes × ℕ))
      → IsOneOf (full_name m) us
      → lookup (full_name m) t ≡ none
      → count us t < count us (named t)
  room_more us t i new =
      count_lt us t (named t) (full_name m)
        (after-IsMore (store ++ m ∷ []) m.name (full_name m) (length store) t) i new
        (after-knows (store ++ m ∷ []) m.name (full_name m) (length store) t)

abbrev grown : Modules → Module → ModuleKind → Modules
grown ms m k =
    set_table k (named ms.store m (table k ms)) (record ms { store = ms.store ++ m ∷ [] })

grown-Fits :
    (us : List Bytes) (ms : Modules) (m : Module) (k : ModuleKind)
    → Fits us ms
    → IsOneOf (full_name m) us
    → lookup (full_name m) (table k ms) ≡ none
    → Fits us (grown ms m k)
unfolding set_table table
grown-Fits us ms m module_kind h i new =
    omega (arith, size_more ms.store m, h, room_more ms.store m us ms.modules i new)
grown-Fits us ms m submodule_kind h i new =
    omega (arith, size_more ms.store m, h, room_more ms.store m us ms.sub_modules i new)

abbrev pub IsNamed : List Bytes → Result ModuleError Node → Type 0
IsNamed us (ok (module_node m)) = IsOneOf (full_name m) us
IsNamed us (ok (other_node name k)) = Unit
IsNamed us (err e) = Unit

add-Fits :
    (us : List Bytes) (ms : Modules) (n : Node)
    → IsNamed us (ok n)
    → Fits us ms
    → Fits us (add ms n).0
unfolding add
add-Fits us ms (other_node name k) i h = h
add-Fits us ms (module_node m) i h =
    elim (Option-cases (lookup (full_name m) (table (kind m) ms))) [
      | inl e ↦ rw (add, e, add_module) (grown-Fits us ms m (kind m) h i e)
      | inr (a, e) ↦ rw (add, e) h
    ]

add_nodes-Fits :
    (us : List Bytes) (ns : List (Result ModuleError Node)) (ms : Modules)
    → All (IsNamed us) ns
    → Fits us ms
    → Fits us (add_nodes ms ns).0
unfolding add_nodes
add_nodes-Fits us [] ms p h = h
add_nodes-Fits us (err e ∷ ns) ms p h = h
add_nodes-Fits us (ok n ∷ ns) ms p h =
    let h1 = add-Fits us ms n p.0 h in
    elim (Option-cases (add ms n).1) [
      | inl e ↦ rw (add_nodes, e) (add_nodes-Fits us ns (add ms n).0 p.1 h1)
      | inr (a, e) ↦ rw (add_nodes, e) h1
    ]

-- The modules of all files have their full names among `us`.
abbrev pub IsNamedReader : List Bytes → Reader → Type 0
IsNamedReader us reader =
    (name : Bytes) (ns : List (Result ModuleError Node)) → reader name ≡ ok ns → All (IsNamed us) ns

pub read-Fits :
    (us : List Bytes) (reader : Reader)
    → IsNamedReader us reader
    → (ms : Modules) (name : Bytes) → Fits us ms
    → Fits us (read reader ms name).0
unfolding read
read-Fits us reader p ms name h = elim (Result-cases (reader name)) [
  | inl (ns, e) ↦ rw (read, e) (add_nodes-Fits us ns ms (p name ns e) h)
  | inr (x, e) ↦ rw (read, e) h
]
