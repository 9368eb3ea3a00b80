-- ===== src/Typedefs/Scopes.antt =====
-- The scopes of typedefs in the lookup of pkg/yang/types.go.
use goyang.Base.{
  ℕ, ◌&&◌, List, [], ◌∷◌, ◌++◌, none, some, if◌then◌else◌, Bytes, All, text_eq, text_eq_iff, ◌≡◌,
  arith, refl, subst, inl, inr, Bool-cases, ◌∙◌,
}
use goyang.Base.Maps.{lookup, insert, lookup-insert}
use goyang.Base.Result.{ok}
use goyang.Enum.{text_keys}
use goyang.Modules.{Modules, Reader}
use goyang.Modules.Prefix.{split_prefix}
use goyang.Typedefs.{
  ScopeNode, same_node, same_node_iff, node_keys, or_empty, Dictionary, add, find, find_above,
  look_up, local,
}

-- A typedef is found where it was added, under its name, and the others are where they were.
pub find-add :
    (d : Dictionary) (n m : ScopeNode) (x y : Bytes) (td : ℕ)
    → find (add d n x td) m y ≡ (if same_node n m && text_eq x y then some td else find d m y)
unfolding find add
find-add d n m x y td = elim (Bool-cases (same_node n m)) [
  | inl e ↦
      rw (lookup-insert n m (insert x td (or_empty (lookup n d))) d, e)
        (subst
          (λ k.
            lookup y (insert x td (or_empty (lookup n d)))
            ≡ (if text_eq x y then some td else find d k y))
          ((same_node_iff n m).0 e) (lookup-insert x y td (or_empty (lookup n d))))
  | inr e ↦ rw (lookup-insert n m (insert x td (or_empty (lookup n d))) d, e) refl
]

find-added :
    (d : Dictionary) (n : ScopeNode) (x : Bytes) (td : ℕ) → find (add d n x td) n x ≡ some td
find-added d n x td =
    rw (find-add d n n x x td, (same_node_iff n n).1 refl, (text_eq_iff x x).1 refl) refl

module _ (d : Dictionary) (n : ScopeNode) (ns : List ScopeNode) (x : Bytes) where
  find_above-some : (td : ℕ) → find d n x ≡ some td → find_above d (n ∷ ns) x ≡ some td
  unfolding find_above
  find_above-some td h = rw (h, find_above) refl

  find_above-none : find d n x ≡ none → find_above d (n ∷ ns) x ≡ find_above d ns x
  unfolding find_above
  find_above-none h = rw (h, find_above) refl

find_above-add :
    (d : Dictionary) (n : ScopeNode) (x : Bytes) (td : ℕ) (near far : List ScopeNode)
    → All (λ m. find d m x ≡ none) near
    → find_above (add d n x td) (near ++ n ∷ far) x ≡ some td
find_above-add d n x td [] far h = find_above-some (add d n x td) n far x td (find-added d n x td)
find_above-add d n x td (m ∷ near) far (h, hs) =
    let d1 = add d n x td in
    let at_m : find d1 m x ≡ (if same_node n m then some td else none) =
      rw (find-add d n m x x td, h) (ground (arith, (text_eq_iff x x).1)) in
    elim (Bool-cases (same_node n m)) [
      | inl e ↦ find_above-some d1 m (near ++ n ∷ far) x td (at_m ∙ rw e refl)
      | inr e ↦
          find_above-none d1 m (near ++ n ∷ far) x (at_m ∙ rw e refl)
          ∙ find_above-add d n x td near far hs
    ]

-- A typedef that is added in a node above a type is what the type's name finds, where the name has
-- no prefix and is not that of a base type, and no nearer node has a typedef of that name.
pub look_up-add :
    (reader : Reader) (base : List (Bytes × ℕ)) (d : Dictionary) (ms : Modules) (root : ℕ)
    (near far : List ScopeNode) (n : ScopeNode) (x : Bytes) (td : ℕ)
    → lookup x base ≡ none
    → split_prefix x ≡ ([], x)
    → All (λ m. find d m x ≡ none) near
    → look_up reader base (add d n x td) ms root (near ++ n ∷ far) x ≡ (some (ok (local, td)), ms)
unfolding look_up text_eq
look_up-add reader base d ms root near far n x td hb hp h =
    rw (hb, hp, find_above-add d n x td near far h, look_up) refl
