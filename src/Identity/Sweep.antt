-- ===== src/Identity/Sweep.antt =====
-- The last pass of `resolveIdentities` in pkg/yang/identity.go: without a cycle of identities, every
-- identity of the dictionary gets its descendants as values, once each, in whatever order the map
-- is passed through.
use goyang.Base.{
  ℕ, ◌<◌, ◌≡◌, refl, ◌∙◌, ◌⊎◌, inl, inr, subst, sym, ◌↔◌, true, false, List, [], ◌∷◌, some, arith,
  Bool-cases, ◌==◌, ==_iff, is_in, NoDup, if◌then◌else◌, ap,
}
use goyang.Identity.{Heap, modify, values_of, add_children, sweep}
use goyang.Identity.Walk.{Reach, here, step, From, add_each-Collects, add_children-Collects}

-- The descendants of an identity: what at least one step leads to.
abbrev pub Descends : (ℕ → List ℕ) → ℕ → ℕ → Type 0
Descends g a x = From g (g a) x

join_walks : (g : ℕ → List ℕ) {a b c : ℕ} → Reach g a b → Reach g b c → Reach g a c
join_walks g here w = w
join_walks g (step m v) w = step m (join_walks g v w)

Descends_walk : (g : ℕ → List ℕ) {a b : ℕ} → Descends g a b → Reach g a b
Descends_walk g (c, m, w) = step m w

walk_Descends : (g : ℕ → List ℕ) {a b c : ℕ} → Reach g a b → Descends g b c → Descends g a c
walk_Descends g here d = d
walk_Descends g (step {a} {c} m w) d = (c, m, join_walks g w (Descends_walk g d))

-- When every step of `g` is a walk of `h`, the walks of `g` are.
walk_into :
    (g h : ℕ → List ℕ)
    → ((a x : ℕ) → is_in x (g a) ≡ true → Descends h a x)
    → {a x : ℕ} → Reach g a x
    → Reach h a x
walk_into g h s here = here
walk_into g h s (step {a} {c} m w) = join_walks h (Descends_walk h (s a c m)) (walk_into g h s w)

Descends_into :
    (g h : ℕ → List ℕ)
    → ((a x : ℕ) → is_in x (g a) ≡ true → Descends h a x)
    → (a x : ℕ) → Descends g a x
    → Descends h a x
Descends_into g h s a x (c, m, w) =
    let (d, m', w') = s a c m in (d, m', join_walks h w' (walk_into g h s w))

-- A rank that falls along steps falls along walks.
rank_falls :
    (g : ℕ → List ℕ) (rank : ℕ → ℕ)
    → ((a c : ℕ) → is_in c (g a) ≡ true → rank c < rank a)
    → {a x : ℕ} → Reach g a x
    → (x ≡ a) ⊎ (rank x < rank a)
rank_falls g rank f here = inl refl
rank_falls g rank f (step {a} {c} m w) = ground (arith, f a c m, rank_falls g rank f w)

Descends_falls :
    (g : ℕ → List ℕ) (rank : ℕ → ℕ)
    → ((a c : ℕ) → is_in c (g a) ≡ true → rank c < rank a)
    → (a x : ℕ) → Descends g a x
    → rank x < rank a
Descends_falls g rank f a x (c, m, w) = ground (arith, f a c m, rank_falls g rank f w)

-- The heap with new values for one identity.
abbrev put : ℕ → List ℕ → Heap → Heap
put i vs = modify i (λ o. record o { values = vs })

values_of-put :
    (i : ℕ) (vs : List ℕ) (heap : Heap) (b : ℕ)
    → values_of (put i vs heap) b ≡ (if b == i then vs else values_of heap b)
unfolding values_of modify
values_of-put i vs heap b = ground arith

-- Giving one identity its descendants as values leaves the descendants of all as they were.
module _ (heap : Heap) (i : ℕ) (vs : List ℕ)
    (exact : (x : ℕ) → (is_in x vs ≡ true) ↔ Descends (values_of heap) i x) where
  abbrev g : ℕ → List ℕ
  g = values_of heap

  abbrev g1 : ℕ → List ℕ
  g1 = values_of (put i vs heap)

  step_into : (a x : ℕ) → is_in x (g a) ≡ true → Descends g1 a x
  step_into a x m = elim (Bool-cases (a == i)) [
    | inl e ↦
        let same = (==_iff a i).0 e in
        (
          x,
          ground (
            arith,
            values_of-put i vs heap a,
            (exact x).1 (x, subst (λ z. is_in x (g z) ≡ true) same m, here),
          ),
          here,
        )
    | inr e ↦ (x, ground (arith, values_of-put i vs heap a), here)
  ]

  step_back : (a x : ℕ) → is_in x (g1 a) ≡ true → Descends g a x
  step_back a x m = elim (Bool-cases (a == i)) [
    | inl e ↦
        subst (λ z. Descends g z x) (sym ((==_iff a i).0 e))
          ((exact x).0 (ground (arith, values_of-put i vs heap a)))
    | inr e ↦ (x, ground (arith, values_of-put i vs heap a), here)
  ]

  Descends_same : (a x : ℕ) → Descends g1 a x ↔ Descends g a x
  Descends_same a x = (Descends_into g1 g step_back a x, Descends_into g g1 step_into a x)

-- What the sweep makes of a heap: each identity of the list has its descendants as values, once each,
-- and the others are as before.
pub record IsSwept (todo : List ℕ) (heap out : Heap) : Type 0 where
  pub values :
      (i : ℕ)
      → is_in i todo ≡ true
      → (x : ℕ) → (is_in x (values_of out i) ≡ true) ↔ Descends (values_of heap) i x
  pub distinct : (i : ℕ) → is_in i todo ≡ true → NoDup (values_of out i)
  pub others : (i : ℕ) → is_in i todo ≡ false → out i ≡ heap i

put_other :
    (i : ℕ) (vs : List ℕ) (heap : Heap) (b : ℕ) → (b == i) ≡ false → put i vs heap b ≡ heap b
unfolding modify
put_other i vs heap b e = ground arith

IsSwept-cons :
    (i : ℕ) (todo : List ℕ) (heap out : Heap) (vs : List ℕ)
    → ((x : ℕ) → (is_in x vs ≡ true) ↔ Descends (values_of heap) i x)
    → NoDup vs
    → IsSwept todo (put i vs heap) out
    → IsSwept (i ∷ todo) heap out
unfolding values_of
IsSwept-cons i todo heap out vs exact d swept =
    let last : (j : ℕ)
        → is_in j todo ≡ false
        → is_in j (i ∷ todo) ≡ true
        → (j ≡ i) × (values_of out j ≡ vs) =
      λ j e m. ground (arith, ap (λ o. o.values) (swept.others j e), values_of-put i vs heap j) in
    record {
      values = λ j m x. elim (Bool-cases (is_in j todo)) [
        | inl e ↦ ground (arith, swept.values j e x, Descends_same heap i vs exact j x)
        | inr e ↦ let (same, vals) = last j e m in rw (vals, same) (exact x)
      ];
      distinct = λ j m. elim (Bool-cases (is_in j todo)) [
        | inl e ↦ swept.distinct j e
        | inr e ↦ subst NoDup (sym (last j e m).1) d
      ];
      others = λ j m. swept.others j (ground arith) ∙ put_other i vs heap j (ground arith);
    }

module _ (rank : ℕ → ℕ) (fuel : ℕ) (enough : (a : ℕ) → rank a < fuel) where
  abbrev Falls : Heap → Type 0
  Falls heap = (a c : ℕ) → is_in c (values_of heap a) ≡ true → rank c < rank a

  -- Without a cycle the last pass ends: a fuel above all ranks is enough. It gives each identity of
  -- the dictionary exactly its descendants, once each, and leaves the others.
  pub sweep-IsSwept :
      (todo : List ℕ) (heap : Heap)
      → Falls heap
      → (out : Heap) × (sweep fuel todo heap ≡ some out) × IsSwept todo heap out
  unfolding sweep
  sweep-IsSwept [] heap falls = (
    heap,
    refl,
    record {
      values = λ i m. absurd (ground arith);
      distinct = λ i m. absurd (ground arith);
      others = λ i m. refl;
    },
  )
  sweep-IsSwept (i ∷ todo) heap falls =
      let g = values_of heap in
      let c =
        add_each-Collects g rank falls (add_children fuel g) (g i)
          (λ d m ids. add_children-Collects g rank falls fuel d ids (enough d)) [] in
      let exact : (x : ℕ) → (is_in x c.out ≡ true) ↔ Descends g i x =
        λ x. ground (arith, c.exact x) in
      let falls1 : Falls (put i c.out heap) =
        λ a x m. Descends_falls g rank falls a x (step_back heap i c.out exact a x m) in
      let (out, returns, swept) = sweep-IsSwept todo (put i c.out heap) falls1 in
      (
        out,
        rw (sweep, c.returns) returns,
        IsSwept-cons i todo heap out c.out exact (c.distinct tt) swept,
      )
