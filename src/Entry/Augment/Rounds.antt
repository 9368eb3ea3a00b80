-- ===== src/Entry/Augment/Rounds.antt =====
-- What one round of the augments in Process of pkg/yang/modules.go uses up, and what a round leaves
-- that applies none.
use goyang.Base.{
  ℕ, zero, suc, ◌+◌, ◌≤◌, ◌≡◌, refl, ◌∙◌, sym, ap, subst, Bool, true, false, ◌||◌, List, [], ◌∷◌,
  ◌++◌, if◌then◌else◌, ◌==◌, ==_iff, length, All, arith, inl, inr, Bool-cases, List-cases, is_in,
}
use mathlib.Core.List.{append_assoc}
use mathlib.Core.Path.{fun_ext}
use goyang.Entry.Augment.{
  Augmented, Waiting, Round, last_first, applied, skipped, augment, store, augment_module, counted,
  augment_round,
}

module _ {S A : Type 0} (found : S → A → Bool) where
  -- No augment of the module has a target.
  abbrev pub IsStuck : Waiting S A → ℕ → Type 0
  IsStuck w m = All (λ a. found w.entries a ≡ false) (w.augments m)

module _ {S A : Type 0} (found : S → A → Bool) (merge : A → S → S) where
  module _ (b : Bool) (a : A) (as_ : List A) (s : S) where
    augment-found :
        found s a ≡ true
        → augment found merge b (a ∷ as_) s ≡ applied (augment found merge b as_ (merge a s))
    unfolding augment
    augment-found h = rw (h, augment) refl

    augment-missing :
        found s a ≡ false
        → augment found merge b (a ∷ as_) s ≡ skipped b a (augment found merge b as_ s)
    unfolding augment
    augment-missing h = rw (h, augment) refl

  -- Every augment is applied or left.
  pub augment-length :
      (b : Bool) (as_ : List A) (s : S)
      → (augment found merge b as_ s).processed + length (augment found merge b as_ s).unapplied
        ≡ length as_
  unfolding augment
  augment-length b [] s = omega arith
  augment-length b (a ∷ as_) s = elim (Bool-cases (found s a)) [
    | inl e ↦ rw (augment-found b a as_ s e) (omega (arith, augment-length b as_ (merge a s)))
    | inr e ↦ rw (augment-missing b a as_ s e) (omega (arith, augment-length b as_ s))
  ]

  -- Where none is applied, none has a target, and nothing changes.
  pub record IsIdle (as_ : List A) (s : S) (r : Augmented S A) : Type 0 where
    pub same : r.entries ≡ s
    pub left : r.unapplied ≡ as_
    pub none_found : All (λ a. found s a ≡ false) as_

  pub augment-IsIdle :
      (b : Bool) (as_ : List A) (s : S)
      → (augment found merge b as_ s).processed ≡ 0
      → IsIdle as_ s (augment found merge b as_ s)
  unfolding augment
  augment-IsIdle b [] s h = record { same = refl; left = refl; none_found = tt }
  augment-IsIdle b (a ∷ as_) s h = elim (Bool-cases (found s a)) [
    | inl e ↦ absurd (omega (arith, h, ap (λ r. r.processed) (augment-found b a as_ s e)))
    | inr e ↦
        let none_left = sym (ap (λ r. r.processed) (augment-missing b a as_ s e)) ∙ h in
        let i = augment-IsIdle b as_ s none_left in
        rw (augment-missing b a as_ s e) (record {
          same = i.same;
          left = ap (λ xs. a ∷ xs) i.left;
          none_found = (e, i.none_found);
        })
  ]

pub length-last_first : (xs : List ℕ) → length (last_first xs) ≡ length xs
unfolding last_first
length-last_first [] = refl
length-last_first (x ∷ []) = refl
length-last_first (x ∷ y ∷ ys) = elim (List-cases (last_first (y ∷ ys))) [
  | inl e ↦ rw (e, last_first) (omega (arith, length-last_first (y ∷ ys), ap length e))
  | inr (z, zs, e) ↦ rw (e, last_first) (omega (arith, length-last_first (y ∷ ys), ap length e))
]

pub is_in-last_first : (k : ℕ) (xs : List ℕ) → is_in k (last_first xs) ≡ is_in k xs
unfolding last_first
is_in-last_first k [] = refl
is_in-last_first k (x ∷ []) = refl
is_in-last_first k (x ∷ y ∷ ys) = elim (List-cases (last_first (y ∷ ys))) [
  | inl e ↦ rw (e, last_first) (ground (arith, is_in-last_first k (y ∷ ys), ap (is_in k) e))
  | inr (z, zs, e) ↦
      rw (e, last_first) (ground (arith, is_in-last_first k (y ∷ ys), ap (is_in k) e))
]

pub is_in-append : (k : ℕ) (xs ys : List ℕ) → is_in k (xs ++ ys) ≡ (is_in k xs || is_in k ys)
is_in-append k [] ys = refl
is_in-append k (x ∷ xs) ys = rw (is_in-append k xs ys) (ground arith)

unfoldable pub weight : {S A : Type 0} → Waiting S A → List ℕ → ℕ
weight w [] = 0
weight w (m ∷ ms) = length (w.augments m) + weight w ms

module _ {S A : Type 0} (w : Waiting S A) where
  weight-append : (xs ys : List ℕ) → weight w (xs ++ ys) ≡ weight w xs + weight w ys
  unfolding weight
  weight-append [] ys = omega arith
  weight-append (x ∷ xs) ys = omega (arith, weight-append xs ys)

  weight-cons : (x : ℕ) (xs : List ℕ) → weight w (x ∷ xs) ≡ length (w.augments x) + weight w xs
  unfolding weight
  weight-cons x xs = refl

  weight-last_first : (xs : List ℕ) → weight w (last_first xs) ≡ weight w xs
  unfolding weight last_first
  weight-last_first [] = refl
  weight-last_first (x ∷ []) = refl
  weight-last_first (x ∷ y ∷ ys) = elim (List-cases (last_first (y ∷ ys))) [
    | inl e ↦ rw (e, last_first) (omega (arith, weight-last_first (y ∷ ys), ap (weight w) e))
    | inr (z, zs, e) ↦
        rw (e, last_first) (omega (arith, weight-last_first (y ∷ ys), ap (weight w) e))
  ]

module _ {S A : Type 0} (m : ℕ) (r : Augmented S A) (w : Waiting S A) where
  weight-store :
      length r.unapplied ≤ length (w.augments m)
      → (ms : List ℕ) → weight (store m r w) ms ≤ weight w ms
  unfolding store weight
  weight-store h [] = omega arith
  weight-store h (k ∷ ms) = elim (Bool-cases (m == k)) [
    | inl e ↦
        rw e
          (omega (arith, h, weight-store h ms, ap (λ j. length (w.augments j)) ((==_iff m k).0 e)))
    | inr e ↦ rw e (omega (arith, weight-store h ms))
  ]

  pub store-same : r.unapplied ≡ w.augments m → r.entries ≡ w.entries → store m r w ≡ w
  unfolding store
  store-same h e = λ i. record { augments = fun_ext at i; entries = e i }
    where
      at : (k : ℕ) → (if m == k then r.unapplied else w.augments k) ≡ w.augments k
      at k = elim (Bool-cases (m == k)) [
        | inl f ↦ rw f (h ∙ ap w.augments ((==_iff m k).0 f))
        | inr f ↦ rw f refl
      ]

module _ {S A : Type 0} (found : S → A → Bool) (merge : A → S → S) where
  module _ (n : ℕ) (kept : List ℕ) (m : ℕ) (ms : List ℕ) (w : Waiting S A) where
    -- The augments of a module that are left or applied are those that waited.
    left_over :
        (augment_module found merge m w).processed
          + length (augment_module found merge m w).unapplied
        ≡ length (w.augments m)
    unfolding augment_module
    left_over = augment-length found merge false (w.augments m) w.entries

    pub augment_round-out :
        (augment_module found merge m w).unapplied ≡ []
        → augment_round found merge (suc n) kept (m ∷ ms) w
          ≡ counted (augment_module found merge m w).processed (
              augment_round found merge n kept
                (last_first ms)
                (store m (augment_module found merge m w) w))
    unfolding augment_round
    augment_round-out e =
        ap
          (λ u. counted (augment_module found merge m w).processed (elim u as (λ _. Round S A) [
            | [] ↦
                augment_round found merge n kept (last_first ms)
                  (store m (augment_module found merge m w) w)
            | b ∷ bs ↦
                augment_round found merge n (kept ++ m ∷ []) ms
                  (store m (augment_module found merge m w) w)
          ]))
          e

    pub augment_round-kept :
        (a : A) (as_ : List A)
        → (augment_module found merge m w).unapplied ≡ a ∷ as_
        → augment_round found merge (suc n) kept (m ∷ ms) w
          ≡ counted (augment_module found merge m w).processed (
              augment_round found merge n
                (kept ++ m ∷ [])
                ms
                (store m (augment_module found merge m w) w))
    unfolding augment_round
    augment_round-kept a as_ e =
        ap
          (λ u. counted (augment_module found merge m w).processed (elim u as (λ _. Round S A) [
            | [] ↦
                augment_round found merge n kept (last_first ms)
                  (store m (augment_module found merge m w) w)
            | b ∷ bs ↦
                augment_round found merge n (kept ++ m ∷ []) ms
                  (store m (augment_module found merge m w) w)
          ]))
          e

    weight-step :
        weight (store m (augment_module found merge m w) w) (kept ++ m ∷ ms)
          + (augment_module found merge m w).processed
        ≤ weight w (kept ++ m ∷ ms)
    unfolding weight store
    weight-step =
        let r = augment_module found merge m w in
        let fits : length r.unapplied ≤ length (w.augments m) = omega (arith, left_over) in
        let same : (m == m) ≡ true = (==_iff m m).1 refl in
        let here : length ((store m r w).augments m) ≡ length r.unapplied = rw same refl in
        omega (
          arith,
          weight-append (store m r w) kept (m ∷ ms),
          weight-append w kept (m ∷ ms),
          weight-store m r w fits kept,
          weight-store m r w fits ms,
          here,
          left_over,
        )

  -- Each augment that a round applies takes one away from those that wait.
  pub weight-augment_round :
      (n : ℕ) (kept ms : List ℕ) (w : Waiting S A)
      → weight
            (augment_round found merge n kept ms w).waiting
            (augment_round found merge n kept ms w).mods
          + (augment_round found merge n kept ms w).processed
        ≤ weight w (kept ++ ms)
  unfolding augment_round
  weight-augment_round zero kept ms w = omega arith
  weight-augment_round (suc n) kept [] w = omega arith
  weight-augment_round (suc n) kept (m ∷ ms) w =
      let r = augment_module found merge m w in
      let w1 = store m r w in
      let step = weight-step n kept m ms w in
      elim (List-cases r.unapplied) [
        | inl e ↦
            subst (λ r. weight r.waiting r.mods + r.processed ≤ weight w (kept ++ m ∷ ms))
              (sym (augment_round-out n kept m ms w e))
              (omega (
                arith,
                weight-augment_round n kept (last_first ms) w1,
                weight-append w1 kept (last_first ms),
                weight-append w1 kept (m ∷ ms),
                weight-last_first w1 ms,
                weight-cons w1 m ms,
                step,
              ))
        | inr (a, as_, e) ↦
            subst (λ r. weight r.waiting r.mods + r.processed ≤ weight w (kept ++ m ∷ ms))
              (sym (augment_round-kept n kept m ms w a as_ e))
              (omega (
                arith,
                weight-augment_round n (kept ++ m ∷ []) ms w1,
                ap (weight w1) (append_assoc kept (m ∷ []) ms),
                step,
              ))
      ]
