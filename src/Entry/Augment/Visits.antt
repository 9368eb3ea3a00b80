-- ===== src/Entry/Augment/Visits.antt =====
-- Which modules a round of the augments visits, in Process of pkg/yang/modules.go, and what a round
-- leaves that applies none.
use goyang.Base.{
  ◌⊎◌, ℕ, zero, suc, ◌+◌, ◌≤◌, ◌≡◌, refl, ◌∙◌, sym, ap, subst, Bool, true, false, List, [], ◌∷◌,
  ◌++◌, ◌==◌, ==_iff, length, arith, inl, inr, Bool-cases, List-cases, is_in,
}
use mathlib.Core.List.{append_assoc}
use goyang.Entry.Augment.{
  Waiting, Round, last_first, augment, store, augment_module, counted, augment_round,
}
use goyang.Entry.Augment.Rounds.{
  IsStuck, augment-IsIdle, length-last_first, is_in-last_first, is_in-append, store-same,
  augment_round-out, augment_round-kept,
}

module _ {S A : Type 0} (found : S → A → Bool) (merge : A → S → S) where
  store-fades :
      (m : ℕ) (w : Waiting S A) (k : ℕ)
      → w.augments k ≡ []
      → (store m (augment_module found merge m w) w).augments k ≡ []
  unfolding store augment_module augment
  store-fades m w k h = elim (Bool-cases (m == k)) [
    | inl e ↦ rw (e, ap w.augments ((==_iff m k).0 e), h) refl
    | inr e ↦ rw e h
  ]

  store-empty :
      (m : ℕ) (w : Waiting S A) (k : ℕ)
      → (augment_module found merge m w).unapplied ≡ []
      → (m == k) ≡ true
      → (store m (augment_module found merge m w) w).augments k ≡ []
  unfolding store
  store-empty m w k h e = rw e h

  -- A module without augments stays so.
  pub augment_round-fades :
      (n : ℕ) (kept ms : List ℕ) (w : Waiting S A) (k : ℕ)
      → w.augments k ≡ []
      → (augment_round found merge n kept ms w).waiting.augments k ≡ []
  unfolding augment_round
  augment_round-fades zero kept ms w k h = h
  augment_round-fades (suc n) kept [] w k h = h
  augment_round-fades (suc n) kept (m ∷ ms) w k h =
      let r = augment_module found merge m w in
      let w1 = store m r w in
      let h1 = store-fades m w k h in
      elim (List-cases r.unapplied) [
        | inl e ↦
            subst (λ q. q.waiting.augments k ≡ [])
              (sym (augment_round-out found merge n kept m ms w e))
              (augment_round-fades n kept (last_first ms) w1 k h1)
        | inr (a, as_, e) ↦
            subst (λ q. q.waiting.augments k ≡ [])
              (sym (augment_round-kept found merge n kept m ms w a as_ e))
              (augment_round-fades n (kept ++ m ∷ []) ms w1 k h1)
      ]

  -- A module of the round is there still, or has no augments any more.
  pub augment_round-covers :
      (n : ℕ) (kept ms : List ℕ) (w : Waiting S A) (k : ℕ)
      → is_in k (kept ++ ms) ≡ true
      → (is_in k (augment_round found merge n kept ms w).mods ≡ true)
        ⊎ ((augment_round found merge n kept ms w).waiting.augments k ≡ [])
  unfolding augment_round
  augment_round-covers zero kept ms w k h = inl h
  augment_round-covers (suc n) kept [] w k h = inl h
  augment_round-covers (suc n) kept (m ∷ ms) w k h =
      let r = augment_module found merge m w in
      let w1 = store m r w in
      elim (List-cases r.unapplied) [
        | inl e ↦
            subst (λ q. (is_in k q.mods ≡ true) ⊎ (q.waiting.augments k ≡ []))
              (sym (augment_round-out found merge n kept m ms w e))
              (elim (Bool-cases (m == k)) [
                | inl f ↦
                    inr (augment_round-fades n kept (last_first ms) w1 k (store-empty m w k e f))
                | inr f ↦ augment_round-covers n kept (last_first ms) w1 k (
                    ground (
                      arith,
                      is_in-append k kept (last_first ms),
                      is_in-append k kept (m ∷ ms),
                      is_in-last_first k ms,
                    ))
              ])
        | inr (a, as_, e) ↦
            subst (λ q. (is_in k q.mods ≡ true) ⊎ (q.waiting.augments k ≡ []))
              (sym (augment_round-kept found merge n kept m ms w a as_ e))
              (augment_round-covers n (kept ++ m ∷ []) ms w1 k
                (ap (is_in k) (append_assoc kept (m ∷ []) ms) ∙ h))
      ]

  -- A round that applies no augment changes nothing, and no module that it visits has an augment with
  -- a target.
  pub record IsIdleRound (ms : List ℕ) (w : Waiting S A) (q : Round S A) : Type 0 where
    pub same : q.waiting ≡ w
    pub stuck : (k : ℕ) → is_in k ms ≡ true → IsStuck found w k

  -- The step of a round that applies none, with what the rest of the round shows.
  idle-step :
      (m : ℕ) (ms rest : List ℕ) (w : Waiting S A) (q : Round S A)
      → (augment_module found merge m w).processed + q.processed ≡ 0
      → ((k : ℕ) → is_in k rest ≡ is_in k ms)
      → IsIdleRound rest (store m (augment_module found merge m w) w) q
      → IsIdleRound (m ∷ ms) w (counted (augment_module found merge m w).processed q)
  unfolding augment_module
  idle-step m ms rest w q h both j =
      let r = augment_module found merge m w in
      let i = augment-IsIdle found merge false (w.augments m) w.entries (omega (arith, h)) in
      let same = store-same m r w i.left i.same in
      record {
        same = j.same ∙ same;
        stuck = λ k at. elim (Bool-cases (k == m)) [
          | inl e ↦ subst (IsStuck found w) (sym ((==_iff k m).0 e)) i.none_found
          | inr e ↦ subst (λ v. IsStuck found v k) same (j.stuck k (both k ∙ ground (arith, e, at)))
        ];
      }

  pub augment_round-IsIdleRound :
      (n : ℕ) (kept ms : List ℕ) (w : Waiting S A)
      → length ms ≤ n
      → (augment_round found merge n kept ms w).processed ≡ 0
      → IsIdleRound ms w (augment_round found merge n kept ms w)
  unfolding augment_round
  augment_round-IsIdleRound zero kept [] w l h = record { same = refl; stuck = λ k i. cc }
  augment_round-IsIdleRound zero kept (m ∷ ms) w l h = absurd (omega (arith, l))
  augment_round-IsIdleRound (suc n) kept [] w l h = record { same = refl; stuck = λ k i. cc }
  augment_round-IsIdleRound (suc n) kept (m ∷ ms) w l h =
      let r = augment_module found merge m w in
      let w1 = store m r w in
      elim (List-cases r.unapplied) [
        | inl e ↦
            let eq = augment_round-out found merge n kept m ms w e in
            let q = augment_round found merge n kept (last_first ms) w1 in
            let z : r.processed + q.processed ≡ 0 = ap (λ q. q.processed) (sym eq) ∙ h in
            subst (IsIdleRound (m ∷ ms) w) (sym eq) (
              idle-step m ms (last_first ms) w q z (λ k. is_in-last_first k ms)
                (augment_round-IsIdleRound n kept (last_first ms) w1
                  (omega (arith, l, length-last_first ms)) (omega (arith, z))))
        | inr (a, as_, e) ↦
            let eq = augment_round-kept found merge n kept m ms w a as_ e in
            let q = augment_round found merge n (kept ++ m ∷ []) ms w1 in
            let z : r.processed + q.processed ≡ 0 = ap (λ q. q.processed) (sym eq) ∙ h in
            subst (IsIdleRound (m ∷ ms) w) (sym eq) (
              idle-step m ms ms w q z (λ k. refl)
                (augment_round-IsIdleRound n (kept ++ m ∷ []) ms w1 (omega (arith, l))
                  (omega (arith, z))))
      ]
