-- ===== src/Entry/Augment/Stuck.antt =====
-- The loop of Process in pkg/yang/modules.go over the augments ends, and leaves none that has a target.
use goyang.Base.{
  ℕ, zero, suc, ◌<◌, ◌≡◌, refl, ◌∙◌, sym, ap, subst, Bool, true, false, List, [], ◌∷◌, ◌⊎◌, Option,
  some, length, All, arith, inl, inr, ⊎_elim, is_in,
}
use goyang.Entry.Augment.{Waiting, augment_round, augment_modules}
use goyang.Entry.Augment.Rounds.{IsStuck, weight, weight-augment_round}
use goyang.Entry.Augment.Visits.{
  augment_round-fades, augment_round-covers, augment_round-IsIdleRound,
}

zero-cases : (n : ℕ) → (n ≡ 0) ⊎ ((k : ℕ) × (n ≡ suc k))
zero-cases zero = inl refl
zero-cases (suc k) = inr (k, refl)

module _ {S A : Type 0} (found : S → A → Bool) (merge : A → S → S) where
  module _ (fuel m : ℕ) (ms : List ℕ) (w : Waiting S A) where
    loop-stop :
        (augment_round found merge (length (m ∷ ms)) [] (m ∷ ms) w).processed ≡ 0
        → augment_modules found merge (suc fuel) (m ∷ ms) w
          ≡ some (
            (augment_round found merge (length (m ∷ ms)) [] (m ∷ ms) w).mods,
            (augment_round found merge (length (m ∷ ms)) [] (m ∷ ms) w).waiting,
          )
    unfolding augment_modules
    loop-stop e =
        let q = augment_round found merge (length (m ∷ ms)) [] (m ∷ ms) w in
        ap
          (λ n. elim n as (λ _. Option (List ℕ × Waiting S A)) [
            | zero ↦ some (q.mods, q.waiting)
            | suc k ↦ augment_modules found merge fuel q.mods q.waiting
          ])
          e

    loop-next :
        (n : ℕ)
        → (augment_round found merge (length (m ∷ ms)) [] (m ∷ ms) w).processed ≡ suc n
        → augment_modules found merge (suc fuel) (m ∷ ms) w
          ≡ augment_modules found merge fuel
              (augment_round found merge (length (m ∷ ms)) [] (m ∷ ms) w).mods
              (augment_round found merge (length (m ∷ ms)) [] (m ∷ ms) w).waiting
    unfolding augment_modules
    loop-next n e =
        let q = augment_round found merge (length (m ∷ ms)) [] (m ∷ ms) w in
        ap
          (λ n. elim n as (λ _. Option (List ℕ × Waiting S A)) [
            | zero ↦ some (q.mods, q.waiting)
            | suc k ↦ augment_modules found merge fuel q.mods q.waiting
          ])
          e

  none-IsStuck : (w : Waiting S A) (k : ℕ) → w.augments k ≡ [] → IsStuck found w k
  none-IsStuck w k h = subst (All (λ a. found w.entries a ≡ false)) (sym h) tt

  -- A result of the loop: the augments that wait have no target in it, for each of the modules, and a
  -- module without augments has none in it.
  pub record Settles (ms : List ℕ) (w : Waiting S A) (o : Option (List ℕ × Waiting S A))
      : Type 0 where
    pub mods : List ℕ
    pub after : Waiting S A
    pub outcome : o ≡ some (mods, after)
    pub fades : (k : ℕ) → w.augments k ≡ [] → after.augments k ≡ []
    pub stuck : (k : ℕ) → is_in k ms ≡ true → IsStuck found after k

  -- Where the fuel is more than the augments that wait, the loop of Process ends, and no augment that
  -- waits for one of its modules has a target among the entries then.
  pub augment_modules-Settles :
      (fuel : ℕ) (ms : List ℕ) (w : Waiting S A)
      → weight w ms < fuel
      → Settles ms w (augment_modules found merge fuel ms w)
  unfolding augment_modules
  augment_modules-Settles zero ms w l = absurd (omega (arith, l))
  augment_modules-Settles (suc fuel) [] w l = record {
    mods = [];
    after = w;
    outcome = refl;
    fades = λ k h. h;
    stuck = λ k h. cc;
  }
  augment_modules-Settles (suc fuel) (m ∷ ms) w l =
      let q = augment_round found merge (length (m ∷ ms)) [] (m ∷ ms) w in
      elim (zero-cases q.processed) [
        | inl e ↦
            let i =
              augment_round-IsIdleRound found merge (length (m ∷ ms)) [] (m ∷ ms) w (omega arith)
                e in
            record {
              mods = q.mods;
              after = q.waiting;
              outcome = loop-stop fuel m ms w e;
              fades = augment_round-fades found merge (length (m ∷ ms)) [] (m ∷ ms) w;
              stuck = λ k h. subst (λ v. IsStuck found v k) (sym i.same) (i.stuck k h);
            }
        | inr (n, e) ↦
            let less : weight q.waiting q.mods < fuel =
              omega
                (arith, l, e, weight-augment_round found merge (length (m ∷ ms)) [] (m ∷ ms) w) in
            let r = augment_modules-Settles fuel q.mods q.waiting less in
            record {
              mods = r.mods;
              after = r.after;
              outcome = loop-next fuel m ms w n e ∙ r.outcome;
              fades = λ k h.
                  r.fades k (augment_round-fades found merge (length (m ∷ ms)) [] (m ∷ ms) w k h);
              stuck = λ k h.
                  ⊎_elim (λ i. r.stuck k i) (λ z. none-IsStuck r.after k (r.fades k z))
                    (augment_round-covers found merge (length (m ∷ ms)) [] (m ∷ ms) w k h);
            }
      ]
