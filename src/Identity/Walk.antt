-- ===== src/Identity/Walk.antt =====
-- `addChildren` of pkg/yang/identity.go on identities without a cycle: it ends, and collects what is
-- reachable through the values, once each.
use goyang.Base.{
  ℕ, zero, suc, ◌<◌, ◌≡◌, refl, ap, ◌∙◌, ◌⊎◌, inl, inr, ⊎_elim, subst, sym, ◌↔◌, true, List, [],
  ◌∷◌, Option, some, arith, Bool-cases, ◌==◌, ==_iff, is_in, NoDup, is_in-concat, NoDup-concat,
}
use goyang.Base.Options.{◌>>=◌}
use goyang.Identity.{append_if_not_in, add_each, add_children}

-- The walks along values.
pub data Reach (g : ℕ → List ℕ) : ℕ → ℕ → Type 0 where
  here : {a : ℕ} → Reach g a a
  step : {a c x : ℕ} → is_in c (g a) ≡ true → Reach g c x → Reach g a x

-- The walks of at least one step, from a list of addresses.
abbrev pub From : (ℕ → List ℕ) → List ℕ → ℕ → Type 0
From g cs x = (c : ℕ) × (is_in c cs ≡ true) × Reach g c x

is_in-append_if_not_in :
    (x a : ℕ) (ids : List ℕ)
    → (is_in x (append_if_not_in ids a) ≡ true) ↔ ((is_in x ids ≡ true) ⊎ (x ≡ a))
unfolding append_if_not_in
is_in-append_if_not_in x a ids = ground (arith, is_in-concat x a ids)

append_if_not_in-NoDup : (a : ℕ) (ids : List ℕ) → NoDup ids → NoDup (append_if_not_in ids a)
unfolding append_if_not_in
append_if_not_in-NoDup a ids d = elim (Bool-cases (is_in a ids)) [
  | inl e ↦ rw (append_if_not_in, e) d
  | inr e ↦ rw (append_if_not_in, e) (NoDup-concat a ids e d)
]

-- A run of the collector on `ids`: it ends, and adds exactly what `P` holds of.
pub record Collects (r : Option (List ℕ)) (ids : List ℕ) (P : ℕ → Type 0) : Type 0 where
  pub out : List ℕ
  pub returns : r ≡ some out
  pub exact : (x : ℕ) → (is_in x out ≡ true) ↔ ((is_in x ids ≡ true) ⊎ P x)
  pub distinct : NoDup ids → NoDup out

Reach_first : (g : ℕ → List ℕ) {a x : ℕ} → Reach g a x → (x ≡ a) ⊎ From g (g a) x
Reach_first g here = inl refl
Reach_first g (step {a} {c} m w) = inr (c, m, w)

Reach_cases : (g : ℕ → List ℕ) (a x : ℕ) → Reach g a x ↔ ((x ≡ a) ⊎ From g (g a) x)
Reach_cases g a x =
    (Reach_first g, ⊎_elim (λ e. subst (Reach g a) (sym e) here) (λ (c, m, w). step m w))

From-cons :
    (g : ℕ → List ℕ) (c : ℕ) (cs : List ℕ) (x : ℕ) → From g (c ∷ cs) x ↔ (Reach g c x ⊎ From g cs x)
From-cons g c cs x = (
  λ (d, m, w). elim (Bool-cases (d == c)) [
    | inl e ↦ inl (subst (λ z. Reach g z x) ((==_iff d c).0 e) w)
    | inr e ↦ inr (d, ground arith, w)
  ],
  ⊎_elim (λ w. (c, ground arith, w)) (λ (d, m, w). (d, ground arith, w)),
)

module _ (g : ℕ → List ℕ) (rank : ℕ → ℕ)
    (falls : (a c : ℕ) → is_in c (g a) ≡ true → rank c < rank a) where
  pub add_each-Collects :
      (f : ℕ → List ℕ → Option (List ℕ)) (cs : List ℕ)
      → ((c : ℕ) → is_in c cs ≡ true → (ids : List ℕ) → Collects (f c ids) ids (Reach g c))
      → (ids : List ℕ) → Collects (add_each f cs ids) ids (From g cs)
  unfolding add_each
  add_each-Collects f [] h ids = record {
    out = ids;
    returns = refl;
    exact = λ x. (inl, ⊎_elim (λ m. m) (λ (c, m, w). absurd (ground arith)));
    distinct = λ d. d;
  }
  add_each-Collects f (c ∷ cs) h ids =
      let now = h c (ground arith) ids in
      let later = add_each-Collects f cs (λ d m. h d (ground arith)) now.out in
      record {
        out = later.out;
        returns = ap (λ z. z >>= add_each f cs) now.returns ∙ later.returns;
        exact = λ x. ground (arith, now.exact x, later.exact x, From-cons g c cs x);
        distinct = λ d. later.distinct (now.distinct d);
      }

  -- Without a cycle, the run ends on a fuel above the rank.
  pub add_children-Collects :
      (fuel r : ℕ) (ids : List ℕ)
      → rank r < fuel
      → Collects (add_children fuel g r ids) ids (Reach g r)
  unfolding add_children
  add_children-Collects zero r ids h = absurd (omega arith)
  add_children-Collects (suc fuel) r ids h =
      let start = append_if_not_in ids r in
      let all =
        add_each-Collects (add_children fuel g) (g r)
          (λ c m out. add_children-Collects fuel c out (omega (arith, falls r c m))) start in
      record {
        out = all.out;
        returns = all.returns;
        exact = λ x. ground (arith, all.exact x, is_in-append_if_not_in x r ids, Reach_cases g r x);
        distinct = λ d. all.distinct (append_if_not_in-NoDup r ids d);
      }
