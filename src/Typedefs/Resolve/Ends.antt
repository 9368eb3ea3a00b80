-- ===== src/Typedefs/Resolve/Ends.antt =====
-- The resolution of typedefs in pkg/yang/types.go ends where no typedef leads back to itself.
use goyang.Base.{
  ℕ, zero, suc, ◌<◌, ◌≡◌, refl, Bool, true, false, List, [], ◌∷◌, ◌++◌, All, arith, inl, inr,
  Bool-cases, Option-cases, List-cases,
}
use goyang.Base.Maps.{lookup}
use goyang.Base.Result.{ok, Result-cases}
use goyang.Typedefs.{Source}
use goyang.Typedefs.Resolve.{
  address_keys, Resolution, ResolveError, not_found, no_yang_type, Outcome, set_type, set_typedef,
  if_none, Parts, join_member, resolve_members, refine_type, derive_typedef, resolve_typedef,
  resolve_type, resolve_typedefs,
}
use goyang.Typedefs.Resolve.Growth.{
  is_set, all_set, Grows, Returns, is_set-insert, concat_nil, self-Grows, trans-Grows,
  set_type-Grows, set_typedef-Grows,
}

module _ {Y E : Type 0} (p : Parts Y E) where
  -- Numbers that fall from a typedef to its type, and from a type to the typedef that it names and to
  -- its members.
  pub record IsRanked (td_rank rank : ℕ → ℕ) : Type 0 where
    pub to_type :
        (td : ℕ) → (p.typedef_at td).has_parent ≡ true → rank (p.typedef_at td).type < td_rank td
    pub to_typedef : (a td : ℕ) (source : Source) → p.look a ≡ ok (source, td) → td_rank td < rank a
    pub to_members : (a : ℕ) → All (λ m. rank m < rank a) (p.members a)

  join_member-Grows : (a m : ℕ) (s : Resolution Y) → Grows s (join_member p a m s)
  join_member-Grows a m s = elim (Option-cases (lookup m s.types)) [
    | inl e ↦ rw (e, join_member) (self-Grows s)
    | inr (u, e) ↦ elim (Option-cases (lookup a s.types)) [
      | inl f ↦ rw (e, f, join_member) (self-Grows s)
      | inr (y, f) ↦ rw (e, f, join_member) (set_type-Grows a (p.add_type y u) s)
    ]
  ]

  -- The base types, which have no parent, have a `YangType` from the start.
  abbrev pub HasBases : Resolution Y → Type 0
  HasBases s = (td : ℕ) → (p.typedef_at td).has_parent ≡ false → is_set td s.typedefs ≡ true

  HasBases-Grows : {s t : Resolution Y} → HasBases s → Grows s t → HasBases t
  HasBases-Grows b g td e = g.typedefs td (b td e)

  -- What is shown of a call of `resolve` for a type.
  abbrev pub Ends : (ℕ → Resolution Y → Outcome Y E) → ℕ → Type 0
  Ends resolve a = (s : Resolution Y) → HasBases s → Returns s (λ t. is_set a t.types) (resolve a s)

  members-Returns :
      (resolve : ℕ → Resolution Y → Outcome Y E) (a : ℕ) (ms : List ℕ)
      (errors : List (ResolveError E)) (s : Resolution Y)
      → HasBases s
      → All (Ends resolve) ms
      → is_set a s.types ≡ true
      → Returns s (λ t. is_set a t.types) (resolve_members p resolve a ms errors s)
  unfolding resolve_members
  members-Returns resolve a [] errors s b h k = record {
    errors = errors;
    after = s;
    outcome = refl;
    grows = self-Grows s;
    is_complete = λ _. k;
  }
  members-Returns resolve a (m ∷ ms) errors s b h k =
      let r = h.0 s b in
      let s1 = join_member p a m r.after in
      let g = trans-Grows r.grows (join_member-Grows a m r.after) in
      let q =
        members-Returns resolve a ms (errors ++ r.errors) s1 (HasBases-Grows b g) h.1
          (g.types a k) in
      record {
        errors = q.errors;
        after = q.after;
        outcome = rw (r.outcome, resolve_members) q.outcome;
        grows = trans-Grows g q.grows;
        is_complete = q.is_complete;
      }

  refine_type-Returns :
      (resolve : ℕ → Resolution Y → Outcome Y E) (a : ℕ) (source : Source) (td : ℕ)
      (s : Resolution Y)
      → HasBases s
      → All (Ends resolve) (p.members a)
      → Returns s (λ t. is_set a t.types) (refine_type p resolve a source td s)
  unfolding refine_type
  refine_type-Returns resolve a source td s b h = elim (Option-cases (lookup td s.typedefs)) [
    | inl e ↦
        rw (e, refine_type)
          (record {
            errors = no_yang_type td ∷ [];
            after = s;
            outcome = refl;
            grows = self-Grows s;
            is_complete = λ (z : no_yang_type td ∷ [] ≡ []). cc;
          })
    | inr (below, e) ↦
        let r = p.refine a source td below in
        let s1 = set_type a r.1.1 s in
        let g = set_type-Grows a r.1.1 s in
        let k : is_set a s1.types ≡ true = rw (is_set-insert a a r.1.1 s.types) (ground arith) in
        let q = members-Returns resolve a (p.members a) r.1.0 s1 (HasBases-Grows b g) h k in
        elim (Bool-cases r.0) [
          | inl f ↦
              rw (e, f, refine_type)
                (record {
                  errors = q.errors;
                  after = q.after;
                  outcome = q.outcome;
                  grows = trans-Grows g q.grows;
                  is_complete = q.is_complete;
                })
          | inr f ↦
              rw (e, f, refine_type)
                (record {
                  errors = r.1.0;
                  after = s1;
                  outcome = refl;
                  grows = g;
                  is_complete = λ _. k;
                })
        ]
  ]

  -- The rest of a step, where the first part had no errors.
  if_none-Returns :
      (s : Resolution Y) (d d' : Resolution Y → Bool) (o : Outcome Y E)
      (k : Resolution Y → Outcome Y E)
      → Returns s d o
      → ((t : Resolution Y) → Grows s t → d t ≡ true → Returns t d' (k t))
      → Returns s d' (if_none o k)
  if_none-Returns s d d' o k r rest = elim (List-cases r.errors) [
    | inl e ↦
        let q = rest r.after r.grows (r.is_complete e) in
        record {
          errors = q.errors;
          after = q.after;
          outcome = rw (r.outcome, e, if_none) q.outcome;
          grows = trans-Grows r.grows q.grows;
          is_complete = q.is_complete;
        }
    | inr (x, xs, e) ↦ record {
      errors = x ∷ xs;
      after = r.after;
      outcome = rw (r.outcome, e, if_none) refl;
      grows = r.grows;
      is_complete = λ (z : x ∷ xs ≡ []). cc;
    }
  ]

  derive_typedef-Returns :
      (td : ℕ) (s : Resolution Y)
      → is_set (p.typedef_at td).type s.types ≡ true
      → Returns s (λ t. is_set td t.typedefs) (derive_typedef p td s)
  unfolding derive_typedef
  derive_typedef-Returns td s h = elim (Option-cases (lookup (p.typedef_at td).type s.types)) [
    | inl e ↦ ground (arith, e, h)
    | inr (y, e) ↦ elim (Result-cases (p.derive td y)) [
      | inl (z, f) ↦
          rw (e, f, derive_typedef)
            (record {
              errors = [];
              after = set_typedef td z s;
              outcome = refl;
              grows = set_typedef-Grows td z s;
              is_complete = λ _. rw (is_set-insert td td z s.typedefs) (ground arith);
            })
      | inr (x, f) ↦
          rw (e, f, derive_typedef)
            (record {
              errors = x ∷ [];
              after = s;
              outcome = refl;
              grows = self-Grows s;
              is_complete = λ (z : x ∷ [] ≡ []). cc;
            })
    ]
  ]

  module _ (td_rank rank : ℕ → ℕ) (falls : IsRanked td_rank rank) where
    All-Ends :
        (resolve : ℕ → Resolution Y → Outcome Y E) (n : ℕ) (ms : List ℕ)
        → ((m : ℕ) → rank m < n → Ends resolve m)
        → All (λ m. rank m < n) ms
        → All (Ends resolve) ms
    All-Ends resolve n [] f h = tt
    All-Ends resolve n (m ∷ ms) f (h, hs) = (f m h, All-Ends resolve n ms f hs)

    mutual
      unfolding resolve_typedef

      typedef_ends :
          (fuel td : ℕ) (s : Resolution Y)
          → td_rank td < fuel
          → HasBases s
          → Returns s (λ t. is_set td t.typedefs) (resolve_typedef p fuel td s)
      typedef_ends zero td s lt b = absurd (omega (arith, lt))
      typedef_ends (suc fuel) td s lt b = elim (Bool-cases (p.typedef_at td).has_parent) [
        | inr e ↦
            rw (e, resolve_typedef)
              (record {
                errors = [];
                after = s;
                outcome = refl;
                grows = self-Grows s;
                is_complete = λ _. b td e;
              })
        | inl e ↦ elim (Option-cases (lookup td s.typedefs)) [
          | inr (y, f) ↦
              rw (e, f, resolve_typedef)
                (record {
                  errors = [];
                  after = s;
                  outcome = refl;
                  grows = self-Grows s;
                  is_complete = λ _. rw (is_set, f) refl;
                })
          | inl f ↦
              let a = (p.typedef_at td).type in
              rw (e, f, resolve_typedef)
                (if_none-Returns s (λ t. is_set a t.types) (λ t. is_set td t.typedefs)
                  (resolve_type p fuel a s) (derive_typedef p td)
                  (type_ends fuel a s (omega (arith, lt, falls.to_type td e)) b)
                  (λ t g k. derive_typedef-Returns td t k))
        ]
      ]

      type_ends :
          (fuel a : ℕ) (s : Resolution Y)
          → rank a < fuel
          → HasBases s
          → Returns s (λ t. is_set a t.types) (resolve_type p fuel a s)
      type_ends zero a s lt b = absurd (omega (arith, lt))
      type_ends (suc fuel) a s lt b = elim (Option-cases (lookup a s.types)) [
        | inr (y, f) ↦
            rw (f, resolve_type)
              (record {
                errors = [];
                after = s;
                outcome = refl;
                grows = self-Grows s;
                is_complete = λ _. rw (is_set, f) refl;
              })
        | inl f ↦ elim (Result-cases (p.look a)) [
          | inr (x, g) ↦
              rw (f, g, resolve_type)
                (record {
                  errors = not_found x ∷ [];
                  after = s;
                  outcome = refl;
                  grows = self-Grows s;
                  is_complete = λ (z : not_found x ∷ [] ≡ []). cc;
                })
          | inl ((source, td), g) ↦
              let inner =
                All-Ends (resolve_type p fuel) (rank a) (p.members a)
                  (λ m l t bt. type_ends fuel m t (omega (arith, lt, l)) bt) (falls.to_members a) in
              rw (f, g, resolve_type)
                (if_none-Returns s (λ t. is_set td t.typedefs) (λ t. is_set a t.types)
                  (resolve_typedef p fuel td s) (refine_type p (resolve_type p fuel) a source td)
                  (typedef_ends fuel td s (omega (arith, lt, falls.to_typedef a td source g)) b)
                  (λ t g k.
                    refine_type-Returns (resolve_type p fuel) a source td t (HasBases-Grows b g)
                      inner))
        ]
      ]

    typedefs_end :
        (fuel : ℕ) (tds : List ℕ) (errors : List (ResolveError E)) (s : Resolution Y)
        → All (λ td. td_rank td < fuel) tds
        → HasBases s
        → (r : Returns s (λ t. all_set tds t.typedefs) (resolve_typedefs p fuel tds errors s))
          × (r.errors ≡ [] → errors ≡ [])
    unfolding resolve_typedefs
    typedefs_end fuel [] errors s h b = (
      record {
        errors = errors;
        after = s;
        outcome = refl;
        grows = self-Grows s;
        is_complete = λ _. refl;
      },
      λ z. z,
    )
    typedefs_end fuel (td ∷ tds) errors s (h, hs) b =
        let r = typedef_ends fuel td s h b in
        let (q, clean) =
          typedefs_end fuel tds (errors ++ r.errors) r.after hs (HasBases-Grows b r.grows) in
        (
          record {
            errors = q.errors;
            after = q.after;
            outcome = rw (r.outcome, resolve_typedefs) q.outcome;
            grows = trans-Grows r.grows q.grows;
            is_complete = λ z.
                let set =
                  q.grows.typedefs td (r.is_complete ((concat_nil errors r.errors (clean z)).1)) in
                rw (set, q.is_complete z) refl;
          },
          λ z. (concat_nil errors r.errors (clean z)).0,
        )

    -- Where numbers below the fuel fall from each typedef to its type, and from each type to the
    -- typedef that it names and to its members, and the base types have a `YangType`, the resolution of
    -- all typedefs ends: what had a `YangType` has one still, and without errors each typedef has one.
    pub resolve_typedefs-Returns :
        (fuel : ℕ) (tds : List ℕ) (s : Resolution Y)
        → All (λ td. td_rank td < fuel) tds
        → HasBases s
        → Returns s (λ t. all_set tds t.typedefs) (resolve_typedefs p fuel tds [] s)
    resolve_typedefs-Returns fuel tds s h b = (typedefs_end fuel tds [] s h b).0
