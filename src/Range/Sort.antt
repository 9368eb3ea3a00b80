-- ===== src/Range/Sort.antt =====
-- `Sort` returns the same ranges in the order of `Less`.
use mathlib.Core.List.{Perm, perm_middle, append-nil}
use mathlib.Core.List.Perm
use goyang.Base.{
  ◌≡◌, refl, true, ◌||◌, [], ◌∷◌, ◌++◌, arith, ltb, ◌==◌, if◌then◌else◌, inl, inr, Bool-cases, All,
}
use goyang.Number.{Number, IsCanonical}
use goyang.Number.Scale.{rank}
use goyang.Number.Order.{less-rank}
use goyang.Range.{YRange, YangRange, range_less, is_sorted, insert_sorted, sort_onto, sort}
use goyang.Range.Spec.{holds, within, IsAscending}

-- Both bounds are canonical numbers, of any precision.
pub record HasBounds (r : YRange) : Type 0 where
  pub min_canonical : IsCanonical r.min
  pub max_canonical : IsCanonical r.max

-- By the lower bounds, and by the upper ones where those are equal.
pub range_less-rank :
    {a b : YRange}
    → HasBounds a
    → HasBounds b
    → range_less a b ≡ (
        if rank a.min == rank b.min
        then ltb (rank a.max) (rank b.max)
        else ltb (rank a.min) (rank b.min))
unfolding range_less
range_less-rank ha hb =
    rw
      (
        less-rank ha.min_canonical hb.min_canonical,
        less-rank hb.min_canonical ha.min_canonical,
        less-rank ha.max_canonical hb.max_canonical,
      )
      (ground arith)

is_sorted-IsAscending : (r : YangRange) → All HasBounds r → is_sorted r ≡ true → IsAscending r
unfolding is_sorted
is_sorted-IsAscending [] h e = tt
is_sorted-IsAscending (a ∷ []) h e = tt
is_sorted-IsAscending (a ∷ b ∷ rs) h e =
    let test = range_less-rank h.1.0 h.0 in
    (ground (arith, test), is_sorted-IsAscending (b ∷ rs) h.1 (ground arith))

-- The range before `a` and the list, when `a` goes in behind it.
insert_sorted-is_sorted :
    (a : YRange) (r : YangRange)
    → HasBounds a
    → All HasBounds r
    → is_sorted r ≡ true
    → is_sorted (insert_sorted a r) ≡ true
unfolding is_sorted insert_sorted
insert_sorted-is_sorted a [] ha h e = refl
insert_sorted-is_sorted a (b ∷ []) ha h e =
    let test = range_less-rank ha h.0 in
    let test' = range_less-rank h.0 ha in ground (arith, test, test')
insert_sorted-is_sorted a (b ∷ c ∷ rs) ha h e =
    let test = range_less-rank ha h.0 in
    let test' = range_less-rank h.0 ha in
    ground (arith, test, test', insert_sorted-is_sorted a (c ∷ rs) ha h.1)

insert_sorted-perm : (a : YRange) (r : YangRange) → Perm (insert_sorted a r) (a ∷ r)
unfolding insert_sorted
insert_sorted-perm a [] = Perm.refl (a ∷ [])
insert_sorted-perm a (b ∷ rs) = elim (Bool-cases (range_less a b)) [
  | inl e ↦ rw (e, insert_sorted) (Perm.refl (a ∷ b ∷ rs))
  | inr e ↦
      rw (e, insert_sorted) (Perm.trans (Perm.cons b (insert_sorted-perm a rs)) (Perm.swap a b rs))
]

module _ (P : YRange → Type 0) where
  insert_sorted-All : (a : YRange) (r : YangRange) → P a → All P r → All P (insert_sorted a r)
  unfolding insert_sorted
  insert_sorted-All a [] ha h = (ha, tt)
  insert_sorted-All a (b ∷ rs) ha h = elim (Bool-cases (range_less a b)) [
    | inl e ↦ rw (e, insert_sorted) (ha, h)
    | inr e ↦ rw (e, insert_sorted) (h.0, insert_sorted-All a rs ha h.1)
  ]

  sort_onto-All : (r out : YangRange) → All P r → All P out → All P (sort_onto r out)
  unfolding sort_onto
  sort_onto-All [] out h k = k
  sort_onto-All (a ∷ rs) out h k =
      sort_onto-All rs (insert_sorted a out) h.1 (insert_sorted-All a out h.0 k)

  pub sort-All : (r : YangRange) → All P r → All P (sort r)
  unfolding sort
  sort-All r h = sort_onto-All r [] h tt

sort_onto-is_sorted :
    (r out : YangRange)
    → All HasBounds r
    → All HasBounds out
    → is_sorted out ≡ true
    → is_sorted (sort_onto r out) ≡ true
unfolding sort_onto
sort_onto-is_sorted [] out h k e = e
sort_onto-is_sorted (a ∷ rs) out h k e =
    sort_onto-is_sorted rs (insert_sorted a out) h.1 (insert_sorted-All HasBounds a out h.0 k)
      (insert_sorted-is_sorted a out h.0 k e)

sort_onto-perm : (r out : YangRange) → Perm (sort_onto r out) (r ++ out)
unfolding sort_onto
sort_onto-perm [] out = Perm.refl out
sort_onto-perm (a ∷ rs) out =
    Perm.trans (sort_onto-perm rs (insert_sorted a out))
      (Perm.trans (Perm.append (Perm.refl rs) (insert_sorted-perm a out)) (perm_middle rs out))

-- `Sort` keeps every range as often as it stands there, and `sort.IsSorted` accepts its result.
pub sort-is_sorted :
    (r : YangRange)
    → All HasBounds r
    → (is_sorted (sort r) ≡ true) × IsAscending (sort r) × Perm (sort r) r
unfolding sort
sort-is_sorted r h =
    let done = sort_onto-is_sorted r [] h tt (unfold is_sorted in refl) in
    (
      done,
      is_sorted-IsAscending (sort r) (sort-All HasBounds r h) done,
      rw append-nil at (sort_onto-perm r []),
    )

insert_sorted-holds :
    (n : Number) (a : YRange) (r : YangRange)
    → holds n (insert_sorted a r) ≡ (within n a || holds n r)
unfolding insert_sorted
insert_sorted-holds n a [] = refl
insert_sorted-holds n a (b ∷ rs) = ground (arith, insert_sorted-holds n a rs)

sort_onto-holds :
    (n : Number) (r out : YangRange) → holds n (sort_onto r out) ≡ (holds n r || holds n out)
unfolding sort_onto
sort_onto-holds n [] out = refl
sort_onto-holds n (a ∷ rs) out =
    ground (arith, sort_onto-holds n rs (insert_sorted a out), insert_sorted-holds n a out)

pub sort-holds : (n : Number) (r : YangRange) → holds n (sort r) ≡ holds n r
unfolding sort
sort-holds n r = ground (arith, sort_onto-holds n r [])
