-- ===== src/Range/Coalesce.antt =====
-- `coalesce` joins ranges without changing the numbers that they hold.
use goyang.Base.{
  ℕ, ◌+◌, ◌≤◌, ◌<◌, ◌≡◌, refl, subst, ◌∙◌, ◌||◌, [], ◌∷◌, arith, ltb, if◌then◌else◌, inl, inr,
  Bool-cases,
}
use goyang.Number.{Number, less, add_quantum}
use goyang.Number.Scale.{rank}
use goyang.Number.Order.{less-rank}
use goyang.Number.Steps.{step, IsAt, HasRoom, rank_apart}
use goyang.Range.{YRange, YangRange, coalesce_from, coalesce}
use goyang.Range.Spec.{
  within, holds, SameNumbers, IsRange, IsRanges, HasInnerRoom, IsAscending, IsCoalesced,
  less-add_quantum,
}

-- `cr[i].Max = r1.Max` where `r1` ends later.
abbrev joined : YRange → YRange → YRange
joined cur r1 = if less cur.max r1.max then record cur { max = r1.max } else cur

module _ {d : ℕ} {cur r1 : YRange} (hc : IsRange d cur) (hr : IsRange d r1) where
  less_max : less cur.max r1.max ≡ ltb (rank cur.max) (rank r1.max)
  less_max = less-rank hc.max_at.canonical hr.max_at.canonical

  joined-IsRange : rank cur.min ≤ rank r1.min → IsRange d (joined cur r1)
  joined-IsRange lo = elim (Bool-cases (less cur.max r1.max)) [
    | inl e ↦
        rw e
          (record { min_at = hc.min_at; max_at = hr.max_at; ordered = ground (arith, hr.ordered) })
    | inr e ↦ rw e hc
  ]

  joined-HasRoom : HasRoom cur.max → HasRoom r1.max → HasRoom (joined cur r1).max
  joined-HasRoom a b = elim (Bool-cases (less cur.max r1.max)) [ inl e ↦ rw e b | inr e ↦ rw e a ]

  joined-min : (joined cur r1).min ≡ cur.min
  joined-min = elim (Bool-cases (less cur.max r1.max)) [ inl e ↦ rw e refl | inr e ↦ rw e refl ]

  -- Two ranges that touch or overlap hold what their union holds.
  within-joined :
      {n : Number}
      → IsAt d n
      → rank cur.min ≤ rank r1.min
      → rank r1.min ≤ rank cur.max + step d
      → within n (joined cur r1) ≡ (within n cur || within n r1)
  within-joined {n} hn lo hi = elim (Bool-cases (less cur.max r1.max)) [
    | inl e ↦ rw e (ground (arith, less_max, rank_apart hc.max_at hn, hc.ordered, hr.ordered))
    | inr e ↦ rw e (ground (arith, less_max, hc.ordered, hr.ordered))
  ]

-- The first range of a list begins at `lo`.
abbrev StartsAt : Number → YangRange → Type 0
StartsAt lo [] = ⊥
StartsAt lo (c ∷ rs) = c.min ≡ lo

-- What the loop has made of `cur` and the ranges behind it.
record Joins (d : ℕ) (cur : YRange) (rs out : YangRange) : Type 0 where
  ranges : IsRanges d out
  coalesced : IsCoalesced d out
  starts : StartsAt cur.min out
  same : (n : Number) → IsAt d n → holds n out ≡ (within n cur || holds n rs)

IsCoalesced-cons :
    (d : ℕ) (lo : Number) (cur : YRange) (out : YangRange)
    → StartsAt lo out
    → rank cur.max + step d < rank lo
    → IsCoalesced d out
    → IsCoalesced d (cur ∷ out)
IsCoalesced-cons d lo cur [] s apart h = tt
IsCoalesced-cons d lo cur (c ∷ rs) s apart h = (rw s apart, h)

HasInnerRoom-joined :
    (cur' cur r1 : YRange) (rs : YangRange)
    → (HasRoom cur.max → HasRoom r1.max → HasRoom cur'.max)
    → HasInnerRoom (cur ∷ r1 ∷ rs)
    → HasInnerRoom (cur' ∷ rs)
HasInnerRoom-joined cur' cur r1 [] k h = tt
HasInnerRoom-joined cur' cur r1 (s ∷ rs) k h = (k h.0 h.1.0, h.1.1)

IsAscending-joined :
    (cur' cur r1 : YRange) (rs : YangRange)
    → cur'.min ≡ cur.min
    → IsAscending (cur ∷ r1 ∷ rs)
    → IsAscending (cur' ∷ rs)
IsAscending-joined cur' cur r1 [] e h = tt
IsAscending-joined cur' cur r1 (s ∷ rs) e h = (rw e (omega (arith, h.0, h.1.0)), h.1.1)

coalesce_from-Joins :
    {d : ℕ} (cur : YRange) (rs : YangRange)
    → IsRange d cur
    → IsRanges d rs
    → HasInnerRoom (cur ∷ rs)
    → IsAscending (cur ∷ rs)
    → Joins d cur rs (coalesce_from cur rs)
unfolding coalesce_from
coalesce_from-Joins cur [] hc _ _ _ = record {
  ranges = (hc, tt);
  coalesced = tt;
  starts = refl;
  same = λ n hn. refl;
}
coalesce_from-Joins {d} cur (r1 ∷ rs) hc (hr, hrs) room up =
    let test = less-add_quantum hc.max_at hr.min_at room.0 in
    elim (Bool-cases (less (add_quantum cur.max 1) r1.min)) [
      | inl beyond ↦
          let rest = coalesce_from-Joins r1 rs hr hrs room.1 up.1 in
          rw (beyond, coalesce_from)
            (record {
              ranges = (hc, rest.ranges);
              coalesced = IsCoalesced-cons d _ cur _ rest.starts (ground arith) rest.coalesced;
              starts = refl;
              same = λ n hn. rw (rest.same n hn);
            })
      | inr touching ↦
          let rest =
            coalesce_from-Joins (joined cur r1) rs (joined-IsRange hc hr up.0) hrs
              (HasInnerRoom-joined (joined cur r1) cur r1 rs (joined-HasRoom hc hr) room)
              (IsAscending-joined (joined cur r1) cur r1 rs (joined-min hc hr) up) in
          rw (touching, coalesce_from)
            (record {
              ranges = rest.ranges;
              coalesced = rest.coalesced;
              starts =
                  subst (λ x. StartsAt x (coalesce_from (joined cur r1) rs)) (joined-min hc hr)
                    rest.starts;
              same = λ n hn. rest.same n hn ∙ ground (arith, within-joined hc hr hn up.0);
            })
    ]

-- On ascending ranges `coalesce` neither loses nor adds a number, and leaves no two ranges to join.
pub coalesce-Joins :
    {d : ℕ} (r : YangRange)
    → IsRanges d r
    → HasInnerRoom r
    → IsAscending r
    → IsRanges d (coalesce r) × IsCoalesced d (coalesce r) × SameNumbers d (coalesce r) r
unfolding coalesce
coalesce-Joins [] hr room up = (tt, tt, λ n hn. refl)
coalesce-Joins (c ∷ rs) (hc, hrs) room up =
    let j = coalesce_from-Joins c rs hc hrs room up in (j.ranges, j.coalesced, j.same)
