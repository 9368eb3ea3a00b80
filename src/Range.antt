-- ===== src/Range.antt =====
-- `YRange` and `YangRange` of pkg/yang/types_builtin.go: ranges of numbers, and lists of them, which
-- `range` and `length` statements are read into.
--
-- `sort` is the insertion sort that Go's `sort.Sort` runs on short slices. On longer ones it may
-- order ranges that `Less` does not tell apart otherwise, and those are equal records wherever
-- all bounds have one precision.
pub mod Spec
pub mod Sort
pub mod Validate
pub mod Settled
pub mod Coalesce
pub mod Contains
pub mod Text
use goyang.Base.{Bool, true, false, not, ◌&&◌, ◌||◌, List, [], ◌∷◌, if◌then◌else◌}
use goyang.Base.Result.{Result, ok, err}
use goyang.Number.{Number}
use goyang.Number

pub record YRange : Type 0 where
  pub min : Number
  pub max : Number

abbrev pub YangRange : Type 0
YangRange = List YRange

-- `Validate`'s errors.
pub data RangeError : Type 0 where
  not_sorted invalid_number overlapping_ranges : RangeError

unfoldable pub valid : YRange → Bool
valid r = not (Number.less r.max r.min)

unfoldable pub yrange_equal : YRange → YRange → Bool
yrange_equal r s = Number.equal r.min s.min && Number.equal r.max s.max

-- `YangRange.Less`, on the two ranges that its indices name.
unfoldable pub range_less : YRange → YRange → Bool
range_less a b =
    if Number.less a.min b.min
    then true
    else if Number.less b.min a.min
    then false
    else Number.less a.max b.max

-- `sort.IsSorted`: no range is less than the one before it.
unfoldable pub is_sorted : YangRange → Bool
is_sorted [] = true
is_sorted (a ∷ []) = true
is_sorted (a ∷ b ∷ rs) = not (range_less b a) && is_sorted (b ∷ rs)

-- The loop of `Validate`, which keeps the first range in `p`.
unfoldable pub overlaps : YRange → YangRange → Bool
overlaps p [] = false
overlaps p (n ∷ rs) = Number.less n.min p.max || overlaps p rs

validate_sorted : YangRange → Result RangeError (Unit {0})
validate_sorted [] = ok tt
validate_sorted (p ∷ rs) =
    if not (valid p)
    then err invalid_number
    else if overlaps p rs
    then err overlapping_ranges
    else ok tt

unfoldable pub validate : YangRange → Result RangeError (Unit {0})
unfolding validate_sorted
validate r = if not (is_sorted r) then err not_sorted else validate_sorted r

-- A range moves left past those that it is less than.
unfoldable pub insert_sorted : YRange → YangRange → YangRange
insert_sorted a [] = a ∷ []
insert_sorted a (b ∷ rs) = if range_less a b then a ∷ b ∷ rs else b ∷ insert_sorted a rs

unfoldable pub sort_onto : YangRange → YangRange → YangRange
sort_onto [] out = out
sort_onto (a ∷ rs) out = sort_onto rs (insert_sorted a out)

unfoldable pub sort : YangRange → YangRange
unfolding sort_onto insert_sorted
sort r = sort_onto r []

-- `YangRange.Equal`
unfoldable pub equal : YangRange → YangRange → Bool
equal [] [] = true
equal (a ∷ r) (b ∷ q) = yrange_equal a b && equal r q
equal _ _ = false

-- `for r[ri].Max.Less(ss.Min) { ri++ }`: the ranges from `ri` on, none when it runs off the end.
unfoldable pub advance : Number → YangRange → YangRange
advance least [] = []
advance least (c ∷ rs) = elim (Number.less c.max least) [ true ↦ advance least rs | false ↦ c ∷ rs ]

-- The test on `r[ri]` behind that loop.
unfoldable pub subsumes : YangRange → YRange → Bool
subsumes [] ss = false
subsumes (c ∷ rs) ss = not (Number.less ss.min c.min || Number.less c.max ss.max)

unfoldable pub contains_from : YangRange → YangRange → Bool
contains_from r [] = true
contains_from r (ss ∷ s) =
    let r' = advance ss.min r in
    let rest = contains_from r' s in if subsumes r' ss then rest else false

unfoldable pub contains : YangRange → YangRange → Bool
unfolding contains_from advance subsumes
contains [] s = true
contains (c ∷ r) s = contains_from (c ∷ r) s

-- `cr[i]` is `cur`; what stands before it is final.
unfoldable pub coalesce_from : YRange → YangRange → YangRange
coalesce_from cur [] = cur ∷ []
coalesce_from cur (r1 ∷ rs) = elim (Number.less (Number.add_quantum cur.max 1) r1.min) [
  | true ↦ cur ∷ coalesce_from r1 rs
  | false ↦
      coalesce_from (if Number.less cur.max r1.max then record cur { max = r1.max } else cur) rs
]

unfoldable pub coalesce : YangRange → YangRange
unfolding coalesce_from
coalesce [] = []
coalesce (r ∷ rs) = coalesce_from r rs
