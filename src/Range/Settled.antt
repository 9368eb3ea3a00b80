-- ===== src/Range/Settled.antt =====
-- What the sort and `coalesce` of pkg/yang/types_builtin.go do to a list that needs neither.
use mathlib.Core.List.{append_assoc, append-nil}
use goyang.Base.{
  ℕ, ◌≤◌, ◌<◌, ◌≡◌, refl, ◌∙◌, ap, true, false, [], ◌∷◌, ◌++◌, All, All-append, arith, ltb_iff, sym,
}
use goyang.Number.{less, add_quantum}
use goyang.Number.Order.{less-rank}
use goyang.Number.Scale.{rank}
use goyang.Number.Steps.{rank_apart}
use goyang.Range.{
  YRange, YangRange, range_less, insert_sorted, sort_onto, sort, coalesce_from, coalesce,
}
use goyang.Range.Spec.{IsRange, IsRanges, IsCoalesced, less-add_quantum}

-- The range is not less than any of the list.
abbrev Behind : YRange → YangRange → Type 0
Behind a = All (λ b. range_less a b ≡ false)

insert_sorted-Behind :
    (a : YRange) (rs : YangRange) → Behind a rs → insert_sorted a rs ≡ rs ++ a ∷ []
unfolding insert_sorted
insert_sorted-Behind a [] h = refl
insert_sorted-Behind a (b ∷ rs) h = rw h.0 (ap (λ s. b ∷ s) (insert_sorted-Behind a rs h.1))

-- All upper bounds of the list are below the lower bounds of the other.
abbrev Before : YangRange → ℕ → Type 0
Before out least = All (λ b. rank b.min < least) out

Before-Behind :
    (d : ℕ) (a : YRange) (out : YangRange)
    → IsRange d a
    → IsRanges d out
    → Before out (rank a.min)
    → Behind a out
unfolding range_less
Before-Behind d a [] ha ho h = tt
Before-Behind d a (b ∷ out) ha ho h = (
  ground (
    arith,
    less-rank ha.min_at.canonical ho.0.min_at.canonical,
    less-rank ho.0.min_at.canonical ha.min_at.canonical,
    h.0,
  ),
  Before-Behind d a out ha ho.1 h.1,
)

Before-le : (out : YangRange) (m n : ℕ) → m ≤ n → Before out m → Before out n
Before-le [] m n l h = tt
Before-le (b ∷ out) m n l h = (omega (arith, l, h.0), Before-le out m n l h.1)

abbrev Ahead : YangRange → YangRange → Type 0
Ahead out [] = Unit
Ahead out (a ∷ rs) = Before out (rank a.min)

sort_onto-IsCoalesced :
    (d : ℕ) (rs out : YangRange)
    → IsRanges d rs
    → IsCoalesced d rs
    → IsRanges d out
    → Ahead out rs
    → sort_onto rs out ≡ out ++ rs
unfolding sort_onto
sort_onto-IsCoalesced d [] out h co ho before = sym (append-nil out)
sort_onto-IsCoalesced d (a ∷ []) out h co ho before =
    insert_sorted-Behind a out (Before-Behind d a out h.0 ho before)
sort_onto-IsCoalesced d (a ∷ b ∷ rs) out h co ho before =
    let least : rank a.min < rank b.min = omega (arith, co.0, h.0.ordered) in
    let out1 = All-append (IsRange d) out (a ∷ []) ho (h.0, tt) in
    let ahead =
      All-append (λ c. rank c.min < rank b.min) out (a ∷ [])
        (Before-le out (rank a.min) (rank b.min) (omega (arith, least)) before) (least, tt) in
    rw (insert_sorted-Behind a out (Before-Behind d a out h.0 ho before)) (
      sort_onto-IsCoalesced d (b ∷ rs) (out ++ a ∷ []) h.1 co.1 out1 ahead
      ∙ append_assoc out (a ∷ []) (b ∷ rs))

Ahead-nil : (r : YangRange) → Ahead [] r
Ahead-nil [] = tt
Ahead-nil (a ∷ r) = tt

pub sort-IsCoalesced : (d : ℕ) (r : YangRange) → IsRanges d r → IsCoalesced d r → sort r ≡ r
unfolding sort
sort-IsCoalesced d r h co = sort_onto-IsCoalesced d r [] h co tt (Ahead-nil r)

coalesce_from-IsCoalesced :
    (d : ℕ) (cur : YRange) (rs : YangRange)
    → IsRanges d (cur ∷ rs)
    → IsCoalesced d (cur ∷ rs)
    → coalesce_from cur rs ≡ cur ∷ rs
unfolding coalesce_from
coalesce_from-IsCoalesced d cur [] h co = refl
coalesce_from-IsCoalesced d cur (r ∷ rs) h co =
    let room = (rank_apart h.0.max_at h.1.0.min_at (omega (arith, co.0))).1 in
    let apart : less (add_quantum cur.max 1) r.min ≡ true =
      less-add_quantum h.0.max_at h.1.0.min_at room ∙ (ltb_iff _ _).1 co.0 in
    rw (apart, coalesce_from) (ap (λ s. cur ∷ s) (coalesce_from-IsCoalesced d r rs h.1 co.1))

pub coalesce-IsCoalesced : (d : ℕ) (r : YangRange) → IsRanges d r → IsCoalesced d r → coalesce r ≡ r
unfolding coalesce
coalesce-IsCoalesced d [] h co = refl
coalesce-IsCoalesced d (r ∷ rs) h co = coalesce_from-IsCoalesced d r rs h co
