-- ===== src/Number/Order.antt =====
-- `Less` and `Equal` compare the numbers themselves.
use Prim.Native.Nat.{◌-◌}
use goyang.Base.{
  ℕ, zero, suc, ◌+◌, ◌*◌, ◌%◌, ◌^◌, ◌≤◌, ◌<◌, ◌≡◌, ◌↔◌, ◌⊎◌, ltb_iff, leb, inl, inr, refl, Bool,
  true, false, arith, ltb, if◌then◌else◌,
}
use goyang.Number.{Number, IsNumber, IsCanonical, less_abs, less, equal, add_quantum}
use goyang.Number.Scale.{
  scaled, origin, rank, unit_bounds, mul_pos, scaled_digits, scaled-le-origin,
}

-- On two numbers of one sign.
less_abs-scaled :
    (n m : Number) (negative : Bool)
    → IsNumber n
    → IsNumber m
    → less_abs n m negative
      ≡ (if negative then ltb (scaled m) (scaled n) else ltb (scaled n) (scaled m))
unfolding less_abs
less_abs-scaled n m negative hn hm = ground (arith, scaled_digits n hn, scaled_digits m hm)

scaled_pos : (n : Number) → IsNumber n → 0 < n.value → 0 < scaled n
unfolding scaled
scaled_pos n h p = mul_pos _ _ p (unit_bounds n.fraction_digits h.digits_fit).0

-- The test as one comparison of shifted values.
pub less-rank : {n m : Number} → IsCanonical n → IsCanonical m → less n m ≡ ltb (rank n) (rank m)
unfolding less rank
less-rank {n} {m} hn hm = ground (
  arith,
  less_abs-scaled n m n.negative hn.is_number hm.is_number,
  scaled-le-origin n hn.is_number,
  scaled-le-origin m hm.is_number,
  scaled_pos n hn.is_number,
  scaled_pos m hm.is_number,
)

-- `Less` is the order of the values, over both signs and all precisions, a negative zero excepted.
pub less_iff :
    {n m : Number} → IsCanonical n → IsCanonical m → (less n m ≡ true) ↔ (rank n < rank m)
less_iff hn hm = rw (less-rank hn hm) (ltb_iff _ _)

-- `Equal` holds of two numbers exactly when they have the same value, whatever their precisions.
pub equal_iff :
    {n m : Number} → IsCanonical n → IsCanonical m → (equal n m ≡ true) ↔ (rank n ≡ rank m)
unfolding equal
equal_iff hn hm = rw (less-rank hn hm, less-rank hm hn) (ground arith)

abbrev Raised : Number → Type 0
Raised n =
    IsCanonical (add_quantum n 1)
    × (rank (add_quantum n 1) ≡ rank n + 10 ^ (18 - n.fraction_digits))

add_quantum-Raised :
    (negative : Bool) (v e : ℕ)
    → e ≤ 18
    → v < 2 ^ 64
    → (negative ≡ true → 0 < v)
    → (negative ≡ true) ⊎ (v < 2 ^ 64 - 1)
    → Raised (record { value = v; fraction_digits = e; negative = negative })
unfolding add_quantum rank scaled
add_quantum-Raised true zero e he hv signed room = elim (signed refl) [ ]
add_quantum-Raised true (suc zero) e he hv signed room =
    (ground arith, omega (arith, unit_bounds e he))
add_quantum-Raised true (suc (suc u)) e he hv signed room =
    let more : leb (suc (suc u)) 1 ≡ false = ground arith in
    let unit = 10 ^ (18 - e) in
    let small = (unit_bounds e he).1 in
    let fits : suc (suc u) * unit ≤ origin = grind arith in
    let less_one : suc (suc u) - 1 ≡ suc u = omega arith in
    rw more (ground arith, rw less_one (omega arith))
add_quantum-Raised false v e he hv signed room = elim room [
  | inl wrong ↦ cc
  | inr fits ↦
      let exact : (v + 1) % 2 ^ 64 ≡ v + 1 = omega arith in rw exact (ground arith, omega arith)
]

-- Without overflow `addQuantum` moves up by the smallest step of the number's precision.
pub rank-add_quantum :
    (n : Number)
    → IsCanonical n
    → (n.negative ≡ true) ⊎ (n.value < 2 ^ 64 - 1)
    → IsCanonical (add_quantum n 1)
      × (rank (add_quantum n 1) ≡ rank n + 10 ^ (18 - n.fraction_digits))
rank-add_quantum n h room =
    add_quantum-Raised n.negative n.value n.fraction_digits h.is_number.digits_fit
      h.is_number.value_fits h.signed room
