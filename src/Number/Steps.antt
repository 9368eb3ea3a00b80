-- ===== src/Number/Steps.antt =====
-- Numbers of one precision stand on a grid: two different ones are at least one step apart.
use Prim.Native.Nat.{◌-◌}
use goyang.Number.{add_quantum}
use goyang.Number.Scale.{unit_bounds}
use goyang.Number.Order.{rank-add_quantum}
use goyang.Base.{ap, ◌∙◌, ℕ, suc, ◌+◌, ◌*◌, ◌^◌, ◌≤◌, ◌<◌, ◌≡◌, ◌⊎◌, true, arith, if◌then◌else◌}
use goyang.Number.{Number, IsCanonical}
use goyang.Number.Scale.{rank, origin, scaled, scaled-le-origin}

-- The distance of neighbours with `d` fraction digits.
abbrev pub step : ℕ → ℕ
step d = 10 ^ (18 - d)

-- A number with exactly `d` fraction digits.
pub record IsAt (d : ℕ) (n : Number) : Type 0 where
  pub canonical : IsCanonical n
  pub digits : n.fraction_digits ≡ d

-- `n` is not the greatest number of its precision.
abbrev pub HasRoom : Number → Type 0
HasRoom n = (n.negative ≡ true) ⊎ (n.value < 2 ^ 64 - 1)

grid : (v w q : ℕ) → v * q < w * q → (v < w) × (v * q + q ≤ w * q)
grid v w q h = let below : v < w = grind arith in (below, omega (arith, multiple_le q below))
  where
    multiple_le : (q : ℕ) → v < w → suc v * q ≤ w * q
    multiple_le q l = grind arith

pub rank-IsAt :
    {d : ℕ} {n : Number}
    → IsAt d n
    → rank n ≡ (if n.negative then origin - n.value * step d else origin + n.value * step d)
unfolding rank scaled
rank-IsAt h = rw h.digits

least_multiple : (v q : ℕ) → 0 < v → q ≤ v * q
least_multiple v q h = grind arith

pub rank_apart :
    {d : ℕ} {n m : Number}
    → IsAt d n
    → IsAt d m
    → rank n < rank m
    → (rank n + step d ≤ rank m) × HasRoom n
unfolding scaled
rank_apart {d} {n} {m} hn hm h =
    let below = rw hn.digits at (scaled-le-origin n hn.canonical.is_number) in
    let below' = rw hm.digits at (scaled-le-origin m hm.canonical.is_number) in
    ground (
      arith,
      rank-IsAt hn,
      rank-IsAt hm,
      grid n.value m.value (step d),
      grid m.value n.value (step d),
      hn.canonical.signed,
      hm.canonical.signed,
      hm.canonical.is_number.value_fits,
      least_multiple n.value (step d),
    )

pub step_pos : {d : ℕ} {n : Number} → IsAt d n → 0 < step d
step_pos {d} {n} h = (unit_bounds d (ground (arith, h.digits, h.canonical.is_number.digits_fit))).0

add_quantum_digits : (n : Number) → (add_quantum n 1).fraction_digits ≡ n.fraction_digits
unfolding add_quantum
add_quantum_digits n = ground arith

-- The next number of the same precision.
pub add_quantum-IsAt :
    {d : ℕ} {n : Number}
    → IsAt d n
    → HasRoom n
    → IsAt d (add_quantum n 1) × (rank (add_quantum n 1) ≡ rank n + step d)
add_quantum-IsAt {d} {n} h room =
    let (canonical, raised) = rank-add_quantum n h.canonical room in
    (
      record { canonical = canonical; digits = add_quantum_digits n ∙ h.digits },
      raised ∙ ap (λ e. rank n + step e) h.digits,
    )
