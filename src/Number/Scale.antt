-- ===== src/Number/Scale.antt =====
-- Numbers on one scale: `scaled` counts units of 10 ^ -18, the finest that decimal64 has, and
-- `rank` shifts the signed count so that it is a natural number.
use Prim.Native.Nat.{◌-◌}
use goyang.Base.{
  ℕ, zero, suc, ◌+◌, ◌*◌, ◌/◌, ◌%◌, ◌^◌, ◌≤◌, ◌<◌, ◌≡◌, refl, ap, ◌∙◌, Bool, true, false, ◌&&◌,
  arith, ltb, ◌==◌, if◌then◌else◌, ==_iff,
}
use goyang.Number.{Number, IsNumber, pow10, trunc, frac}

unfoldable pub scaled : Number → ℕ
scaled n = n.value * 10 ^ (18 - n.fraction_digits)

-- Above every value of `scaled`.
abbrev pub origin : ℕ
origin = 2 ^ 64 * 10 ^ 18

unfoldable pub rank : Number → ℕ
rank n = if n.negative then origin - scaled n else origin + scaled n

-- `test` passes at each of the `k` numbers from 0 on.
passes : (ℕ → Bool) → ℕ → Bool
passes test zero = true
passes test (suc k) = if test k then passes test k else false

passes-eq-true : (test : ℕ → Bool) (k e : ℕ) → passes test k ≡ true → e < k → test e ≡ true
unfolding passes
passes-eq-true test zero e all small = elim small [ ]
passes-eq-true test (suc k) e all small = ground (arith, passes-eq-true test k e)

pow10_table :
    passes (λ e. pow10 e * 10 ^ (18 - e) == 10 ^ 18 && ltb 0 (pow10 e) && ltb (pow10 e) (2 ^ 64)) 19
    ≡ true
unfolding passes pow10
pow10_table = refl

shift_table : passes (λ e. pow10 ((18 + 256 - e) % 256) == 10 ^ (18 - e)) 19 ≡ true
unfolding passes pow10
shift_table = refl

pub pow10_lem :
    (e : ℕ) → e ≤ 18 → (pow10 e * 10 ^ (18 - e) ≡ 10 ^ 18) × (0 < pow10 e) × (pow10 e < 2 ^ 64)
pow10_lem e h = let t = passes-eq-true _ 19 e pow10_table (omega arith) in ground arith

pub pow10_shift : (e : ℕ) → e ≤ 18 → pow10 ((18 + 256 - e) % 256) ≡ 10 ^ (18 - e)
pow10_shift e h = (==_iff _ _).0 (passes-eq-true _ 19 e shift_table (omega arith))

-- The unit of a number's last digit is a positive count of the finest units.
unit_table : passes (λ e. ltb 0 (10 ^ (18 - e)) && ltb (10 ^ (18 - e)) (10 ^ 18 + 1)) 19 ≡ true
unfolding passes
unit_table = refl

pub unit_bounds : (e : ℕ) → e ≤ 18 → (0 < 10 ^ (18 - e)) × (10 ^ (18 - e) ≤ 10 ^ 18)
unit_bounds e h = let t = passes-eq-true _ 19 e unit_table (omega arith) in ground arith

pieces_scaled :
    (t r p q unit : ℕ)
    → p * q ≡ unit
    → r < p
    → 0 < unit
    → ((t * p + r) * q ≡ t * unit + r * q) × (r * q < unit)
pieces_scaled t r p q unit e h u = (grind arith, grind arith)

-- Division by `p` splits `v`, and `q` scales the remainder below `p * q`.
split_scaled :
    (v p q unit : ℕ)
    → p * q ≡ unit
    → 0 < p
    → 0 < unit
    → (v * q ≡ v / p * unit + (v - v / p * p) * q) × ((v - v / p * p) * q < unit) × (v / p * p ≤ v)
split_scaled v p q unit e h u =
    let below : v / p * p ≤ v = omega arith in
    let left : v - v / p * p < p = omega arith in
    let whole : v ≡ v / p * p + (v - v / p * p) = omega arith in
    let both = pieces_scaled (v / p) (v - v / p * p) p q unit e left u in
    (ap (λ x. x * q) whole ∙ both.0, both.1, below)

unwrapped :
    (v i q : ℕ)
    → i ≤ v
    → v < 2 ^ 64
    → (v - i) * q < 10 ^ 18
    → (v + 2 ^ 64 - i % 2 ^ 64) % 2 ^ 64 * q % 2 ^ 64 ≡ (v - i) * q
unwrapped v i q le fits small =
    let difference : (v + 2 ^ 64 - i % 2 ^ 64) % 2 ^ 64 ≡ v - i = omega arith in
    ap (λ d. d * q % 2 ^ 64) difference ∙ omega arith

-- The whole part and the fraction are the two digits of the scaled value in base 10 ^ 18, and
-- nothing wraps around on the way.
pub scaled_digits :
    (n : Number) → IsNumber n → (scaled n ≡ trunc n * 10 ^ 18 + frac n) × (frac n < 10 ^ 18)
unfolding scaled trunc frac
scaled_digits n h =
    let (product, positive, small) = pow10_lem n.fraction_digits h.digits_fit in
    let shift = pow10_shift n.fraction_digits h.digits_fit in
    let (sum, below, part) = split_scaled n.value _ _ _ product positive (omega arith) in
    let fraction = unwrapped n.value _ _ part h.value_fits below in
    rw (shift, fraction) (sum, below)

pub mul_pos : (a b : ℕ) → 0 < a → 0 < b → 0 < a * b
mul_pos zero b h k = elim h [ ]
mul_pos (suc a) b h k = grind arith

pub scaled-le-origin : (n : Number) → IsNumber n → scaled n ≤ origin
unfolding scaled
scaled-le-origin n h = let (_, small) = unit_bounds n.fraction_digits h.digits_fit in grind arith
