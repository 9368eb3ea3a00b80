-- ===== src/Enum/Lookups.antt =====
-- `Name`, `Value` and `IsDefined` after `Set` and `SetNext`.
use goyang.Base.{
  ◌-◌, ◌^◌, ◌≡◌, Bool, true, false, not, ◌&&◌, none, some, if◌then◌else◌, Bytes, text_eq,
  text_eq_iff, arith, inl, inr, Option-cases,
}
use goyang.Base.Int.{ℤ, pos, ◌+ℤ◌, ◌≤ℤ◌, ◌<ℤ◌, ltb_ℤ, beq_ℤ, beq_ℤ_iff}
use goyang.Base.Maps.{lookup, lookup-insert}
use goyang.Base.Result.{Result, ok, err}
use goyang.Enum.{
  text_keys, int_keys, EnumType, EnumError, must_specify, set, set_next, max_enum, name, value,
  is_defined,
}
use goyang.Enum.Valid.{set-Assigned, Assigned, set_next-set, Reachable, Reachable-IsValid}

-- What the three lookups say after `n` was given the value `v`: both directions for that pair,
-- and for every other name and value what they said before.
pub record Bound (e e' : EnumType) (n : Bytes) (v : ℤ) : Type 0 where
  pub forward : value e' n ≡ v
  pub backward : name e' v ≡ n
  pub names_before : is_defined e n ≡ false
  pub names_after : (m : Bytes) → is_defined e' m ≡ (if text_eq n m then true else is_defined e m)
  pub other_values : (m : Bytes) → value e' m ≡ (if text_eq n m then v else value e m)
  pub other_names : (w : ℤ) → name e' w ≡ (if beq_ℤ v w then n else name e w)

Assigned-Bound : {e e' : EnumType} (n : Bytes) (v : ℤ) → Assigned e n v e' → Bound e e' n v
unfolding value name is_defined
Assigned-Bound {e} n v a = rw a.made (record {
  forward = ground (arith, lookup-insert n n v e.to_int, text_eq_iff n n);
  backward = ground (arith, lookup-insert v v n e.to_string, beq_ℤ_iff v v);
  names_before = ground (arith, a.fresh);
  names_after = λ m. ground (arith, lookup-insert n m v e.to_int);
  other_values = λ m. ground (arith, lookup-insert n m v e.to_int);
  other_names = λ w. ground (arith, lookup-insert v w n e.to_string);
})

-- A successful `Set` gives a new name its value and the value its name, and touches nothing else.
pub set-Bound :
    (e : EnumType) (n : Bytes) (v : ℤ) {e' : EnumType} → set e n v ≡ ok e' → Bound e e' n v
set-Bound e n v r = Assigned-Bound n v (set-Assigned e n v r)

pub is_ok : Result EnumError EnumType → Bool
is_ok (ok e) = true
is_ok (err x) = false

pub is_used : EnumType → ℤ → Bool
is_used e v = elim (lookup v e.to_string) [ none ↦ false | some _ ↦ true ]

-- `Set` succeeds exactly on a new name with a value in range that, in an enumeration, is not taken.
pub is_ok-set :
    (e : EnumType) (n : Bytes) (v : ℤ)
    → is_ok (set e n v) ≡ (
        not (is_defined e n)
        && not (e.unique && is_used e v)
        && not (ltb_ℤ v e.min)
        && not (ltb_ℤ e.max v))
unfolding is_ok set is_used is_defined
is_ok-set e n v = ground arith

-- The value that `SetNext` assigns is in range and above every value assigned before it.
pub set_next-above :
    {e e' : EnumType} (n m : Bytes)
    → Reachable e
    → set_next e n ≡ ok e'
    → is_defined e m ≡ true
    → (value e m <ℤ value e' n) × (e.min ≤ℤ value e' n) × (value e' n ≤ℤ e.max)
unfolding value is_defined
set_next-above {e} {e'} n m r s d =
    let (plain, _) = set_next-set e n s in
    let a = set-Assigned e n (e.last +ℤ pos 1) plain in
    let b = set-Bound e n (e.last +ℤ pos 1) plain in
    elim (Option-cases (lookup m e.to_int)) [
      | inl none_ ↦ ground arith
      | inr (v, found) ↦
          let old = (Reachable-IsValid r).in_range m v found in
          ground (arith, old, b.forward, a.above, a.below)
    ]

-- On a bit field `SetNext` gives up at the greatest enumeration value, although `Set` accepts the
-- next one and many more.
pub set_next_early :
    (e : EnumType) (n : Bytes)
    → e.last ≡ max_enum
    → e.unique ≡ false
    → e.min ≡ pos 0
    → e.max ≡ pos (2 ^ 32 - 1)
    → is_defined e n ≡ false
    → (set_next e n ≡ err must_specify) × (is_ok (set e n (e.last +ℤ pos 1)) ≡ true)
unfolding set_next
set_next_early e n l u lo hi d = (rw l, ground (arith, is_ok-set e n (e.last +ℤ pos 1)))
