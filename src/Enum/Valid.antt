-- ===== src/Enum/Valid.antt =====
-- The two maps of an `EnumType` agree, and every assigned value is in range and at most `last`.
use goyang.Base.{◌≡◌, ◌≢◌, true, none, some, if◌then◌else◌, Bytes, text_eq_iff, arith}
use goyang.Base.Int.{ℤ, pos, negsuc, ◌+ℤ◌, ◌≤ℤ◌, ltb_ℤ, beq_ℤ_iff}
use goyang.Base.Maps.{lookup, insert, lookup-insert}
use goyang.Base.Result.{ok}
use goyang.Enum.{
  text_keys, int_keys, EnumType, new_enum_type, new_bitfield, set, set_next, max_enum,
}

pub record IsValid (e : EnumType) : Type 0 where
  pub last_low : negsuc 0 ≤ℤ e.last
  pub last_high : e.last ≤ℤ e.max
  pub in_range :
      (n : Bytes) (v : ℤ) → lookup n e.to_int ≡ some v → (e.min ≤ℤ v) × (v ≤ℤ e.max) × (v ≤ℤ e.last)
  pub named : (v : ℤ) (n : Bytes) → lookup v e.to_string ≡ some n → lookup n e.to_int ≡ some v
  pub unique_names :
      (n : Bytes) (v : ℤ)
      → e.unique ≡ true
      → lookup n e.to_int ≡ some v
      → lookup v e.to_string ≡ some n

pub new_enum_type-IsValid : IsValid new_enum_type
unfolding new_enum_type lookup
new_enum_type-IsValid = record {
  last_low = omega arith;
  last_high = omega arith;
  in_range = λ n v h. cc;
  named = λ v n h. cc;
  unique_names = λ n v u h. cc;
}

pub new_bitfield-IsValid : IsValid new_bitfield
unfolding new_bitfield lookup
new_bitfield-IsValid = record {
  last_low = omega arith;
  last_high = omega arith;
  in_range = λ n v h. cc;
  named = λ v n h. cc;
  unique_names = λ n v u h. cc;
}

-- What a successful `Set` has found, and the state it makes.
pub record Assigned (e : EnumType) (n : Bytes) (v : ℤ) (e' : EnumType) : Type 0 where
  pub fresh : lookup n e.to_int ≡ none
  pub unused : e.unique ≡ true → lookup v e.to_string ≡ none
  pub above : e.min ≤ℤ v
  pub below : v ≤ℤ e.max
  pub made : e' ≡ record e {
    to_string = insert v n e.to_string;
    to_int = insert n v e.to_int;
    last = if ltb_ℤ v e.last then e.last else v;
  }

pub set-Assigned :
    (e : EnumType) (n : Bytes) (v : ℤ) {e' : EnumType} → set e n v ≡ ok e' → Assigned e n v e'
unfolding set
set-Assigned e n v h = record {
  fresh = ground arith;
  unused = λ u. ground arith;
  above = ground arith;
  below = ground arith;
  made = ground arith;
}

pub Assigned-IsValid :
    {e e' : EnumType} (n : Bytes) (v : ℤ) → IsValid e → Assigned e n v e' → IsValid e'
Assigned-IsValid {e} {e'} n v h a = rw a.made (record {
  last_low = ground (arith, h.last_low);
  last_high = ground (arith, h.last_high, a.below);
  in_range =
      λ m w k. ground (arith, lookup-insert n m v e.to_int, h.in_range m w, a.above, a.below);
  named = λ w m k. ground (
    arith,
    lookup-insert v w n e.to_string,
    lookup-insert n m v e.to_int,
    text_eq_iff n m,
    beq_ℤ_iff v w,
    h.named w m,
    a.fresh,
  );
  unique_names = λ m w u k. ground (
    arith,
    lookup-insert v w n e.to_string,
    lookup-insert n m v e.to_int,
    text_eq_iff n m,
    beq_ℤ_iff v w,
    h.unique_names m w u,
    a.unused u,
  );
})

-- `Set` keeps the invariant.
pub set-IsValid : {e e' : EnumType} (n : Bytes) (v : ℤ) → IsValid e → set e n v ≡ ok e' → IsValid e'
set-IsValid {e} n v h r = Assigned-IsValid n v h (set-Assigned e n v r)

-- `SetNext` takes the value after `last`.
pub set_next-set :
    (e : EnumType) (n : Bytes) {e' : EnumType}
    → set_next e n ≡ ok e'
    → (set e n (e.last +ℤ pos 1) ≡ ok e') × (e.last ≢ max_enum)
unfolding set_next
set_next-set e n r = (ground arith, ground (arith, beq_ℤ_iff e.last max_enum))

-- The states that a sequence of calls leads to, from a fresh enumeration or bit field.
pub data Reachable : EnumType → Type 0 where
  enum_start : Reachable new_enum_type
  bits_start : Reachable new_bitfield
  after_set : {e e' : EnumType} (n : Bytes) (v : ℤ) → Reachable e → set e n v ≡ ok e' → Reachable e'
  after_set_next : {e e' : EnumType} (n : Bytes) → Reachable e → set_next e n ≡ ok e' → Reachable e'

-- Every state that calls of `Set` and `SetNext` lead to satisfies the invariant.
pub Reachable-IsValid : {e : EnumType} → Reachable e → IsValid e
Reachable-IsValid enum_start = new_enum_type-IsValid
Reachable-IsValid bits_start = new_bitfield-IsValid
Reachable-IsValid (after_set n v r s) = set-IsValid n v (Reachable-IsValid r) s
Reachable-IsValid (after_set_next {e} n r s) =
    set-IsValid n (e.last +ℤ pos 1) (Reachable-IsValid r) (set_next-set e n s).0
