-- ===== src/Tests/Enums.antt =====
-- Runs of `EnumType`, and instances of its theorems.
use goyang.Base.{
  ℕ, ◌+◌, ◌-◌, ◌^◌, ◌≡◌, ◌↔◌, refl, true, false, not, ◌&&◌, arith, codes, Bool, [], ◌∷◌, some,
  if◌then◌else◌,
}
use goyang.Base.Int.{pos, negsuc, ltb_ℤ}
use goyang.Base.Result.{ok}
use goyang.Enum.{EnumType, new_enum_type, set, set_next, names, values, is_defined, max_enum}
use goyang.Enum.Lookups.{Bound, set-Bound, is_ok, is_used, is_ok-set}
use goyang.Enum.Valid.{IsValid, Reachable, enum_start, after_set, after_set_next, Reachable-IsValid}

abbrev one : EnumType
one = record {
  last = pos 7;
  min = negsuc (2 ^ 31 - 1);
  max = pos (2 ^ 31 - 1);
  unique = true;
  to_string = (pos 7, codes "up") ∷ [];
  to_int = (codes "up", pos 7) ∷ [];
}

abbrev two : EnumType
two = record {
  last = pos 8;
  min = negsuc (2 ^ 31 - 1);
  max = pos (2 ^ 31 - 1);
  unique = true;
  to_string = (pos 7, codes "up") ∷ (pos 8, codes "down") ∷ [];
  to_int = (codes "up", pos 7) ∷ (codes "down", pos 8) ∷ [];
}

to_one : set new_enum_type (codes "up") (pos 7) ≡ ok one
unfolding set new_enum_type goyang.Base.Maps.lookup goyang.Base.Maps.insert
to_one = refl

to_two : set_next one (codes "down") ≡ ok two
unfolding set_next goyang.Base.Maps.lookup goyang.Base.text_eq goyang.Base.Maps.insert
to_two = refl

sorted : (names two ≡ codes "down" ∷ codes "up" ∷ []) × (values two ≡ pos 7 ∷ pos 8 ∷ [])
unfolding names values
sorted = (refl, refl)

reach_one : Reachable one
reach_one = after_set (codes "up") (pos 7) enum_start to_one

reach_two : Reachable two
reach_two = after_set_next (codes "down") reach_one to_two

Reachable-IsValid_example : IsValid two
Reachable-IsValid_example = Reachable-IsValid reach_two

set-Bound_example : Bound new_enum_type one (codes "up") (pos 7)
set-Bound_example = set-Bound new_enum_type (codes "up") (pos 7) to_one

is_ok-set_example : is_ok (set one (codes "idle") (pos 7)) ≡ (
    not (is_defined one (codes "idle"))
    && not (one.unique && is_used one (pos 7))
    && not (ltb_ℤ (pos 7) one.min)
    && not (ltb_ℤ one.max (pos 7)))
is_ok-set_example = is_ok-set one (codes "idle") (pos 7)

abbrev full_bits : EnumType
full_bits = record {
  last = max_enum;
  min = pos 0;
  max = pos (2 ^ 32 - 1);
  unique = false;
  to_string = (max_enum, codes "b") ∷ [];
  to_int = (codes "b", max_enum) ∷ [];
}

c_free : is_defined full_bits (codes "c") ≡ false
unfolding is_defined goyang.Base.Maps.lookup goyang.Base.text_eq
c_free = refl
