-- ===== src/Tests/Resolving.antt =====
-- Witnesses for the recursion through typedefs and for the loop over augments.
use goyang.Base.{
  ℕ, ◌<◌, ◌≡◌, refl, Bool, not, true, false, List, [], ◌∷◌, ◌++◌, ◌⊎◌, Option, none, some, Bytes,
  codes, arith, All, if◌then◌else◌, ◌==◌, ==_iff, Bool-cases, inl, inr, is_in,
}
use goyang.Base.Options.{◌>>=◌}
use goyang.Base.Result.{Result, ok, err}
use goyang.Entry.Augment.{Waiting, augment_modules}
use goyang.Entry.Augment.Stuck.{Settles, augment_modules-Settles}
use goyang.Enum.{EnumType}
use goyang.Kind.{ystring}
use goyang.Restrict.{TypeStatement}
use goyang.Restrict.Values.{TypeError, base_error}
use goyang.Typedefs.{LookupError, unknown_type, Source, builtin, local}
use goyang.Typedefs.Resolve.{Parts, Resolution, resolve_typedef, resolve_typedefs}
use goyang.Typedefs.Resolve.Circles.{LeadsInto, circle-resolve_typedef}
use goyang.Typedefs.Resolve.Ends.{IsRanked, HasBases, resolve_typedefs-Returns}
use goyang.Typedefs.Resolve.Growth.{Returns, all_set}
use goyang.Typedefs.Steps.{TypedefStatement, program_parts}
use goyang.YangType.{YangType, plain}

abbrev never_equal : Option EnumType → Option EnumType → Bool
never_equal d e = false

abbrev no_base : Bytes → Result (List TypeError) (Option ℕ)
no_base n = err (base_error n ∷ [])

-- The typedef 0 is the base type string; all others have the type 10, which names it.
abbrev typedefs : ℕ → TypedefStatement
typedefs td = record {
  name = codes "t";
  has_parent = not (td == 0);
  type = 10;
  units = some (codes "m");
  default = none;
}

abbrev statement : ℕ → TypeStatement
statement a = record {
  name = codes "string";
  require_instance = none;
  path = none;
  fraction_digits = none;
  identity_base = none;
  range = none;
  length = none;
  enums = [];
  bits = [];
}

abbrev names_string : ℕ → Result LookupError (Source × ℕ)
names_string a = if a == 10 then ok (builtin, 0) else err (unknown_type [])

abbrev one_typedef : Parts YangType TypeError
unfolding program_parts
one_typedef = program_parts never_equal no_base typedefs statement (λ a. []) names_string

abbrev start : Resolution YangType
start = record { typedefs = (0, plain (codes "string") ystring []) ∷ []; types = [] }

abbrev td_rank : ℕ → ℕ
td_rank td = if td == 0 then 0 else 2

abbrev rank : ℕ → ℕ
rank a = 1

one_typedef-IsRanked : IsRanked one_typedef td_rank rank
unfolding program_parts
one_typedef-IsRanked = record {
  to_type = λ td h. ground arith;
  to_typedef = λ a td source h. ground arith;
  to_members = λ a. tt;
}

start-HasBases : HasBases one_typedef start
unfolding program_parts goyang.Base.Maps.lookup
start-HasBases td h = ground arith

resolve_typedefs-Returns_example :
    Returns start
      (λ t. all_set (1 ∷ 2 ∷ []) t.typedefs)
      (resolve_typedefs one_typedef 3 (1 ∷ 2 ∷ []) [] start)
resolve_typedefs-Returns_example =
    resolve_typedefs-Returns one_typedef td_rank rank one_typedef-IsRanked 3 (1 ∷ 2 ∷ []) start
      (omega arith) start-HasBases

-- Two typedefs that are based on each other: 1 on 2 and 2 on 1.
abbrev names_other : ℕ → Result LookupError (Source × ℕ)
names_other a = if a == 1 then ok (local, 2) else ok (local, 1)

abbrev circular : ℕ → TypedefStatement
circular td = record {
  name = codes "t";
  has_parent = true;
  type = td;
  units = none;
  default = none;
}

abbrev two_typedefs : Parts YangType TypeError
unfolding program_parts
two_typedefs = program_parts never_equal no_base circular statement (λ a. []) names_other

abbrev nothing : Resolution YangType
nothing = record { typedefs = []; types = [] }

abbrev IsOneOrTwo : ℕ → Type 0
IsOneOrTwo td = (td ≡ 1) ⊎ (td ≡ 2)

two-LeadsInto : (td : ℕ) → IsOneOrTwo td → LeadsInto two_typedefs nothing IsOneOrTwo td
unfolding program_parts goyang.Base.Maps.lookup
two-LeadsInto td (inl e) = record {
  next = 2;
  source = local;
  stays = inr refl;
  child = refl;
  new_typedef = refl;
  new_type = refl;
  named = rw e refl;
}
two-LeadsInto td (inr e) = record {
  next = 1;
  source = local;
  stays = inl refl;
  child = refl;
  new_typedef = refl;
  new_type = refl;
  named = rw e refl;
}

circle-resolve_typedef_example : resolve_typedef two_typedefs 1000 1 nothing ≡ none
circle-resolve_typedef_example =
    circle-resolve_typedef two_typedefs nothing IsOneOrTwo two-LeadsInto 1000 1 (inl refl)

-- Entries are numbers that are there, and an augment `(needs, adds)` of such numbers.
abbrev is_there : List ℕ → ℕ × ℕ → Bool
is_there s a = is_in a.0 s

abbrev add_entry : ℕ × ℕ → List ℕ → List ℕ
add_entry a s = a.1 ∷ s

-- The first module waits for what the second adds; one augment of the second has no target.
abbrev waiting : Waiting (List ℕ) (ℕ × ℕ)
waiting = record {
  augments = λ m. if m == 0 then (2, 3) ∷ [] else if m == 1 then (1, 2) ∷ (9, 4) ∷ [] else [];
  entries = 1 ∷ [];
}

augment_modules-Settles_example :
    Settles is_there add_entry
      (0 ∷ 1 ∷ [])
      waiting
      (augment_modules is_there add_entry 4 (0 ∷ 1 ∷ []) waiting)
unfolding goyang.Entry.Augment.Rounds.weight
augment_modules-Settles_example =
    augment_modules-Settles is_there add_entry 4 (0 ∷ 1 ∷ []) waiting (omega arith)

-- The run applies the augments (2, 3) and (1, 2).
augments_left :
    ◌>>=◌ {B = List ℕ × List ℕ}
      (augment_modules is_there add_entry 4 (0 ∷ 1 ∷ []) waiting)
      (λ r. some (r.0, r.1.entries))
    ≡ some (1 ∷ [], 3 ∷ 2 ∷ 1 ∷ [])
unfolding augment_modules
augments_left = refl
