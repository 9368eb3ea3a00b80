-- ===== src/Entry/Augment.antt =====
-- `(*Entry).Augment` of pkg/yang/entry.go, and the loop of Process in pkg/yang/modules.go that calls
-- it until no augment can be applied.
--
-- A module is an address with the augments of its entry that wait. The search for the target of an
-- augment and the merge into it are arguments, on a state that holds all the entries. Modules may be
-- there twice, under their name and under their name with revision.
pub mod Rounds
pub mod Visits
pub mod Stuck
use goyang.Base.{
  ℕ, zero, suc, ◌+◌, Bool, true, false, List, [], ◌∷◌, ◌++◌, Option, none, some, if◌then◌else◌,
  ◌==◌, length,
}

-- What a call of `Augment` leaves: its first result, `Augments`, the augments it reports, and the state.
pub record Augmented (S A : Type 0) : Type 0 where
  pub processed : ℕ
  pub unapplied : List A
  pub reported : List A
  pub entries : S

pub record Waiting (S A : Type 0) : Type 0 where
  pub augments : ℕ → List A
  pub entries : S

-- What a round leaves: how many augments were applied, the modules, and the state.
pub record Round (S A : Type 0) : Type 0 where
  pub processed : ℕ
  pub mods : List ℕ
  pub waiting : Waiting S A

-- the last element put in front, which the loop moves to the place of the one it takes out
unfoldable pub last_first : List ℕ → List ℕ
last_first [] = []
last_first (x ∷ []) = x ∷ []
last_first (x ∷ y ∷ ys) = elim (last_first (y ∷ ys)) [ [] ↦ x ∷ [] | z ∷ zs ↦ z ∷ x ∷ zs ]

module _ {S A : Type 0} where
  abbrev pub applied : Augmented S A → Augmented S A
  applied r = record r { processed = suc r.processed }

  abbrev pub skipped : Bool → A → Augmented S A → Augmented S A
  skipped add_errors a r = record r {
    unapplied = a ∷ r.unapplied;
    reported = if add_errors then a ∷ r.reported else r.reported;
  }

  abbrev pub counted : ℕ → Round S A → Round S A
  counted n r = record r { processed = n + r.processed }

  -- `e.Augments = unapplied`
  unfoldable pub store : ℕ → Augmented S A → Waiting S A → Waiting S A
  store m r w = record {
    augments = λ k. if m == k then r.unapplied else w.augments k;
    entries = r.entries;
  }

module _ {S A : Type 0} (found : S → A → Bool) (merge : A → S → S) where
  -- the loop of `Augment`
  unfoldable pub augment : Bool → List A → S → Augmented S A
  augment add_errors [] s = record { processed = 0; unapplied = []; reported = []; entries = s }
  augment add_errors (a ∷ as_) s = elim (found s a) [
    | true ↦ applied (augment add_errors as_ (merge a s))
    | false ↦ skipped add_errors a (augment add_errors as_ s)
  ]

  unfoldable pub augment_module : ℕ → Waiting S A → Augmented S A
  unfolding augment
  augment_module m w = augment false (w.augments m) w.entries

  -- The inner loop, over the modules from the index on; those before it are kept. As many rounds as
  -- there are modules left are enough.
  unfoldable pub augment_round : ℕ → List ℕ → List ℕ → Waiting S A → Round S A
  unfolding augment_module store last_first
  augment_round zero kept rest w = record { processed = 0; mods = kept ++ rest; waiting = w }
  augment_round (suc n) kept [] w = record { processed = 0; mods = kept ++ []; waiting = w }
  augment_round (suc n) kept (m ∷ ms) w =
      let r = augment_module m w in
      counted r.processed (elim r.unapplied [
        | [] ↦ augment_round n kept (last_first ms) (store m r w)
        | a ∷ as_ ↦ augment_round n (kept ++ m ∷ []) ms (store m r w)
      ])

  -- The outer loop; without fuel there is no result.
  unfoldable pub augment_modules : ℕ → List ℕ → Waiting S A → Option (List ℕ × Waiting S A)
  unfolding augment_round
  augment_modules zero ms w = none
  augment_modules (suc fuel) [] w = some ([], w)
  augment_modules (suc fuel) (m ∷ ms) w =
      let r = augment_round (length (m ∷ ms)) [] (m ∷ ms) w in
      elim r.processed [
        | zero ↦ some (r.mods, r.waiting)
        | suc n ↦ augment_modules fuel r.mods r.waiting
      ]
