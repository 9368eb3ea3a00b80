-- ===== src/Modules/Inclusion/Total.antt =====
-- The recursion of `include` in pkg/yang/modules.go ends: it visits each module once, and only
-- finitely many modules can be read.
use goyang.Base.{
  ℕ, zero, suc, ◌+◌, ◌≤◌, ◌<◌, ◌≡◌, refl, ap, ◌∙◌, Bool, true, false, List, [], ◌∷◌, Option, none,
  some, Bytes, arith, length, get_elem?, get_elem?-lt, length-update_at, Option-cases, Bool-cases,
  inl, inr, if◌then◌else◌, is_in,
}
use goyang.Base.Options.{◌>>=◌}
use goyang.Modules.{
  Module, Modules, ModuleKind, module_kind, submodule_kind, ModuleError, Reader, find_module,
}
use goyang.Modules.Inclusion.{
  Link, include_links, import_links, link, Run, follow, follow_both, include, include_all,
}
use goyang.Modules.Inclusion.Room.{Fits, Fits-room, IsNamedReader}
use goyang.Modules.Inclusion.Kept.{find_module_included, find_module-Fits}

-- The addresses below `n` that were not visited.
abbrev pub fresh : ℕ → List ℕ → ℕ
fresh zero vs = 0
fresh (suc n) vs = (if is_in n vs then 0 else 1) + fresh n vs

fresh_mono : (n a : ℕ) (vs : List ℕ) → fresh n (a ∷ vs) ≤ fresh n vs
fresh_mono zero a vs = omega arith
fresh_mono (suc n) a vs = ground (arith, fresh_mono n a vs)

fresh-lt : (n a : ℕ) (vs : List ℕ) → a < n → is_in a vs ≡ false → fresh n (a ∷ vs) < fresh n vs
fresh-lt zero a vs h e = omega arith
fresh-lt (suc n) a vs h e = ground (arith, fresh-lt n a vs, fresh_mono n a vs)

pub fresh_le : (n : ℕ) (vs : List ℕ) → fresh n vs ≤ n
fresh_le zero vs = omega arith
fresh_le (suc n) vs = ground (arith, fresh_le n vs)

length-link : (k : ModuleKind) (a i b : ℕ) (s : List Module) → length (link k a i b s) ≡ length s
unfolding link
length-link module_kind a i b s = length-update_at a _ s
length-link submodule_kind a i b s = length-update_at a _ s

module _ (us : List Bytes) (reader : Reader) (p : IsNamedReader us reader) (ignore : Bool) where
  abbrev bound : ℕ
  bound = length us + length us

  -- A run ends, the store stays bounded, and the visited modules stay visited.
  pub record Ends (r : Run) (vs : List ℕ) : Type 0 where
    pub state : Modules
    pub error : Option ModuleError
    pub returns : r ≡ some (state, error)
    pub fits : Fits us state
    pub fewer : fresh bound state.included ≤ fresh bound vs

  ends :
      (ms : Modules) (e : Option ModuleError) (vs : List ℕ)
      → Fits us ms
      → fresh bound ms.included ≤ fresh bound vs
      → Ends (some (ms, e)) vs
  ends ms e vs h f = record { state = ms; error = e; returns = refl; fits = h; fewer = f }

  weaken : {r : Run} {us' vs : List ℕ} → Ends r us' → fresh bound us' ≤ fresh bound vs → Ends r vs
  weaken h f = record {
    state = h.state;
    error = h.error;
    returns = h.returns;
    fits = h.fits;
    fewer = omega (arith, h.fewer);
  }

  Ends-either :
      (t : Bool) {r s : Run} {vs : List ℕ}
      → Ends r vs
      → Ends s vs
      → Ends (elim t [ true ↦ r | false ↦ s ]) vs
  Ends-either true h k = h
  Ends-either false h k = k

  -- A run that stops at an error, or goes on.
  Ends-step :
      (e : Option ModuleError) {r : Run} (ms : Modules) (vs : List ℕ)
      → Fits us ms
      → fresh bound ms.included ≤ fresh bound vs
      → Ends r vs
      → Ends (elim e [ none ↦ r | some x ↦ some (ms, some x) ]) vs
  Ends-step none ms vs h f k = k
  Ends-step (some x) ms vs h f k = ends ms (some x) vs h f

  bind-Ends :
      {r : Run} (f : Modules × Option ModuleError → Run) {us' vs : List ℕ}
      → Ends r us'
      → ((ms : Modules) (e : Option ModuleError)
          → Fits us ms
          → fresh bound ms.included ≤ fresh bound us'
          → Ends (f (ms, e)) vs)
      → Ends (r >>= f) vs
  bind-Ends {r} f h k =
      let x = k h.state h.error h.fits h.fewer in
      record {
        state = x.state;
        error = x.error;
        returns = ap (λ z. z >>= f) h.returns ∙ x.returns;
        fits = x.fits;
        fewer = x.fewer;
      }

  link-Fits :
      (k : ModuleKind) (a i b : ℕ) (ms : Modules)
      → Fits us ms
      → Fits us (record ms { store = link k a i b ms.store })
  link-Fits k a i b ms h = rw (length-link k a i b ms.store) h

  -- The recursive call ends while fewer than `fuel` addresses are fresh.
  abbrev Visits : (Modules → ℕ → Run) → ℕ → Type 0
  Visits visit fuel =
      (ms : Modules) (a : ℕ)
      → Fits us ms
      → fresh bound ms.included < fuel
      → Ends (visit ms a) ms.included

  module _ (visit : Modules → ℕ → Run) (fuel : ℕ) (ih : Visits visit fuel) (vs : List ℕ)
      (enough : fresh bound vs < fuel) (k : ModuleKind) (a : ℕ) where
    follow-Ends :
        (ls : List Link) (i : ℕ) (ms : Modules)
        → Fits us ms
        → fresh bound ms.included ≤ fresh bound vs
        → Ends (follow reader ignore visit k a i ls ms) vs
    unfolding follow
    follow-Ends [] i ms h f = ends ms none vs h f
    follow-Ends ((name, date) ∷ ls) i ms h f =
        let found = find_module reader k name date ms in
        let h1 = find_module-Fits us reader p k name date ms h in
        let same = find_module_included reader k name date ms in
        let f1 : fresh bound found.1.included ≤ fresh bound vs = rw same f in
        elim (Option-cases found.0) [
          | inl e ↦
              rw (follow, e)
                (Ends-either ignore (follow-Ends ls (suc i) found.1 h1 f1)
                  (ends found.1 _ vs h1 f1))
          | inr (b, e) ↦
              rw (follow, e)
                (bind-Ends _ (ih found.1 b h1 (omega arith)) (λ ms1 e1 h2 f2.
                  let f3 : fresh bound ms1.included ≤ fresh bound vs = omega arith in
                  Ends-step e1 ms1 vs h2 f3 (
                    follow-Ends ls (suc i) (record ms1 { store = link k a i b ms1.store })
                      (link-Fits k a i b ms1 h2) f3)))
        ]

  follow_both-Ends :
      (visit : Modules → ℕ → Run) (fuel : ℕ)
      → Visits visit fuel
      → (vs : List ℕ) → fresh bound vs < fuel
      → (a : ℕ) (m : Module) (ms : Modules) → Fits us ms
      → fresh bound ms.included ≤ fresh bound vs
      → Ends (follow_both reader ignore visit a m ms) vs
  unfolding follow_both
  follow_both-Ends visit fuel ih vs enough a m ms h f =
      bind-Ends _ (follow-Ends visit fuel ih vs enough submodule_kind a (include_links m) 0 ms h f)
        (λ ms1 e h1 f1.
          Ends-step e ms1 vs h1 f1
            (follow-Ends visit fuel ih vs enough module_kind a (import_links m) 0 ms1 h1 f1))

  include-Ends : (fuel : ℕ) → Visits (include reader ignore fuel) fuel
  unfolding include
  include-Ends zero ms a h f = absurd (omega arith)
  include-Ends (suc fuel) ms a h f = elim (Bool-cases (is_in a ms.included)) [
    | inl e ↦ rw (include, e) (ends ms none ms.included h (omega arith))
    | inr e ↦
        let ms1 = record ms { included = a ∷ ms.included } in
        elim (Option-cases (get_elem? ms.store a)) [
          | inl none_at ↦
              rw (include, e, none_at)
                (ends ms1 none ms.included h (fresh_mono bound a ms.included))
          | inr (m, at) ↦
              let in_store = get_elem?-lt ms.store a m at in
              let new = fresh-lt bound a ms.included (omega (arith, Fits-room us ms h)) e in
              rw (include, e, at)
                (weaken
                  (follow_both-Ends (include reader ignore fuel) fuel (include-Ends fuel)
                    (a ∷ ms.included) (omega arith) a m ms1 h (omega arith))
                  (omega arith))
        ]
  ]

  -- When the files hold finitely many full names and the store fits them, the loop of `process` that
  -- includes the modules ends: the fuel is one more than twice the number of names.
  pub include_all_returns :
      (todo : List ℕ) (ms : Modules)
      → Fits us ms
      → (s : Modules × List ModuleError) × (include_all reader ignore
            (suc (length us + length us))
            todo
            ms
          ≡ some s)
  unfolding include_all
  include_all_returns [] ms h = ((ms, []), refl)
  include_all_returns (a ∷ todo) ms h =
      let fuel = suc (length us + length us) in
      let x = include-Ends fuel ms a h (omega (arith, fresh_le bound ms.included)) in
      let (s, e) = include_all_returns todo x.state x.fits in
      ((s.0, elim x.error [ none ↦ s.1 | some y ↦ y ∷ s.1 ]), rw (include_all, x.returns, e) refl)
