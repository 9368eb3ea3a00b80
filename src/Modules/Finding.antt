-- ===== src/Modules/Finding.antt =====
-- `FindModule` of pkg/yang/modules.go on modules that were read before.
use goyang.Base.{ℕ, ◌≡◌, ◌≢◌, refl, false, none, some, Bytes, arith, text_lt, ap}
use goyang.Base.Maps.{lookup}
use goyang.Enum.{text_keys}
use goyang.Modules.{
  Modules, ModuleKind, Reader, full_name_at, table, revision_name, find_named, find_module,
}
use goyang.Modules.Catalog.{name_at}
use goyang.Modules.Tables.{IsIndexed, In}

module _ (reader : Reader) (ms : Modules) (k : ModuleKind) (h : IsIndexed ms) (b : ℕ)
    (i : In ms.store k b) where
  -- With no revision date, a module that is known by name is found without reading: the one whose
  -- full name is the greatest among those of the name.
  pub find_module_latest :
      (a : ℕ) × (find_module reader k (name_at ms.store b) none ms ≡ (some a, ms))
      × ((c : ℕ)
          → In ms.store k c
          → name_at ms.store c ≡ name_at ms.store b
          → text_lt (full_name_at ms.store a) (full_name_at ms.store c) ≡ false)
  unfolding find_module find_named revision_name
  find_module_latest =
      let (a, l, g) = (h.catalog k).bare b i in
      (
        a,
        rw (find_module, l) refl,
        λ c j e.
            let (a', l', g') = (h.catalog k).bare c j in
            ground (arith, ap (λ z. lookup z (table k ms)) e),
      )

  -- With a revision date, a module that is known under name and date is found without reading.
  pub find_module_dated :
      (name date : Bytes)
      → full_name_at ms.store b ≡ revision_name name (some date)
      → full_name_at ms.store b ≢ name_at ms.store b
      → find_module reader k name (some date) ms ≡ (some b, ms)
  unfolding find_module find_named
  find_module_dated name date e d =
      ground (arith, (h.catalog k).exact b i d, ap (λ z. lookup z (table k ms)) e)
