-- ===== src/Layout/Fields/Statics.antt =====
-- Where BasicModuleObject of slake/obj/module.cc places static fields.
use slake.Prelude.{
  ℕ, ◌+◌, ◌-◌, ◌%◌, ◌≤◌, ◌≡◌, refl, ap, ◌∙◌, true, false, Option, some, List, [], ◌∷◌, ◌==◌, ltb,
  All, arith,
}
use slake.Types.TypeRef.{TypeRef}
use slake.Layout.Fields.{
  FieldRecord, append_field_space, then_space, add_placed, realloc_field_spaces,
}

-- The space that is appended starts where the storage ended, whatever the alignment, and lies in
-- the new storage; where the old size is no multiple of the alignment, the storage grows by twice
-- the size and the padding.
pub append_field_space_lem :
    (storage size align : ℕ)
    → (grown : ℕ) × (append_field_space true storage size align ≡ some (grown, storage))
      × ((storage + size ≤ grown)
          × (ltb 1 align ≡ true
              → (storage % align == 0) ≡ false
              → grown ≡ storage + (size + size + (align - storage % align))))
unfolding append_field_space
append_field_space_lem storage size align = (_, refl, (ground arith, λ a m. ground (arith, a, m)))

module _ (size align : TypeRef → ℕ) where
  -- The fields of a storage from `low` on do not overlap and end within `total`.
  abbrev pub Disjoint : ℕ → List FieldRecord → ℕ → Type 0
  Disjoint low [] total = low ≤ total
  Disjoint low (f ∷ rest) total = (low ≤ f.offset) × Disjoint (f.offset + size f.type) rest total

  Disjoint-weaken :
      (low high : ℕ) (fs : List FieldRecord) (total : ℕ)
      → low ≤ high
      → Disjoint high fs total
      → Disjoint low fs total
  Disjoint-weaken low high [] total h d = omega (arith, h, d)
  Disjoint-weaken low high (f ∷ rest) total h (d, e) = (omega (arith, h, d), e)

  module _ (sizeof_type alignof_type : TypeRef → Option ℕ) where
    abbrev pub HasSize : FieldRecord → Type 0
    HasSize f =
        (sizeof_type f.type ≡ some (size f.type)) × (alignof_type f.type ≡ some (align f.type))

    realloc_step :
        (storage grown total : ℕ) (f : FieldRecord) (rest placed : List FieldRecord)
        → HasSize f
        → append_field_space true storage (size f.type) (align f.type) ≡ some (grown, storage)
        → realloc_field_spaces sizeof_type alignof_type grown rest ≡ some (total, placed)
        → realloc_field_spaces sizeof_type alignof_type storage (f ∷ rest)
          ≡ some (total, record f { offset = storage } ∷ placed)
    unfolding realloc_field_spaces
    realloc_step storage grown total f rest placed (s, a) g r =
        let next = λ (x : ℕ × ℕ).
          add_placed f x.1 (realloc_field_spaces sizeof_type alignof_type x.0 rest) in
        simp (s, a) (ap (λ (x : Option (ℕ × ℕ)). then_space x next) g ∙ ap (add_placed f storage) r)

    -- Placing all static fields anew returns where each has a size and an alignment, and the
    -- fields do not overlap and lie in the storage.
    pub realloc_field_spaces-Disjoint :
        (storage : ℕ) (fs : List FieldRecord)
        → All HasSize fs
        → (total : ℕ) × (placed : List FieldRecord) × (realloc_field_spaces sizeof_type alignof_type
              storage fs
            ≡ some (total, placed))
          × Disjoint storage placed total
    unfolding realloc_field_spaces
    realloc_field_spaces-Disjoint storage [] all = (storage, [], refl, omega arith)
    realloc_field_spaces-Disjoint storage (f ∷ rest) ((s, a), all) =
        let (grown, g, (fits, _)) = append_field_space_lem storage (size f.type) (align f.type) in
        let (total, placed, r, d) = realloc_field_spaces-Disjoint grown rest all in
        (
          total,
          record f { offset = storage } ∷ placed,
          realloc_step storage grown total f rest placed (s, a) g r,
          (omega arith, Disjoint-weaken _ grown placed total fits d),
        )
