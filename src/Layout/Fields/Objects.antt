-- ===== src/Layout/Fields/Objects.antt =====
-- Where Runtime::init_object_layout_for_module of slake/rt/new.cc places the fields of an object.
use native.Mathlib.Nat.{mod-lt, mod-one, mul-suc, mul-mod_right, div-add-mod}
use slake.Prelude.{
  ℕ, suc, ◌+◌, ◌-◌, ◌*◌, ◌/◌, ◌%◌, ◌≤◌, ◌<◌, ◌≡◌, refl, ap, ◌∙◌, true, false, inl, inr, Option,
  some, List, [], ◌∷◌, ◌++◌, ◌==◌, ltb, All, Bool-cases, arith,
}
use slake.Types.TypeRef.{TypeRef}
use slake.Layout.Fields.{
  FieldRecord, ObjectFieldRecord, ObjectLayout, is_static, align_offset, then_layout, add_field,
  init_object_layout,
}

positive : (a : ℕ) → (a == 0) ≡ false → 0 < a
positive a n = ground (arith, n)

padded :
    (size align : ℕ)
    → (align == 0) ≡ false
    → size + (align - size % align) ≡ align * suc (size / align)
padded size align n =
    omega
      (arith, mul-suc align (size / align), div-add-mod size align, mod-lt size (positive align n))

mod_small : (size align : ℕ) → (align == 0) ≡ false → ltb 1 align ≡ false → size % align ≡ 0
mod_small size align n h = ap (λ (k : ℕ). size % k) (ground (arith, n, h)) ∙ mod-one size

align_offset-mod : (size align : ℕ) → (align == 0) ≡ false → align_offset size align % align ≡ 0
unfolding align_offset
align_offset-mod size align n =
    let up =
      ap (λ (k : ℕ). k % align) (padded size align n) ∙ mul-mod_right align (suc (size / align)) in
    let small = mod_small size align n in ground (arith, n, up, small)

le_align_offset : (size align : ℕ) → size ≤ align_offset size align
unfolding align_offset
le_align_offset size align = ground arith

module _ (size align : TypeRef → ℕ) where
  -- The records of a layout from the offset `low` on: each is aligned, starts at or behind the end
  -- of the one before it, and ends at or before `total`.
  abbrev pub Placed : ℕ → List ObjectFieldRecord → ℕ → Type 0
  Placed low [] total = low ≤ total
  Placed low (r ∷ rest) total =
      (low ≤ r.offset)
      × ((r.offset % align r.type ≡ 0) × Placed (r.offset + size r.type) rest total)

  Placed-le :
      (low : ℕ) (rs : List ObjectFieldRecord) (total : ℕ) → Placed low rs total → low ≤ total
  Placed-le low [] total p = p
  Placed-le low (r ∷ rest) total (p, (a, q)) =
      omega (arith, p, Placed-le (r.offset + size r.type) rest total q)

  append-Placed :
      (low : ℕ) (rs : List ObjectFieldRecord) (total : ℕ) (r : ObjectFieldRecord)
      → Placed low rs total
      → total ≤ r.offset
      → r.offset % align r.type ≡ 0
      → Placed low (rs ++ r ∷ []) (r.offset + size r.type)
  append-Placed low [] total r p t m = (omega (arith, p, t), (m, omega arith))
  append-Placed low (x ∷ rest) total r (p, (a, q)) t m =
      (p, (a, append-Placed (x.offset + size x.type) rest total r q t m))

  module _ (sizeof_type alignof_type : TypeRef → Option ℕ) where
    -- A field whose type has a size and a positive alignment
    abbrev pub IsSized : FieldRecord → Type 0
    IsSized f =
        (sizeof_type f.type ≡ some (size f.type))
        × ((alignof_type f.type ≡ some (align f.type)) × ((align f.type == 0) ≡ false))

    added :
        (i : ℕ) (f : FieldRecord) (l : ObjectLayout)
        → IsSized f
        → Placed 0 l.field_records l.total_size
        → (m : ObjectLayout) × (add_field sizeof_type alignof_type i f
              (some (size f.type))
              (some (align f.type))
              l
            ≡ some m)
          × Placed 0 m.field_records m.total_size
    unfolding add_field
    added i f l (s, (a, n)) p = (
      _,
      refl,
      append-Placed 0 l.field_records l.total_size _ p (le_align_offset l.total_size (align f.type))
          (align_offset-mod l.total_size (align f.type) n),
    )

    skip_step :
        (i : ℕ) (f : FieldRecord) (rest : List FieldRecord) (l : ObjectLayout)
        → is_static f ≡ true
        → init_object_layout sizeof_type alignof_type i (f ∷ rest) l
          ≡ init_object_layout sizeof_type alignof_type (suc i) rest l
    unfolding init_object_layout
    skip_step i f rest l e = simp (e)

    add_step :
        (i : ℕ) (f : FieldRecord) (rest : List FieldRecord) (l m : ObjectLayout)
        (o : Option ObjectLayout)
        → is_static f ≡ false
        → IsSized f
        → add_field sizeof_type alignof_type i f (some (size f.type)) (some (align f.type)) l
          ≡ some m
        → init_object_layout sizeof_type alignof_type (suc i) rest m ≡ o
        → init_object_layout sizeof_type alignof_type i (f ∷ rest) l ≡ o
    unfolding init_object_layout
    add_step i f rest l m o e (s, (a, n)) g h =
        let next =
          λ (x : ObjectLayout). init_object_layout sizeof_type alignof_type (suc i) rest x in
        simp (e, s, a) (ap (λ (x : Option ObjectLayout). then_layout x next) g ∙ h)

    -- The layout of an object is laid out: where every field that is not static has a size and a
    -- positive alignment, the loop returns a layout whose records follow each other without
    -- overlap, each at a multiple of its alignment, within the total size. It may start from the
    -- layout of a parent class.
    pub init_object_layout-Placed :
        (i : ℕ) (fs : List FieldRecord) (l : ObjectLayout)
        → All (λ f. is_static f ≡ false → IsSized f) fs
        → Placed 0 l.field_records l.total_size
        → (m : ObjectLayout) × (init_object_layout sizeof_type alignof_type i fs l ≡ some m)
          × Placed 0 m.field_records m.total_size
    unfolding init_object_layout
    init_object_layout-Placed i [] l all p = (l, refl, p)
    init_object_layout-Placed i (f ∷ rest) l (sized, all) p = elim (Bool-cases (is_static f)) [
      | inl e ↦
          let (m, g, q) = init_object_layout-Placed (suc i) rest l all p in
          (m, skip_step i f rest l e ∙ g, q)
      | inr e ↦
          let (n, h, r) = added i f l (sized e) p in
          let (m, g, q) = init_object_layout-Placed (suc i) rest n all r in
          (m, add_step i f rest l n (some m) e (sized e) h g, q)
    ]
