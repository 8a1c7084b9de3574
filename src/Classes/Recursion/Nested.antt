-- ===== src/Classes/Recursion/Nested.antt =====
-- Structs that nest, and the turns of is_recursed of slake/obj/class.cc on one of them.
use slake.Prelude.{
  ℕ, zero, suc, ◌≤◌, ◌<◌, ◌≡◌, refl, ap, ◌∙◌, Bool, true, false, inl, inr, none, some, List, [],
  ◌∷◌, leb, length, get_elem?, contains, Bool-cases, arith,
}
use mathlib.Core.Path.{subst}
use slake.Types.TypeRef.{TypeRef}
use slake.Classes.Recursion.{
  StructKind, Structs, ExData, Frame, Context, Outcome, remove_walked, insert, and_then,
  nested_frame, check_type_ref, walk_field, step_fields, step_frame, step,
}
use slake.Classes.Recursion.Walks.{contains-insert, at_frame, enter-fresh}

pub get_elem?-below {ℓ} :
    {A : Type ℓ} (xs : List A) (k : ℕ) → k < length xs → (x : A) × (get_elem? xs k ≡ some x)
get_elem?-below [] k h = absurd (omega (arith, h))
get_elem?-below (x ∷ xs) zero h = (x, refl)
get_elem?-below (x ∷ xs) (suc k) h = get_elem?-below xs k (omega (arith, h))

-- The objects whose fields are walked.
pub data HasFields (m : Structs) (o : ℕ) : Type 0 where
  struct : m.kind_of o ≡ StructKind.struct → HasFields m o
  item : m.kind_of o ≡ StructKind.union_enum_item → HasFields m o

-- A field that holds no struct by value, or a struct that nests less deep.
pub data Nests (m : Structs) (depth : ℕ → ℕ) (o : ℕ) (t : TypeRef) : Type 0 where
  no_struct : nested_frame m t ≡ none → Nests m depth o t
  nested :
      (p : ℕ)
      → nested_frame m t ≡ some record { struct_object = p; ex_data = ExData.indexed 0 }
      → depth p < depth o
      → Nests m depth o t

-- An object with a field whose fields nest, and so do those of the structs in them, to the bottom.
pub data Sound (m : Structs) (depth : ℕ → ℕ) : ℕ → Type 0 where
  sound :
      (o : ℕ)
      → HasFields m o
      → 0 < length (m.field_records o)
      → ((i : ℕ) (t : TypeRef) → get_elem? (m.field_records o) i ≡ some t → Nests m depth o t)
      → ((i : ℕ) (t : TypeRef) (p : ℕ)
          → get_elem? (m.field_records o) i ≡ some t
          → nested_frame m t ≡ some record { struct_object = p; ex_data = ExData.indexed 0 }
          → Sound m depth p)
      → Sound m depth o

pub step-fields :
    (m : Structs) (alloc : Context → Bool) (o i : ℕ) (rest : List Frame) (c : Context)
    → HasFields m o
    → step_frame m alloc (m.kind_of o) (ExData.indexed i) o rest c ≡ step_fields m alloc o i rest c
unfolding step_frame
step-fields m alloc o i rest c (HasFields.struct e) =
    ap (λ (k : StructKind). step_frame m alloc k (ExData.indexed i) o rest c) e
step-fields m alloc o i rest c (HasFields.item e) =
    ap (λ (k : StructKind). step_frame m alloc k (ExData.indexed i) o rest c) e

-- The objects on the walk nest deeper than a bound.
abbrev pub Deeper : (ℕ → ℕ) → ℕ → List ℕ → Type 0
Deeper depth bound walked = (p : ℕ) → contains walked p ≡ true → bound < depth p

pub Deeper-fresh :
    (depth : ℕ → ℕ) (o : ℕ) (walked : List ℕ)
    → Deeper depth (depth o) walked
    → contains walked o ≡ false
Deeper-fresh depth o walked d = elim (Bool-cases (contains walked o)) [
  | inl h ↦ absurd (omega (arith, d o h))
  | inr h ↦ h
]

pub Deeper-insert :
    (depth : ℕ → ℕ) (o p : ℕ) (walked : List ℕ)
    → depth p < depth o
    → Deeper depth (depth o) walked
    → Deeper depth (depth p) (insert o walked)
Deeper-insert depth o p walked l d q h = elim (contains-insert o walked q h) [
  | inl e ↦ subst (λ (x : ℕ). depth p < depth x) e l
  | inr g ↦ let below = d q g in omega (arith, l, below)
]

module _ (m : Structs) (alloc : Context → Bool) (allocates : (c : Context) → alloc c ≡ true) where
  -- The first turn on an object enters it and looks at its first field.
  pub first_turn :
      (o : ℕ) (rest : List Frame) (walked : List ℕ) (t : TypeRef)
      → HasFields m o
      → contains walked o ≡ false
      → get_elem? (m.field_records o) 0 ≡ some t
      → step m alloc
          (at_frame o (ExData.indexed 0) rest walked).frames
          (at_frame o (ExData.indexed 0) rest walked)
        ≡ check_type_ref alloc
            (nested_frame m t)
            (at_frame o (ExData.indexed 1) rest (insert o walked))
  unfolding step step_fields and_then walk_field
  first_turn o rest walked t f h e =
      let c = at_frame o (ExData.indexed 0) rest walked in
      step-fields m alloc o 0 rest c f ∙ simp (enter-fresh m alloc allocates o c h, e)

  -- A later turn looks at the next field.
  pub next_turn :
      (o i : ℕ) (rest : List Frame) (walked : List ℕ) (t : TypeRef)
      → HasFields m o
      → suc i < length (m.field_records o)
      → get_elem? (m.field_records o) (suc i) ≡ some t
      → step m alloc
          (at_frame o (ExData.indexed (suc i)) rest walked).frames
          (at_frame o (ExData.indexed (suc i)) rest walked)
        ≡ check_type_ref alloc
            (nested_frame m t)
            (at_frame o (ExData.indexed (suc (suc i))) rest walked)
  unfolding step step_fields walk_field
  next_turn o i rest walked t f l e =
      let c = at_frame o (ExData.indexed (suc i)) rest walked in
      let inside : leb (length (m.field_records o)) (suc i) ≡ false = ground (arith, l) in
      step-fields m alloc o (suc i) rest c f ∙ simp (inside, e)

  -- The last turn leaves the object.
  pub last_turn :
      (o i : ℕ) (rest : List Frame) (walked : List ℕ)
      → HasFields m o
      → length (m.field_records o) ≤ suc i
      → step m alloc
          (at_frame o (ExData.indexed (suc i)) rest walked).frames
          (at_frame o (ExData.indexed (suc i)) rest walked)
        ≡ Outcome.running record { frames = rest; walked_objects = remove_walked o walked }
  unfolding step step_fields
  last_turn o i rest walked f l =
      let c = at_frame o (ExData.indexed (suc i)) rest walked in
      let past : leb (length (m.field_records o)) (suc i) ≡ true = ground (arith, l) in
      step-fields m alloc o (suc i) rest c f ∙ simp (past)
