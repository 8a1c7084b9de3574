-- ===== src/Tests/Nesting.antt =====
-- Examples for the recursion check of structs.
use slake.Prelude.{
  ℕ, zero, suc, ◌<◌, ◌≡◌, refl, sym, ap, ◌∙◌, Bool, true, false, Option, none, some, List, [], ◌∷◌,
  length, get_elem?, arith,
}
use mathlib.Core.Path.{subst}
use slake.Types.Kinds.{TypeId}
use slake.Types.TypeRef.{TypeRef}
use slake.Classes.Recursion.{
  StructKind, Structs, ExData, Frame, Context, Ending, insert, nested_frame,
}
use slake.Classes.Recursion.Nested.{HasFields, Nests, Sound}
use slake.Classes.Recursion.Verdicts.{
  SoundBefore, Recurses, Verdict, is_recursed-terminated, is_recursed-union_enum,
}

abbrev number_type : TypeRef
number_type = record { type_id = TypeId.i32; type_modifier = 0; type_def = 0 }

abbrev by_value : TypeId → ℕ → TypeRef
by_value id o = record { type_id = id; type_modifier = 0; type_def = o }

-- The objects 0 and 2 are an item of a union enum and a plain struct with a number each; 1 is the
-- union enum with the item 0; 3 holds 1, 4 holds a number and 2, and 5 holds a number and itself.
abbrev kind_at : ℕ → StructKind
kind_at zero = StructKind.union_enum_item
kind_at (suc zero) = StructKind.union_enum
kind_at (suc (suc o)) = StructKind.struct

abbrev fields_at : ℕ → List TypeRef
fields_at zero = number_type ∷ []
fields_at (suc zero) = []
fields_at (suc (suc zero)) = number_type ∷ []
fields_at (suc (suc (suc zero))) = by_value TypeId.union_enum 1 ∷ []
fields_at (suc (suc (suc (suc zero)))) = number_type ∷ by_value TypeId.struct_instance 2 ∷ []
fields_at (suc (suc (suc (suc (suc o))))) = number_type ∷ by_value TypeId.struct_instance 5 ∷ []

abbrev members_at : ℕ → List ℕ
members_at (suc zero) = 0 ∷ []
members_at _ = []

abbrev objects : Structs
objects = record {
  kind_of = kind_at;
  field_records = fields_at;
  members = members_at;
  type_object = λ d. d;
}

abbrev always : Context → Bool
always c = true

abbrev depth : ℕ → ℕ
depth o = o

no_frame : nested_frame objects number_type ≡ none
unfolding nested_frame
no_frame = refl

frame_at :
    (o : ℕ)
    → nested_frame objects (by_value TypeId.struct_instance o)
      ≡ some record { struct_object = o; ex_data = ExData.indexed 0 }
unfolding nested_frame
frame_at o = refl

enum_frame :
    nested_frame objects (by_value TypeId.union_enum 1)
    ≡ some record { struct_object = 1; ex_data = ExData.enum_module_iterator 0 }
unfolding nested_frame
enum_frame = refl

abbrev type_or : Option TypeRef → TypeRef
type_or none = number_type
type_or (some t) = t

abbrev object_or : Option Frame → ℕ
object_or none = 0
object_or (some f) = f.struct_object

abbrev is_some : Option Frame → Bool
is_some none = false
is_some (some f) = true

only_number : (i : ℕ) (t : TypeRef) → get_elem? (number_type ∷ []) i ≡ some t → number_type ≡ t
only_number zero t e = ap type_or e
only_number (suc i) t e = absurd (ground (arith, e))

number-no_frame :
    (t : TypeRef) (p : ℕ)
    → number_type ≡ t
    → nested_frame objects t ≡ some record { struct_object = p; ex_data = ExData.indexed 0 }
    → ⊥
number-no_frame t p e n =
    let bad : false ≡ true =
      ap is_some (sym no_frame ∙ (ap (λ (u : TypeRef). nested_frame objects u) e ∙ n)) in
    absurd (ground (arith, bad))

number-Nests : (o : ℕ) (t : TypeRef) → number_type ≡ t → Nests objects depth o t
number-Nests o t e = subst (Nests objects depth o) e (Nests.no_struct no_frame)

-- An object whose only field is a number.
number-Sound :
    (o : ℕ) → HasFields objects o → fields_at o ≡ number_type ∷ [] → Sound objects depth o
number-Sound o f e =
    Sound.sound o f (subst (λ (ts : List TypeRef). 0 < length ts) (sym e) (omega arith))
      (λ i t h.
        number-Nests o t (only_number i t (sym (ap (λ (ts : List TypeRef). get_elem? ts i) e) ∙ h)))
      (λ i t p h n. absurd (
        number-no_frame t p
          (only_number i t (sym (ap (λ (ts : List TypeRef). get_elem? ts i) e) ∙ h)) n))

before_second :
    (o : ℕ) (ts : List TypeRef) → fields_at o ≡ number_type ∷ ts → SoundBefore objects depth o 1
before_second o ts f = record {
  nests = λ i t l e. number-Nests o t (at_first i t l e);
  sound = λ i t p l e n. absurd (number-no_frame t p (at_first i t l e) n);
}
  where
    at_first : (i : ℕ) (t : TypeRef) → i < 1 → get_elem? (fields_at o) i ≡ some t → number_type ≡ t
    at_first zero t l e = ap type_or (sym (ap (λ (us : List TypeRef). get_elem? us 0) f) ∙ e)
    at_first (suc i) t l e = absurd (omega (arith, l))

is_recursed-terminated_example : Verdict objects always (λ c. refl) 5 Ending.terminated
unfolding insert
is_recursed-terminated_example =
    is_recursed-terminated objects always (λ c. refl) depth 5
      (Recurses.field [] 5 1 (by_value TypeId.struct_instance 5) 5 (HasFields.struct refl)
        (λ p h. absurd (ground (arith, h))) (omega arith)
        (before_second 5 (by_value TypeId.struct_instance 5 ∷ []) refl) refl (frame_at 5)
        (Recurses.walked (insert 5 []) 5 (HasFields.struct refl) refl))

none_before : SoundBefore objects depth 3 0
none_before = record {
  nests = λ i t l e. absurd (omega (arith, l));
  sound = λ i t p l e n. absurd (omega (arith, l));
}

is_recursed-union_enum_example : Verdict objects always (λ c. refl) 3 Ending.terminated
is_recursed-union_enum_example =
    is_recursed-union_enum objects always (λ c. refl) depth 3 0 (by_value TypeId.union_enum 1) 1 0
      (HasFields.struct refl) (omega arith) none_before refl enum_frame refl refl (omega arith)
      (omega arith) (number-Sound 0 (HasFields.item refl) refl)
