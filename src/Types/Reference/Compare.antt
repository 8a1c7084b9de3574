-- ===== src/Types/Reference/Compare.antt =====
-- The operators of `Reference` agree with one order of keys on the kinds that they compare.
use Prim.Native.Nat.Ordering.{lt, eq, gt}
use slake.Prelude.{
  ℕ, ◌-◌, ◌≡◌, refl, Bool, true, false, Option, none, some, Ordering, arith, ltb, ◌==◌,
  if◌then◌else◌, ap, get_or, List, [], ◌∷◌, sym, ◌∙◌,
}
use slake.Prelude.Order.{IsOrder, three_way, and_then, nat-IsOrder, key-IsOrder, and_then-IsOrder}
use slake.Types.Reference.{
  Reference, ReferenceKind, kind_code, low_index, equals, less_than, greater_than, less_comparand,
  equal_comparand, less_by, greater_by, equal_by, array_element_ref, static_field_ref,
  object_field_ref, local_var_ref, arg_ref, aot_ptr_ref, invalid,
}

-- The kinds whose members are compared by `<` and `>`, and those compared by `==`.
abbrev pub is_ordered : ReferenceKind → Bool
is_ordered static_field_ref = true
is_ordered array_element_ref = true
is_ordered object_field_ref = true
is_ordered local_var_ref = true
is_ordered arg_ref = true
is_ordered aot_ptr_ref = true
is_ordered _ = false

abbrev pub has_equality : ReferenceKind → Bool
has_equality aot_ptr_ref = false
has_equality k = is_ordered k

-- The index as far as it is compared.
abbrev pub relevant_index : ReferenceKind → Reference → ℕ
relevant_index array_element_ref r = low_index r
relevant_index aot_ptr_ref r = 0
relevant_index _ r = r.index

-- The order that the operators describe: kind, pointer, index.
pub reference_order : Reference → Reference → Ordering
reference_order a b = and_then (three_way (kind_code a.kind) (kind_code b.kind) eq) (
    and_then (three_way a.pointer b.pointer eq)
      (three_way (relevant_index a.kind a) (relevant_index b.kind b) eq))

abbrev pub is_lt : Ordering → Bool
is_lt lt = true
is_lt _ = false

abbrev pub is_gt : Ordering → Bool
is_gt gt = true
is_gt _ = false

abbrev pub is_eq : Ordering → Bool
is_eq eq = true
is_eq _ = false

-- An answer, or the end of the program.
abbrev pub answer : Bool → Bool → Option Bool
answer true b = some b
answer false b = none

pub reference_order-IsOrder : IsOrder reference_order
unfolding reference_order
reference_order-IsOrder =
    and_then-IsOrder (key-IsOrder (λ (r : Reference). kind_code r.kind) nat-IsOrder) (
      and_then-IsOrder (key-IsOrder (λ (r : Reference). r.pointer) nat-IsOrder)
        (key-IsOrder (λ (r : Reference). relevant_index r.kind r) nat-IsOrder))

-- Behind one kind `k`, the comparisons by comparand are those of the order.
module _ (a b : Reference) where
  abbrev member_order : ReferenceKind → Ordering
  member_order k =
      and_then (three_way a.pointer b.pointer eq)
        (three_way (relevant_index k a) (relevant_index k b) eq)

  less_member :
      (k : ReferenceKind)
      → less_by (less_comparand k a) (less_comparand k b)
        ≡ answer (is_ordered k) (is_lt (member_order k))
  less_member static_field_ref = ground arith
  less_member array_element_ref = ground arith
  less_member aot_ptr_ref = ground arith
  less_member object_field_ref = ground arith
  less_member local_var_ref = ground arith
  less_member arg_ref = ground arith
  less_member _ = refl

  greater_member :
      (k : ReferenceKind)
      → greater_by (less_comparand k a) (less_comparand k b)
        ≡ answer (is_ordered k) (is_gt (member_order k))
  greater_member static_field_ref = ground arith
  greater_member array_element_ref = ground arith
  greater_member aot_ptr_ref = ground arith
  greater_member object_field_ref = ground arith
  greater_member local_var_ref = ground arith
  greater_member arg_ref = ground arith
  greater_member _ = refl

  equal_member :
      (k : ReferenceKind)
      → equal_by (equal_comparand k a) (equal_comparand k b)
        ≡ answer (has_equality k) (is_eq (member_order k))
  equal_member static_field_ref = ground arith
  equal_member array_element_ref = ground arith
  equal_member aot_ptr_ref = refl
  equal_member object_field_ref = ground arith
  equal_member local_var_ref = ground arith
  equal_member arg_ref = ground arith
  equal_member _ = refl

abbrev all_kinds : List ReferenceKind
all_kinds =
    invalid ∷ local_var_ref ∷ ReferenceKind.coroutine_local_var_ref ∷ array_element_ref ∷ arg_ref
    ∷ ReferenceKind.coroutine_arg_ref ∷ static_field_ref ∷ object_field_ref
    ∷ ReferenceKind.init_object_layout_field_ref ∷ ReferenceKind.default_struct_value_ref
    ∷ ReferenceKind.arg_pack_ref ∷ aot_ptr_ref ∷ ReferenceKind.local_var_struct_field_ref
    ∷ ReferenceKind.coroutine_local_var_struct_field_ref
    ∷ ReferenceKind.array_element_struct_field_ref ∷ ReferenceKind.arg_struct_field_ref
    ∷ ReferenceKind.coroutine_arg_struct_field_ref ∷ ReferenceKind.static_field_struct_field_ref
    ∷ ReferenceKind.object_field_struct_field_ref ∷ []

abbrev kind_at : ℕ → ReferenceKind
kind_at n = get_or all_kinds (if ltb n 129 then n else n - 117) invalid

kind_at-kind_code : (k : ReferenceKind) → kind_at (kind_code k) ≡ k
kind_at-kind_code invalid = refl
kind_at-kind_code _ = refl

kind_code-injective : (j k : ReferenceKind) → kind_code j ≡ kind_code k → j ≡ k
kind_code-injective j k e = sym (kind_at-kind_code j) ∙ (ap kind_at e ∙ kind_at-kind_code k)

module _ (a b : Reference) where
  same_kind : kind_code a.kind ≡ kind_code b.kind → member_order a b a.kind ≡ reference_order a b
  unfolding reference_order
  same_kind e =
      ground (
        arith,
        ap (λ (k : ReferenceKind). relevant_index k b) (kind_code-injective a.kind b.kind e),
      )

  abbrev pub differ_or : (ReferenceKind → Bool) → Bool
  differ_or p = if kind_code a.kind == kind_code b.kind then p a.kind else true

  -- `a < b` is the order of kind, pointer and index, for any two kinds that differ and for two
  -- references of one ordered kind; on two of another kind it ends the program.
  pub less_than-reference_order :
      less_than a b ≡ answer (differ_or is_ordered) (is_lt (reference_order a b))
  unfolding less_than reference_order
  less_than-reference_order = ground (arith, less_member a b a.kind, same_kind)

  -- `a > b` likewise.
  pub greater_than-reference_order :
      greater_than a b ≡ answer (differ_or is_ordered) (is_gt (reference_order a b))
  unfolding greater_than reference_order
  greater_than-reference_order = ground (arith, greater_member a b a.kind, same_kind)

  -- `a == b` is the same kind, pointer and index; on two references of one kind that has no
  -- equality it ends the program, an invalid, a native pointer and a coroutine reference included.
  pub equals-reference_order :
      equals a b ≡ answer (differ_or has_equality) (is_eq (reference_order a b))
  unfolding equals reference_order
  equals-reference_order = ground (arith, equal_member a b a.kind, same_kind)
