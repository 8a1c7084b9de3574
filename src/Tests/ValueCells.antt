-- ===== src/Tests/ValueCells.antt =====
-- An example of how the bytes of a Value can hold it: a cell for each part.
use slake.Prelude.{
  ℕ, ◌+◌, ◌-◌, ◌<◌, ◌≡◌, refl, ap, ◌∙◌, true, false, List, [], ◌∷◌, get_or, ◌==◌, ltb,
  if◌then◌else◌, arith,
}
use slake.Words.{ℤ}
use slake.Types.Kinds.{TypeId, type_code}
use slake.Types.TypeRef.{TypeRef}
use slake.Types.Reference.{Reference, ReferenceKind, kind_code}
use slake.Types.Value.{Value, Payload, value_type, bool_number}
use slake.Exec.Memory.{Memory}
use slake.Exec.Machine.{ValueBytes}

record Cells : Type 0 where
  pub c0 : ℕ
  pub c1 : ℕ
  pub c2 : ℕ
  pub c3 : ℕ

-- The first element with a number
abbrev pick : {A : Type 0} → (A → ℕ) → List A → A → ℕ → A
pick code [] d n = d
pick code (x ∷ xs) d n = if code x == n then x else pick code xs d n

abbrev type_at : ℕ → TypeId
type_at n =
    pick type_code
      (TypeId.invalid ∷ TypeId.void ∷ TypeId.i8 ∷ TypeId.i16 ∷ TypeId.i32 ∷ TypeId.i64
        ∷ TypeId.isize ∷ TypeId.u8 ∷ TypeId.u16 ∷ TypeId.u32 ∷ TypeId.u64 ∷ TypeId.usize
        ∷ TypeId.f32 ∷ TypeId.f64 ∷ TypeId.bool ∷ TypeId.object ∷ TypeId.string ∷ TypeId.instance
        ∷ TypeId.struct_instance ∷ TypeId.scoped_enum ∷ TypeId.typeless_scoped_enum
        ∷ TypeId.union_enum ∷ TypeId.union_enum_item ∷ TypeId.generic_arg ∷ TypeId.array
        ∷ TypeId.ref ∷ TypeId.temp_ref ∷ TypeId.tuple ∷ TypeId.simd ∷ TypeId.fn
        ∷ TypeId.param_type_list ∷ TypeId.unpacking ∷ TypeId.any ∷ TypeId.unknown ∷ [])
      TypeId.invalid n

type_at-type_code : (t : TypeId) → type_at (type_code t) ≡ t
type_at-type_code TypeId.invalid = refl
type_at-type_code TypeId.void = refl
type_at-type_code TypeId.i8 = refl
type_at-type_code TypeId.i16 = refl
type_at-type_code TypeId.i32 = refl
type_at-type_code TypeId.i64 = refl
type_at-type_code TypeId.isize = refl
type_at-type_code TypeId.u8 = refl
type_at-type_code TypeId.u16 = refl
type_at-type_code TypeId.u32 = refl
type_at-type_code TypeId.u64 = refl
type_at-type_code TypeId.usize = refl
type_at-type_code TypeId.f32 = refl
type_at-type_code TypeId.f64 = refl
type_at-type_code TypeId.bool = refl
type_at-type_code TypeId.object = refl
type_at-type_code TypeId.string = refl
type_at-type_code TypeId.instance = refl
type_at-type_code TypeId.struct_instance = refl
type_at-type_code TypeId.scoped_enum = refl
type_at-type_code TypeId.typeless_scoped_enum = refl
type_at-type_code TypeId.union_enum = refl
type_at-type_code TypeId.union_enum_item = refl
type_at-type_code TypeId.generic_arg = refl
type_at-type_code TypeId.array = refl
type_at-type_code TypeId.ref = refl
type_at-type_code TypeId.temp_ref = refl
type_at-type_code TypeId.tuple = refl
type_at-type_code TypeId.simd = refl
type_at-type_code TypeId.fn = refl
type_at-type_code TypeId.param_type_list = refl
type_at-type_code TypeId.unpacking = refl
type_at-type_code TypeId.any = refl
type_at-type_code TypeId.unknown = refl

abbrev kind_at : ℕ → ReferenceKind
kind_at n =
    pick kind_code
      (ReferenceKind.invalid ∷ ReferenceKind.local_var_ref ∷ ReferenceKind.coroutine_local_var_ref
        ∷ ReferenceKind.array_element_ref ∷ ReferenceKind.arg_ref ∷ ReferenceKind.coroutine_arg_ref
        ∷ ReferenceKind.static_field_ref ∷ ReferenceKind.object_field_ref
        ∷ ReferenceKind.init_object_layout_field_ref ∷ ReferenceKind.default_struct_value_ref
        ∷ ReferenceKind.arg_pack_ref ∷ ReferenceKind.aot_ptr_ref
        ∷ ReferenceKind.local_var_struct_field_ref
        ∷ ReferenceKind.coroutine_local_var_struct_field_ref
        ∷ ReferenceKind.array_element_struct_field_ref ∷ ReferenceKind.arg_struct_field_ref
        ∷ ReferenceKind.coroutine_arg_struct_field_ref ∷ ReferenceKind.static_field_struct_field_ref
        ∷ ReferenceKind.object_field_struct_field_ref ∷ [])
      ReferenceKind.invalid n

kind_at-kind_code : (k : ReferenceKind) → kind_at (kind_code k) ≡ k
kind_at-kind_code ReferenceKind.invalid = refl
kind_at-kind_code ReferenceKind.local_var_ref = refl
kind_at-kind_code ReferenceKind.coroutine_local_var_ref = refl
kind_at-kind_code ReferenceKind.array_element_ref = refl
kind_at-kind_code ReferenceKind.arg_ref = refl
kind_at-kind_code ReferenceKind.coroutine_arg_ref = refl
kind_at-kind_code ReferenceKind.static_field_ref = refl
kind_at-kind_code ReferenceKind.object_field_ref = refl
kind_at-kind_code ReferenceKind.init_object_layout_field_ref = refl
kind_at-kind_code ReferenceKind.default_struct_value_ref = refl
kind_at-kind_code ReferenceKind.arg_pack_ref = refl
kind_at-kind_code ReferenceKind.aot_ptr_ref = refl
kind_at-kind_code ReferenceKind.local_var_struct_field_ref = refl
kind_at-kind_code ReferenceKind.coroutine_local_var_struct_field_ref = refl
kind_at-kind_code ReferenceKind.array_element_struct_field_ref = refl
kind_at-kind_code ReferenceKind.arg_struct_field_ref = refl
kind_at-kind_code ReferenceKind.coroutine_arg_struct_field_ref = refl
kind_at-kind_code ReferenceKind.static_field_struct_field_ref = refl
kind_at-kind_code ReferenceKind.object_field_struct_field_ref = refl

abbrev one : ℕ → Cells
one n = record { c0 = n; c1 = 0; c2 = 0; c3 = 0 }

abbrev of_ℤ : ℤ → Cells
of_ℤ (ℤ.pos n) = one n
of_ℤ (ℤ.negsuc n) = record { c0 = n; c1 = 1; c2 = 0; c3 = 0 }

abbrev to_ℤ : Cells → ℤ
to_ℤ c = if c.c1 == 0 then ℤ.pos c.c0 else ℤ.negsuc c.c0

to_ℤ-of_ℤ : (z : ℤ) → to_ℤ (of_ℤ z) ≡ z
to_ℤ-of_ℤ (ℤ.pos n) = refl
to_ℤ-of_ℤ (ℤ.negsuc n) = refl

abbrev cells : Payload → Cells
cells Payload.invalid = one 0
cells Payload.undefined = one 0
cells (Payload.i8 z) = of_ℤ z
cells (Payload.i16 z) = of_ℤ z
cells (Payload.i32 z) = of_ℤ z
cells (Payload.i64 z) = of_ℤ z
cells (Payload.isize z) = of_ℤ z
cells (Payload.u8 n) = one n
cells (Payload.u16 n) = one n
cells (Payload.u32 n) = one n
cells (Payload.u64 n) = one n
cells (Payload.usize n) = one n
cells (Payload.f32 n) = one n
cells (Payload.f64 n) = one n
cells (Payload.object n) = one n
cells (Payload.reg_index n) = one n
cells (Payload.bool b) = one (bool_number b)
cells (Payload.reference r) = record {
  c0 = kind_code r.kind;
  c1 = r.pointer;
  c2 = r.index;
  c3 = r.struct_field_index;
}
cells (Payload.typeless_scoped_enum n t) = record {
  c0 = type_code t.type_id;
  c1 = t.type_modifier;
  c2 = t.type_def;
  c3 = n;
}
cells (Payload.type_name t) = record {
  c0 = type_code t.type_id;
  c1 = t.type_modifier;
  c2 = t.type_def;
  c3 = 0;
}

abbrev to_type : Cells → TypeRef
to_type c = record { type_id = type_at c.c0; type_modifier = c.c1; type_def = c.c2 }

abbrev to_reference : Cells → Reference
to_reference c = record {
  kind = kind_at c.c0;
  pointer = c.c1;
  index = c.c2;
  struct_field_index = c.c3;
}

abbrev payload : ℕ → Cells → Payload
payload tag c =
    get_or
      ((Payload.invalid)
        ∷ (Payload.i8 (to_ℤ c))
        ∷ (Payload.i16 (to_ℤ c))
        ∷ (Payload.i32 (to_ℤ c))
        ∷ (Payload.i64 (to_ℤ c))
        ∷ (Payload.isize (to_ℤ c))
        ∷ (Payload.u8 c.c0)
        ∷ (Payload.u16 c.c0)
        ∷ (Payload.u32 c.c0)
        ∷ (Payload.u64 c.c0)
        ∷ (Payload.usize c.c0)
        ∷ (Payload.f32 c.c0)
        ∷ (Payload.f64 c.c0)
        ∷ (Payload.bool (c.c0 == 1))
        ∷ (Payload.object c.c0)
        ∷ (Payload.reference (to_reference c))
        ∷ (Payload.typeless_scoped_enum c.c3 (to_type c))
        ∷ (Payload.reg_index c.c0)
        ∷ (Payload.type_name (to_type c))
        ∷ [])
      tag Payload.undefined

payload-cells : (p : Payload) → payload (value_type p) (cells p) ≡ p
payload-cells Payload.invalid = refl
payload-cells Payload.undefined = refl
payload-cells (Payload.i8 z) = ap Payload.i8 (to_ℤ-of_ℤ z)
payload-cells (Payload.i16 z) = ap Payload.i16 (to_ℤ-of_ℤ z)
payload-cells (Payload.i32 z) = ap Payload.i32 (to_ℤ-of_ℤ z)
payload-cells (Payload.i64 z) = ap Payload.i64 (to_ℤ-of_ℤ z)
payload-cells (Payload.isize z) = ap Payload.isize (to_ℤ-of_ℤ z)
payload-cells (Payload.u8 n) = refl
payload-cells (Payload.u16 n) = refl
payload-cells (Payload.u32 n) = refl
payload-cells (Payload.u64 n) = refl
payload-cells (Payload.usize n) = refl
payload-cells (Payload.f32 n) = refl
payload-cells (Payload.f64 n) = refl
payload-cells (Payload.object n) = refl
payload-cells (Payload.reg_index n) = refl
payload-cells (Payload.bool true) = refl
payload-cells (Payload.bool false) = refl
payload-cells (Payload.reference r) = λ i. Payload.reference (record {
  kind = kind_at-kind_code r.kind i;
  pointer = r.pointer;
  index = r.index;
  struct_field_index = r.struct_field_index;
})
payload-cells (Payload.typeless_scoped_enum n t) = λ i. Payload.typeless_scoped_enum n (record {
  type_id = type_at-type_code t.type_id i;
  type_modifier = t.type_modifier;
  type_def = t.type_def;
})
payload-cells (Payload.type_name t) = λ i. Payload.type_name (record {
  type_id = type_at-type_code t.type_id i;
  type_modifier = t.type_modifier;
  type_def = t.type_def;
})

abbrev cell : ℕ → Value → ℕ
cell i v =
    if i == 0
    then v.value_flags
    else if i == 1
    then value_type v.payload
    else if i == 2
    then (cells v.payload).c0
    else if i == 3
    then (cells v.payload).c1
    else if i == 4
    then (cells v.payload).c2
    else (cells v.payload).c3

abbrev put : ℕ → Value → Memory → Memory
put a v m b = if ltb b a then m b else if ltb b (a + 6) then cell (b - a) v else m b

put-cell : (i a : ℕ) (v : Value) (m : Memory) → i < 6 → put a v m (a + i) ≡ cell i v
put-cell i a v m h =
    let below : ltb (a + i) a ≡ false = ground arith in
    let within : ltb (a + i) (a + 6) ≡ true = ground (arith, h) in
    let place : a + i - a ≡ i = omega arith in rw (below, within, place)

abbrev get : ℕ → Memory → Value
get a m = record {
  payload =
      payload (m (a + 1))
        (record { c0 = m (a + 2); c1 = m (a + 3); c2 = m (a + 4); c3 = m (a + 5) });
  value_flags = m (a + 0);
}

pub get-put : (a : ℕ) (v : Value) (m : Memory) → get a (put a v m) ≡ v
get-put a v m =
    let parts : get a (put a v m) ≡ record {
      payload = payload (value_type v.payload) (cells v.payload);
      value_flags = v.value_flags;
    } =
      λ i. record {
        payload = payload (put-cell 1 a v m (omega arith) i) (record {
          c0 = put-cell 2 a v m (omega arith) i;
          c1 = put-cell 3 a v m (omega arith) i;
          c2 = put-cell 4 a v m (omega arith) i;
          c3 = put-cell 5 a v m (omega arith) i;
        });
        value_flags = put-cell 0 a v m (omega arith) i;
      } in
    parts ∙ ap (λ (p : Payload). record v { payload = p }) (payload-cells v.payload)

pub get-agrees :
    (a : ℕ) (m k : Memory) → ((i : ℕ) → i < 6 → m (a + i) ≡ k (a + i)) → get a m ≡ get a k
get-agrees a m k h = λ i. record {
  payload = payload (h 1 (omega arith) i) (record {
    c0 = h 2 (omega arith) i;
    c1 = h 3 (omega arith) i;
    c2 = h 4 (omega arith) i;
    c3 = h 5 (omega arith) i;
  });
  value_flags = h 0 (omega arith) i;
}

-- A Value of at least 6 bytes
abbrev pub value_cells : (n : ℕ) → ValueBytes (n + 6)
value_cells n = record {
  load_value = get;
  store_value = put;
  load-store = get-put;
  load-agrees = λ a m k h. get-agrees a m k (λ i l. h i (omega (arith, l)));
}
