-- ===== src/Vars/Fields.antt =====
-- Static fields of slake/rt/var_access.cc that hold numbers.
pub mod Results
use slake.Prelude.{
  ℕ, ◌+◌, ◌≤◌, ◌<◌, ◌^◌, ◌≡◌, ◌⊎◌, inl, refl, ap, ◌∙◌, sym, Bool, true, false, not, Option, none,
  some, get_elem?, if◌then◌else◌, arith,
}
use slake.Types.Kinds.{TypeId}
use slake.Types.TypeRef.{TypeRef}
use slake.Types.Reference.{Reference, ReferenceKind}
use slake.Types.Value.{Value, Payload}
use slake.Layout.Fields.{FieldRecord}
use slake.Exec.Memory.{Memory, load, store, load-store_other}
use slake.Exec.Scalars.{IntType, ScalarType, int, float, scalar_size, get_scalar, scalar_payload}
use slake.Exec.Arith.{bool_pattern}
use slake.Vars.Objects.{World, ◌>>=◌, inner_kind}
use slake.Vars.Locate.{
  locate_plain, typeof_plain, locate_by, locate_value_base_ptr, typeof_by, typeof_var,
}
use slake.Vars.Read.{read_field_scalar, read_field_by, read_field, read_by, read_var}
use slake.Vars.Values.{scalar_of, sized_scalar_of, is_nullable, read_scalar_at}
use slake.Vars.Write.{
  Written, is_null, put_scalar, write_field_scalar, write_field_by, write_field, write_by,
  write_var,
}
use slake.Vars.Numbers.{read_scalar_at-put_scalar}

sized-scalar_of : (t : TypeId) (s : ScalarType) → sized_scalar_of t ≡ some s → scalar_of t ≡ some s
sized-scalar_of TypeId.isize s e = cc e
sized-scalar_of TypeId.usize s e = cc e
sized-scalar_of _ s e = e

module _ (world : World) where
  -- A reference to a static field with its record
  abbrev pub IsStatic : Reference → FieldRecord → Type 0
  IsStatic r f =
      (r.kind ≡ ReferenceKind.static_field_ref)
      × (get_elem? (world.module_fields r.pointer) r.index ≡ some f)

  abbrev pub static_addr : Reference → FieldRecord → ℕ
  static_addr r f = world.local_field_storage r.pointer + f.offset

  located :
      (r : Reference) (f : FieldRecord) (m : Memory)
      → IsStatic r f
      → locate_value_base_ptr world m r ≡ some (static_addr r f)
  unfolding locate_value_base_ptr locate_by locate_plain
  located r f m (k, e) =
      ap (λ kind. locate_by world m (record r { kind = kind }) (inner_kind kind)) k
      ∙ ap
          (λ (o : Option FieldRecord).
            o >>= λ g. some (world.local_field_storage r.pointer + g.offset))
          e

  typed :
      (r : Reference) (f : FieldRecord) (m : Memory)
      → IsStatic r f
      → typeof_var world m r ≡ some f.type
  unfolding typeof_var typeof_by typeof_plain
  typed r f m (k, e) =
      ap (λ kind. typeof_by world m (record r { kind = kind }) (inner_kind kind)) k
      ∙ ap (λ (o : Option FieldRecord). o >>= λ g. some g.type) e

  pub read_var-static :
      (r : Reference) (f : FieldRecord) (s : ScalarType) (old : Value) (m : Memory)
      → IsStatic r f
      → sized_scalar_of f.type.type_id ≡ some s
      → read_var world r old m
        ≡ some (read_field_scalar world s (static_addr r f) (is_nullable f.type) old m)
  unfolding read_var read_by read_field read_field_by
  read_var-static r f s old m (k, e) n =
      ap (λ kind. read_by world r kind old m) k
      ∙ (ap
            (λ (o : Option ℕ). o >>= λ a. typeof_var world m r >>= λ t.
              read_field_by world r t t.type_id (scalar_of t.type_id) a old m)
            (located r f m (k, e))
          ∙ (ap
                (λ (o : Option TypeRef). o >>= λ t.
                  read_field_by world r t t.type_id (scalar_of t.type_id) (static_addr r f) old m)
                (typed r f m (k, e))
              ∙ ap
                  (λ (o : Option ScalarType).
                    read_field_by world r f.type f.type.type_id o (static_addr r f) old m)
                  (sized-scalar_of f.type.type_id s n)))

  pub write_var-static :
      (r : Reference) (f : FieldRecord) (s : ScalarType) (v : Value) (m : Memory)
      → IsStatic r f
      → sized_scalar_of f.type.type_id ≡ some s
      → write_var world r v m
        ≡ some (write_field_scalar world s (static_addr r f) (is_nullable f.type) v.payload m)
  unfolding write_var write_by write_field write_field_by
  write_var-static r f s v m (k, e) n =
      ap (λ kind. write_by world r kind v m) k
      ∙ (ap
            (λ (o : Option TypeRef). o >>= λ t. locate_value_base_ptr world m r >>= λ a.
              write_field_by world t t.type_id (sized_scalar_of t.type_id) a v m)
            (typed r f m (k, e))
          ∙ (ap
                (λ (o : Option ℕ). o >>= λ a.
                  write_field_by world f.type f.type.type_id (sized_scalar_of f.type.type_id) a v m)
                (located r f m (k, e))
              ∙ ap
                  (λ (o : Option ScalarType).
                    write_field_by world f.type f.type.type_id o (static_addr r f) v m)
                  n))
