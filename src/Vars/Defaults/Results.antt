-- ===== src/Vars/Defaults/Results.antt =====
-- What a static field of slake/rt/var_access.cc holds after its default value was written.
use slake.Prelude.{ℕ, ◌<◌, ◌^◌, ◌≡◌, refl, ap, ◌∙◌, true, false, Option, some, if◌then◌else◌, arith}
use slake.Types.Reference.{Reference}
use slake.Types.Value.{Value}
use slake.Layout.Fields.{FieldRecord}
use slake.Exec.Memory.{Memory, load}
use slake.Exec.Scalars.{IntType, FloatType, ScalarType, int, float, scalar_size, scalar_payload}
use slake.Vars.Objects.{World}
use slake.Vars.Values.{sized_scalar_of, is_nullable, null_value}
use slake.Vars.Read.{read_var}
use slake.Vars.Write.{write_var}
use slake.Vars.Fields.{IsStatic, static_addr}
use slake.Vars.Fields.Results.{is_i8, write_var-read_var_static, write_var-nullable}
use slake.Vars.Defaults.{default_number, default_object, default_value_of}

pub zero-small : (s : ScalarType) → 0 < 256 ^ scalar_size s
zero-small (int IntType.i8) = omega arith
zero-small (int _) = omega arith
zero-small (float FloatType.f32) = omega arith
zero-small (float FloatType.f64) = omega arith
zero-small ScalarType.bool = omega arith

module _ (world : World) (layout : ℕ → Option ℕ) where
  -- A static field of a number type that is not ISize, USize or nullable has a default value,
  -- writing it succeeds, and reading the field then gives the number 0 of its type.
  pub default_value_of-read_var :
      (r : Reference) (f : FieldRecord) (s : ScalarType) (old : Value) (m : Memory)
      → IsStatic world r f
      → sized_scalar_of f.type.type_id ≡ some s
      → is_nullable f.type ≡ false
      → (v : Value) × (k : Memory) × (default_value_of layout f.type ≡ some v)
        × (write_var world r v m ≡ some (true, k))
        × (read_var world r old k ≡ some (record old { payload = scalar_payload s 0 }))
  unfolding default_value_of
  default_value_of-read_var r f s old m static n plain =
      let (k, w, got) =
        write_var-read_var_static world r f s 0 0 old m static n plain (zero-small s) in
      (
        _,
        k,
        ap
              (λ b.
                if b
                then some null_value
                else default_number (sized_scalar_of f.type.type_id)
                    (default_object layout f.type.type_id f.type.type_def))
              plain
            ∙ ap (λ o. default_number o (default_object layout f.type.type_id f.type.type_def)) n,
        w,
        got,
      )

  -- A nullable static field of a number type that is not ISize, USize or I8 has a default value,
  -- and writing it is said to succeed, but the bytes of the number stay what they were.
  pub default_value_of-nullable :
      (r : Reference) (f : FieldRecord) (s : ScalarType) (m : Memory)
      → IsStatic world r f
      → sized_scalar_of f.type.type_id ≡ some s
      → is_i8 s ≡ false
      → is_nullable f.type ≡ true
      → (v : Value) × (k : Memory) × (default_value_of layout f.type ≡ some v)
        × (write_var world r v m ≡ some (true, k))
        × (load (scalar_size s) (static_addr world r f) k
            ≡ load (scalar_size s) (static_addr world r f) m)
  unfolding default_value_of
  default_value_of-nullable r f s m static n wide nullable =
      let (k, w, same) = write_var-nullable world r f s null_value m static n wide nullable refl in
      (
        null_value,
        k,
        ap
            (λ b.
              if b
              then some null_value
              else default_number (sized_scalar_of f.type.type_id)
                  (default_object layout f.type.type_id f.type.type_def))
            nullable,
        w,
        same,
      )
