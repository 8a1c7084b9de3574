-- ===== src/Layout/Sizes/Bounds.antt =====
-- Which types of slake/runtime.cc have a size and an alignment.
use slake.Prelude.{ℕ, zero, suc, ◌≡◌, ◌==◌, refl, Bool, true, false, not, Option, none, some, arith}
use slake.Types.Kinds.{TypeId}
use slake.Types.TypeRef.{TypeRef}
use slake.Layout.Sizes.{
  Platform, SizeAlign, TypeObjects, plus_flag, layout_size, layout_align, if_cached, sizeof_kind,
  sizeof_type, alignof_kind, alignof_type,
}

abbrev pub is_some : Option ℕ → Bool
is_some none = false
is_some (some n) = true

abbrev pub is_any : TypeId → Bool
is_any TypeId.any = true
is_any _ = false

plus_flag-is_some : (t : TypeRef) (n : Option ℕ) → is_some (plus_flag t n) ≡ is_some n
plus_flag-is_some t none = refl
plus_flag-is_some t (some n) = refl

layout-is_some : (l : Option SizeAlign) → is_some (layout_size l) ≡ is_some (layout_align l)
layout-is_some none = refl
layout-is_some (some l) = refl

if_cached-is_some : (n : ℕ) → is_some (if_cached n) ≡ not (n == 0)
if_cached-is_some n = ground arith

module _ (p : Platform) (o : TypeObjects)
    (both_cached : (d : ℕ)
      → (o.cached_max_size d == 0) ≡ false
      → (o.cached_max_align d == 0) ≡ false) where
  kind-aligned :
      (t : TypeRef) (size align : Option ℕ) (k : TypeId)
      → is_any k ≡ false
      → (is_some size ≡ true → is_some align ≡ true)
      → is_some (sizeof_kind p o t size k) ≡ true
      → is_some (alignof_kind p o t align k) ≡ true
  unfolding sizeof_kind alignof_kind
  kind-aligned t size align k n base h = ground (
    arith,
    n,
    base,
    h,
    plus_flag-is_some t size,
    plus_flag-is_some t (layout_size (o.cached_object_layout t.type_def)),
    plus_flag-is_some t (if_cached (o.cached_max_size t.type_def)),
    layout-is_some (o.cached_object_layout t.type_def),
    if_cached-is_some (o.cached_max_size t.type_def),
    if_cached-is_some (o.cached_max_align t.type_def),
    both_cached t.type_def,
  )

  -- A type that has a size has an alignment, unless it is `any`, for which alignof_type
  -- terminates. Assumed are union enumerations with both or neither of their cached numbers, and
  -- no enumeration over `any`.
  pub alignof_type-is_some :
      ((d : ℕ) → is_any (o.base_type d).type_id ≡ false)
      → (fuel : ℕ) (t : TypeRef) → is_any t.type_id ≡ false
      → is_some (sizeof_type fuel p o t) ≡ true
      → is_some (alignof_type fuel p o t) ≡ true
  unfolding sizeof_type alignof_type
  alignof_type-is_some bases zero t n h = h
  alignof_type-is_some bases (suc fuel) t n h =
      kind-aligned t (sizeof_type fuel p o (o.base_type t.type_def))
        (alignof_type fuel p o (o.base_type t.type_def)) t.type_id n
        (alignof_type-is_some bases fuel (o.base_type t.type_def) (bases t.type_def)) h
