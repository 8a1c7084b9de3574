-- ===== src/Types/TypeRef/Modifiers.antt =====
-- The modifier flags of a type: each is set, cleared and tested apart from the others.
use slake.Prelude.{ℕ, zero, suc, ◌<◌, ◌≡◌, refl, Bool, true, false, ◌&&◌, not, arith, if◌then◌else◌}
use slake.Types.Kinds.{i8}
use slake.Types.TypeRef.{
  TypeRef, has_flag, set_flag, clear_flag, type_final, type_local, type_nullable,
}

-- Every number below the bound passes the test.
all_below : ℕ → (ℕ → Bool) → Bool
all_below zero test = true
all_below (suc n) test = test n && all_below n test

all_below_sound :
    (n : ℕ) (test : ℕ → Bool) (x : ℕ) → all_below n test ≡ true → x < n → test x ≡ true
unfolding all_below
all_below_sound zero test x h lt = absurd (omega arith)
all_below_sound (suc n) test x h lt = ground (arith, all_below_sound n test x)

abbrev same : Bool → Bool → Bool
same true b = b
same false b = not b

same_eq : (a b : Bool) → same a b ≡ true → a ≡ b
same_eq true true h = refl
same_eq true false h = cc
same_eq false true h = cc
same_eq false false h = refl

pub data Flag : Type 0 where
  final local nullable : Flag

abbrev pub mask : Flag → ℕ
mask final = type_final
mask local = type_local
mask nullable = type_nullable

abbrev pub is_same_flag : Flag → Flag → Bool
is_same_flag final final = true
is_same_flag local local = true
is_same_flag nullable nullable = true
is_same_flag _ _ = false

abbrev with_modifier : ℕ → TypeRef
with_modifier m = record { type_id = i8; type_modifier = m; type_def = 0 }

abbrev set_test : Flag → Flag → ℕ → Bool
set_test f g m =
    same (has_flag (mask g) (set_flag (mask f) (with_modifier m)))
      (if is_same_flag f g then true else has_flag (mask g) (with_modifier m))

abbrev clear_test : Flag → Flag → ℕ → Bool
clear_test f g m =
    same (has_flag (mask g) (clear_flag (mask f) (with_modifier m)))
      (if is_same_flag f g then false else has_flag (mask g) (with_modifier m))

set_table : (f g : Flag) → all_below 256 (set_test f g) ≡ true
unfolding all_below has_flag set_flag
set_table final final = refl
set_table final local = refl
set_table final nullable = refl
set_table local final = refl
set_table local local = refl
set_table local nullable = refl
set_table nullable final = refl
set_table nullable local = refl
set_table nullable nullable = refl

clear_table : (f g : Flag) → all_below 256 (clear_test f g) ≡ true
unfolding all_below has_flag clear_flag
clear_table final final = refl
clear_table final local = refl
clear_table final nullable = refl
clear_table local final = refl
clear_table local local = refl
clear_table local nullable = refl
clear_table nullable final = refl
clear_table nullable local = refl
clear_table nullable nullable = refl

-- Setting a flag of a modifier byte sets that flag and leaves the other two as they were.
pub has_flag-set_flag :
    (f g : Flag) (t : TypeRef)
    → t.type_modifier < 256
    → has_flag (mask g) (set_flag (mask f) t)
      ≡ (if is_same_flag f g then true else has_flag (mask g) t)
unfolding has_flag set_flag
has_flag-set_flag f g t h =
    same_eq _ _ (all_below_sound 256 (set_test f g) t.type_modifier (set_table f g) h)

-- Clearing a flag of a modifier byte clears that flag and leaves the other two as they were.
pub has_flag-clear_flag :
    (f g : Flag) (t : TypeRef)
    → t.type_modifier < 256
    → has_flag (mask g) (clear_flag (mask f) t)
      ≡ (if is_same_flag f g then false else has_flag (mask g) t)
unfolding has_flag clear_flag
has_flag-clear_flag f g t h =
    same_eq _ _ (all_below_sound 256 (clear_test f g) t.type_modifier (clear_table f g) h)
