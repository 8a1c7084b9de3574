-- ===== src/Members/Paths.antt =====
-- Runtime::get_full_ref of slake/rt/idref.cc: the names on the way from the root object to a member.
pub mod Resolves
use slake.Prelude.{ℕ, zero, suc, ◌==◌, Option, none, some, List, [], ◌∷◌, if◌then◌else◌}
use slake.Signatures.{IdRefEntry}
use slake.Members.{Member, MemberKind, Scope, get_generic_args}

module _ (s : Scope) where
  -- case ObjectKind::Instance: v is its class.
  abbrev pub named_object_of : MemberKind → ℕ → ℕ
  named_object_of MemberKind.instance v = (s.member_at v).of_class
  named_object_of _ v = v

  abbrev pub named_object : ℕ → ℕ
  named_object v = named_object_of (s.member_at v).kind v

  abbrev pub entry_of : Member → IdRefEntry
  entry_of m = record { name = m.name; generic_args = get_generic_args m }

  -- The loop, with what id_ref_out holds and the name "(Orphaned)". `none` where the fuel ends.
  unfoldable pub get_full_ref : ℕ → ℕ → ℕ → List IdRefEntry → Option (List IdRefEntry)
  get_full_ref zero orphaned v id_ref_out = none
  get_full_ref (suc fuel) orphaned v id_ref_out =
      let m = s.member_at (named_object v) in
      let rest = get_full_ref fuel orphaned m.parent (entry_of m ∷ id_ref_out) in
      if v == s.root_object
      then some id_ref_out
      else if v == 0
      then some (record { name = orphaned; generic_args = [] } ∷ id_ref_out)
      else rest
