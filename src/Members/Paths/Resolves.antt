-- ===== src/Members/Paths/Resolves.antt =====
-- A path of Runtime::get_full_ref of slake/rt/idref.cc leads back to the member.
use slake.Prelude.{
  ℕ, zero, suc, ◌<◌, ◌==◌, ==_refl, ◌≡◌, ap, ◌∙◌, sym, false, Option, none, some, List, [], ◌∷◌,
  arith,
}
use slake.Signatures.{IdRefEntry}
use slake.Exec.Machine.{MemberQueryResult}
use slake.Members.{Member, Scope, get_member, object_in}
use slake.Members.Paths.{named_object, entry_of, get_full_ref}

module _ (s : Scope) where
  abbrev named : ℕ → Member
  named v = s.member_at (named_object s v)

  -- A member whose parents lead to the root object, none of them an instance, each of which finds
  -- its child by its name
  pub data Reachable : ℕ → Type 0 where
    at_root : named_object s s.root_object ≡ s.root_object → Reachable s.root_object
    child :
        (v : ℕ)
        → (v == s.root_object) ≡ false
        → (v == 0) ≡ false
        → get_member s (named v).parent (named v).name
          ≡ MemberQueryResult.object_found (named_object s v)
        → named_object s (named v).parent ≡ (named v).parent
        → Reachable (named v).parent
        → Reachable v

  abbrev pub depth : {v : ℕ} → Reachable v → ℕ
  depth (at_root h) = 0
  depth (child v n m found own up) = suc (depth up)

  abbrev pub then_follow : (ℕ → Option ℕ) → Option ℕ → Option ℕ
  then_follow f none = none
  then_follow f (some o) = f o

  -- What the names lead to, one get_member after another
  unfoldable pub follow : List IdRefEntry → ℕ → Option ℕ
  follow [] v = some v
  follow (e ∷ es) v = then_follow (follow es) (object_in (get_member s v e.name))

  full_ref_at :
      (orphaned fuel : ℕ) {v : ℕ} (r : Reachable v)
      → depth r < fuel
      → (id_ref_out : List IdRefEntry)
      → (es : List IdRefEntry) × (get_full_ref s fuel orphaned v id_ref_out ≡ some es)
        × (follow es s.root_object ≡ follow id_ref_out (named_object s v))
  unfolding get_full_ref follow
  full_ref_at orphaned zero r h id_ref_out = absurd (omega (arith, h))
  full_ref_at orphaned (suc fuel) (at_root own) h id_ref_out =
      (id_ref_out, ground (arith, ==_refl s.root_object), ap (follow id_ref_out) (sym own))
  full_ref_at orphaned (suc fuel) (child v n m found own up) h id_ref_out =
      let (es, e, f) =
        full_ref_at orphaned fuel up (omega (arith, h)) (entry_of s (named v) ∷ id_ref_out) in
      (
        es,
        ground (arith, n, m, e),
        f
            ∙ (ap (λ w. then_follow (follow id_ref_out) (object_in (get_member s w (named v).name)))
                  own
                ∙ ap (λ q. then_follow (follow id_ref_out) (object_in q)) found),
      )

  -- For a member whose parents lead to the root object, none of them an instance and each finding
  -- its child by its name, get_full_ref returns, and following its names from the root object by
  -- get_member leads to the member, or to the class of an instance. More turns than there are
  -- parents are enough.
  pub get_full_ref-follow :
      (orphaned fuel v : ℕ) (r : Reachable v)
      → depth r < fuel
      → (es : List IdRefEntry) × (get_full_ref s fuel orphaned v [] ≡ some es)
        × (follow es s.root_object ≡ some (named_object s v))
  unfolding follow
  get_full_ref-follow orphaned fuel v r h = full_ref_at orphaned fuel r h []
