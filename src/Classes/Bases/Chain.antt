-- ===== src/Classes/Bases/Chain.antt =====
-- What ClassObject::is_base_of of slake/obj/class.cc decides.
use slake.Prelude.{
  ℕ, zero, suc, ◌<◌, ◌≡◌, ap, ◌∙◌, Bool, true, false, inl, inr, Option, none, some, ◌==◌,
  Bool-cases, Option-cases, sym, arith,
}
use mathlib.Core.Path.{subst}
use slake.Classes.Bases.{BaseOf, base_step, is_base_of}

-- A class is an ancestor of itself and of what an ancestor's derived classes are ancestors of.
pub data Ancestor (base : BaseOf) (this : ℕ) : ℕ → Type 0 where
  itself : Ancestor base this this
  parent : (c p : ℕ) → base c ≡ some p → Ancestor base this p → Ancestor base this c

abbrev or_zero : Option ℕ → ℕ
or_zero none = 0
or_zero (some n) = n

same : (this c : ℕ) → (c == this) ≡ true → this ≡ c
same this c e = ground (arith, e)

-- A class that is not `this` has it as an ancestor through its base class.
Ancestor-parent :
    (base : BaseOf) (this c : ℕ)
    → Ancestor base this c
    → (c == this) ≡ false
    → (p : ℕ) × (base c ≡ some p) × Ancestor base this p
Ancestor-parent base this c itself n = absurd (ground (arith, n))
Ancestor-parent base this c (parent _ p e a) n = (p, e, a)

module _ (base : BaseOf) (this : ℕ) where
  abbrev pub Decides : ℕ → Bool → Type 0
  Decides c true = Ancestor base this c
  Decides c false = Ancestor base this c → ⊥

  no_base : (c : ℕ) → (c == this) ≡ false → base c ≡ none → Ancestor base this c → ⊥
  no_base c n e a = let (p, f, b) = Ancestor-parent base this c a n in ground (arith, e, f)

  through_base :
      (c p : ℕ) → (c == this) ≡ false → base c ≡ some p → (b : Bool) → Decides p b → Decides c b
  through_base c p n e true d = parent c p e d
  through_base c p n e false d = λ a.
      let (q, f, b) = Ancestor-parent base this c a n in
      d (subst (Ancestor base this) (ap or_zero (sym f ∙ e)) b)

  self_step : (fuel c : ℕ) → (c == this) ≡ true → is_base_of (suc fuel) base this c ≡ some true
  unfolding is_base_of
  self_step fuel c e = ground (arith, e)

  base_walk :
      (fuel c : ℕ)
      → (c == this) ≡ false
      → is_base_of (suc fuel) base this c ≡ base_step (λ i. is_base_of fuel base this i) (base c)
  unfolding is_base_of
  base_walk fuel c e = ground (arith, e)

  -- Where the chain of base classes ends, is_base_of returns, and it returns whether `this` is the
  -- class itself or one of its base classes: with a depth that falls from a class to its base
  -- class, one step more than the depth is enough.
  pub is_base_of-Decides :
      (depth : ℕ → ℕ)
      → ((c p : ℕ) → base c ≡ some p → depth p < depth c)
      → (fuel c : ℕ) → depth c < fuel
      → (b : Bool) × (is_base_of fuel base this c ≡ some b) × Decides c b
  is_base_of-Decides depth falls zero c h = absurd (omega (arith, h))
  is_base_of-Decides depth falls (suc fuel) c h = elim (Bool-cases (c == this)) [
    | inl e ↦ (true, self_step fuel c e, subst (Ancestor base this) (same this c e) itself)
    | inr e ↦ elim (Option-cases (base c)) [
      | inl n ↦ (
        false,
        base_walk fuel c e ∙ ap (base_step (λ i. is_base_of fuel base this i)) n,
        no_base c e n,
      )
      | inr (p, s) ↦
          let (b, r, d) = is_base_of-Decides depth falls fuel p (omega (arith, h, falls c p s)) in
          (
            b,
            base_walk fuel c e ∙ (ap (base_step (λ i. is_base_of fuel base this i)) s ∙ r),
            through_base c p e s b d,
          )
    ]
  ]
