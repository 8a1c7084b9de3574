-- ===== src/Classes/Methods/Slots.antt =====
-- What a slot of overloadings of slake/rt/new.cc finds after it inherits.
use slake.Prelude.{
  ℕ, ◌≡◌, refl, sym, ap, ◌∙◌, ◌⊎◌, Bool, true, false, Option, none, some, [], ◌∷◌, ◌++◌, inl, inr,
  Bool-cases, if◌then◌else◌,
}
use slake.Signatures.{Scopes, FnSignature}
use slake.Classes.Methods.{
  Overloadings, is_signature, find_signature, add_missing, inherit_overloadings,
}

abbrev pub or_else : Option ℕ → Option ℕ → Option ℕ
or_else none rest = rest
or_else (some o) rest = some o

or_else_assoc : (a b c : Option ℕ) → or_else (or_else a b) c ≡ or_else a (or_else b c)
or_else_assoc none b c = refl
or_else_assoc (some o) b c = refl

or_else-none : (a : Option ℕ) → or_else a none ≡ a
or_else-none none = refl
or_else-none (some o) = refl

or_else_if :
    (b : Bool) (o : ℕ) (rest : Option ℕ)
    → or_else (if b then some o else none) rest ≡ (if b then some o else rest)
or_else_if true o rest = refl
or_else_if false o rest = refl

found-cases : (a : Option ℕ) → ((o : ℕ) × (a ≡ some o)) ⊎ (a ≡ none)
found-cases none = inr refl
found-cases (some o) = inl (o, refl)

module _ (fuel : ℕ) (s : Scopes) (g : FnSignature) where
  -- What compares equal to a signature that compares equal to `g` compares equal to `g`.
  abbrev pub IsTransitive : Type 0
  IsTransitive =
      (a k : FnSignature)
      → is_signature fuel s a k ≡ true
      → is_signature fuel s k g ≡ true
      → is_signature fuel s a g ≡ true

  find_signature-same :
      (k : FnSignature) (o : ℕ) (slot : Overloadings) (rest : Option ℕ)
      → IsTransitive
      → find_signature fuel s k slot ≡ some o
      → is_signature fuel s k g ≡ true
      → or_else (find_signature fuel s g slot) rest ≡ find_signature fuel s g slot
  unfolding find_signature
  find_signature-same k o [] rest t f e = cc f
  find_signature-same k o ((a, p) ∷ slot) rest t f e = elim (Bool-cases (is_signature fuel s a g)) [
    | inl h ↦ simp h
    | inr h ↦ elim (Bool-cases (is_signature fuel s a k)) [
      | inl q ↦ cc (h, t a k q e)
      | inr q ↦ simp h (find_signature-same k o slot rest t (simp q at f) e)
    ]
  ]

  find_signature-append :
      (slot : Overloadings) (k : FnSignature) (o : ℕ)
      → find_signature fuel s g (slot ++ ((k, o) ∷ []))
        ≡ or_else (find_signature fuel s g slot) (if is_signature fuel s k g then some o else none)
  unfolding find_signature
  find_signature-append [] k o = refl
  find_signature-append ((a, p) ∷ slot) k o = elim (Bool-cases (is_signature fuel s a g)) [
    | inl h ↦ simp h
    | inr h ↦ simp h (find_signature-append slot k o)
  ]

  -- A slot finds what it found before, or else what the parent finds.
  pub find_signature-inherit :
      (parent slot : Overloadings)
      → IsTransitive
      → find_signature fuel s g (inherit_overloadings fuel s parent slot)
        ≡ or_else (find_signature fuel s g slot) (find_signature fuel s g parent)
  unfolding inherit_overloadings find_signature
  find_signature-inherit [] slot t = sym (or_else-none (find_signature fuel s g slot))
  find_signature-inherit ((k, o) ∷ rest) slot t =
      let find = find_signature fuel s in
      elim (found-cases (find k slot)) [
        | inl (p, h) ↦
            ap (λ q. find g (inherit_overloadings fuel s rest (add_missing (k, o) q slot))) h
            ∙ (find_signature-inherit rest slot t ∙ elim (Bool-cases (is_signature fuel s k g)) [
              | inl e ↦
                  find_signature-same k p slot (find g rest) t h e
                  ∙ (sym (find_signature-same k p slot (some o) t h e)
                      ∙ ap (λ b. or_else (find g slot) (if b then some o else find g rest)) (sym e))
              | inr e ↦ ap (λ b. or_else (find g slot) (if b then some o else find g rest)) (sym e)
            ])
        | inr h ↦
            ap (λ q. find g (inherit_overloadings fuel s rest (add_missing (k, o) q slot))) h
            ∙ (find_signature-inherit rest (slot ++ ((k, o) ∷ [])) t
                ∙ (ap (λ q. or_else q (find g rest)) (find_signature-append slot k o)
                    ∙ (or_else_assoc (find g slot) _ (find g rest)
                        ∙ ap (or_else (find g slot))
                            (or_else_if (is_signature fuel s k g) o (find g rest)))))
      ]
