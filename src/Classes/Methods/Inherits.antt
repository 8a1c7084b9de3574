-- ===== src/Classes/Methods/Inherits.antt =====
-- What method tables of slake/rt/new.cc find for a name and a signature.
use slake.Prelude.{
  ℕ, ◌≡◌, refl, sym, ap, ◌∙◌, ◌≢◌, ◌⊎◌, true, false, Option, none, some, List, [], ◌∷◌, ◌==◌, inl,
  inr, Bool-cases, if◌then◌else◌, arith,
}
use slake.Signatures.{Scopes, FnSignature}
use slake.Classes.Methods.{
  Overloadings, FnObject, ClassMember, MethodTable, fn, other_member, find_method, get_method,
  parent_method, method_overloadings, find_signature, inherit_overloadings, insert_method,
  push_destructor, add_member, add_members, init_method_table_for_class, parent_destructors,
  ClassObject, cached_or, prepare_method_tables,
}
use slake.Classes.Methods.Slots.{or_else, IsTransitive, find_signature-inherit}

-- The function that is the member `name` of a class
abbrev pub member_fn : ℕ → List (ℕ × ClassMember) → Option FnObject
member_fn name [] = none
member_fn name ((key, fn f) ∷ rest) = if key == name then some f else member_fn name rest
member_fn name ((key, other_member) ∷ rest) = member_fn name rest

-- The functions among the members have their keys as names, and no key has two functions.
abbrev pub IsNamed : List (ℕ × ClassMember) → Type 0
IsNamed [] = Unit
IsNamed ((key, fn f) ∷ rest) = (f.name ≡ key) × (member_fn key rest ≡ none) × IsNamed rest
IsNamed ((key, other_member) ∷ rest) = IsNamed rest

-- What a method table finds for a name and a signature
unfoldable pub find_overloading_of : ℕ → Scopes → Option FnObject → FnSignature → Option ℕ
unfolding find_signature
find_overloading_of fuel s f g = find_signature fuel s g (method_overloadings f)

-- A class by what it finds: the overloading of the class, or else that of its parent, for the
-- functions that are members of the class, and nothing for other names
unfoldable pub class_lookup :
    ℕ → Scopes → List (ℕ × ClassMember) → (ℕ → FnSignature → Option ℕ) → ℕ → FnSignature → Option ℕ
unfolding find_signature
class_lookup fuel s members parent name g = elim (member_fn name members) [
  | none ↦ none
  | some f ↦ or_else (find_signature fuel s g f.overloadings) (parent name g)
]

module _ (fuel : ℕ) (s : Scopes) (delete : ℕ) (signature_at : ℕ → FnSignature)
    (g : FnSignature) where
  abbrev table_lookup : MethodTable → ℕ → Option ℕ
  table_lookup table name = find_overloading_of fuel s (get_method table name) g

  -- A slot without overloadings finds nothing, so that it makes no difference whether it is kept.
  insert_method-here :
      (name : ℕ) (slot : Overloadings) (table : MethodTable)
      → find_method name table.methods ≡ none
      → find_signature fuel s g
          (method_overloadings (find_method name (insert_method name slot table).methods))
        ≡ find_signature fuel s g slot
  unfolding find_signature
  insert_method-here name [] table h = simp h
  insert_method-here name (x ∷ slot) table h = ground arith

  insert_method-other :
      (name key : ℕ) (slot : Overloadings) (table : MethodTable)
      → key ≢ name
      → find_method name (insert_method key slot table).methods ≡ find_method name table.methods
  insert_method-other name key [] table h = refl
  insert_method-other name key (x ∷ slot) table h = ground (arith, h)

  push_destructor-methods :
      (o : Option ℕ) (table : MethodTable) → (push_destructor o table).methods ≡ table.methods
  push_destructor-methods none table = refl
  push_destructor-methods (some o) table = refl

  module _ (parent : Option MethodTable) (name : ℕ) where
    step : ℕ → ClassMember → MethodTable → MethodTable
    step = add_member fuel s delete signature_at parent

    all_steps : List (ℕ × ClassMember) → MethodTable → MethodTable
    all_steps = add_members fuel s delete signature_at parent

    add_member-other :
        (key : ℕ) (f : FnObject) (table : MethodTable)
        → key ≢ name
        → f.name ≡ key
        → find_method name (step key (fn f) table).methods ≡ find_method name table.methods
    unfolding step add_member
    add_member-other key f table h e = elim (Bool-cases (key == delete)) [
      | inl d ↦ simp d (ap (find_method name) (push_destructor-methods _ table))
      | inr d ↦ simp d (insert_method-other name f.name _ table (λ q. h (sym e ∙ q)))
    ]

    not_equal : (key : ℕ) → (key == name) ≡ false → key ≢ name
    not_equal key h = ground (arith, h)

    equal : (a b : ℕ) → (a == b) ≡ true → a ≡ b
    equal a b h = ground (arith, h)

    from_parent : FnObject → Option ℕ
    from_parent f =
        or_else (find_signature fuel s g f.overloadings)
          (find_overloading_of fuel s (parent_method parent name) g)

    add_member-here :
        (key : ℕ) (f : FnObject) (table : MethodTable)
        → key ≡ name
        → f.name ≡ name
        → IsTransitive fuel s g
        → name ≢ delete
        → find_method name table.methods ≡ none
        → table_lookup (step key (fn f) table) name ≡ from_parent f
    unfolding step add_member find_overloading_of get_method from_parent
    add_member-here key f table k e t d h =
        let inherited = λ (n : ℕ).
          inherit_overloadings fuel s (method_overloadings (parent_method parent n))
            f.overloadings in
        elim (Bool-cases (key == delete)) [
          | inl q ↦ absurd (d (sym k ∙ equal key delete q))
          | inr q ↦ simp q (
              ap
                (λ n. find_signature fuel s g (
                  method_overloadings
                    (find_method name (insert_method n (inherited n) table).methods)))
                e
              ∙ (insert_method-here name (inherited name) table h
                  ∙ find_signature-inherit fuel s g _ f.overloadings t))
        ]

    -- The members that are no function `name` leave what the table finds for it.
    add_members-other :
        (members : List (ℕ × ClassMember)) (table : MethodTable)
        → IsNamed members
        → member_fn name members ≡ none
        → find_method name (all_steps members table).methods ≡ find_method name table.methods
    unfolding all_steps add_members step add_member
    add_members-other [] table n h = refl
    add_members-other ((key, other_member) ∷ rest) table n h = add_members-other rest table n h
    add_members-other ((key, fn f) ∷ rest) table (e, u, n) h = elim (Bool-cases (key == name)) [
      | inl q ↦ cc (simp q at h)
      | inr q ↦
          add_members-other rest _ n (simp q at h)
          ∙ add_member-other key f table (not_equal key q) e
    ]

    add_members-found :
        (members : List (ℕ × ClassMember)) (table : MethodTable) (f : FnObject)
        → IsNamed members
        → IsTransitive fuel s g
        → name ≢ delete
        → member_fn name members ≡ some f
        → find_method name table.methods ≡ none
        → table_lookup (all_steps members table) name ≡ from_parent f
    unfolding from_parent all_steps add_members step add_member find_overloading_of get_method
    add_members-found [] table f n t d h e = cc h
    add_members-found ((key, other_member) ∷ rest) table f n t d h e =
        add_members-found rest table f n t d h e
    add_members-found ((key, fn k) ∷ rest) table f (q, u, n) t d h e =
        elim (Bool-cases (key == name)) [
          | inl b ↦
              let here = equal key name b in
              let same : k ≡ f = cc (simp b at h) in
              ap (λ o. find_signature fuel s g (method_overloadings o))
                (add_members-other rest _ n (ap (λ x. member_fn x rest) (sym here) ∙ u))
              ∙ (add_member-here key k table here (q ∙ here) t d e ∙ ap from_parent same)
          | inr b ↦
              add_members-found rest _ f n t d (simp b at h)
                (add_member-other key k table (not_equal key b) q ∙ e)
        ]

  -- A table and what it has to find for the names but "delete"
  abbrev Implements : Option MethodTable → (ℕ → FnSignature → Option ℕ) → Type 0
  Implements table lookup =
      (name : ℕ)
      → name ≢ delete
      → find_overloading_of fuel s (parent_method table name) g ≡ lookup name g

  init_method_table_for_class-Implements :
      (members : List (ℕ × ClassMember)) (parent : Option MethodTable)
      (lookup : ℕ → FnSignature → Option ℕ)
      → IsNamed members
      → IsTransitive fuel s g
      → Implements parent lookup
      → Implements
          (some (init_method_table_for_class fuel s delete signature_at members parent))
          (class_lookup fuel s members lookup)
  unfolding init_method_table_for_class class_lookup find_overloading_of get_method all_steps
      from_parent
  init_method_table_for_class-Implements members parent lookup n t p name d =
      by_member (member_fn name members) refl
    where
      start : MethodTable
      start = record { methods = []; destructors = parent_destructors parent }

      by_member :
          (o : Option FnObject)
          → member_fn name members ≡ o
          → table_lookup (add_members fuel s delete signature_at parent members start) name
            ≡ elim o [
              | none ↦ none
              | some f ↦ or_else (find_signature fuel s g f.overloadings) (lookup name g)
            ]
      by_member none e =
          ap (λ o. find_signature fuel s g (method_overloadings o))
            (add_members-other parent name members start n e)
      by_member (some f) e =
          add_members-found parent name members start f n t d e refl
          ∙ ap (or_else (find_signature fuel s g f.overloadings)) (p name d)

  -- The classes have no method table yet, or the one that init_method_table_for_class makes, and
  -- their functions have their keys as names, each key at most one function.
  abbrev pub HasTables : List ClassObject → Type 0
  HasTables [] = Unit
  HasTables (c ∷ bases) =
      let table =
        init_method_table_for_class fuel s delete signature_at c.members
          (prepare_method_tables fuel s delete signature_at bases) in
      ((c.cached_method_table ≡ none) ⊎ (c.cached_method_table ≡ some table))
      × IsNamed c.members
      × HasTables bases

  -- A class and its bases by what they find
  abbrev pub chain_lookup : List ClassObject → ℕ → FnSignature → Option ℕ
  chain_lookup [] name g = none
  chain_lookup (c ∷ bases) name g = class_lookup fuel s c.members (chain_lookup bases) name g

  -- The method table of a class, where it and its bases have no table yet or the one that was made
  -- for them, finds for each name but "delete" the overloading that the class declares, or else that
  -- of the nearest base, where the class and all the bases up to that one have a function of the
  -- name, and nothing for a name that is no function of the class. Assumed are that the functions of
  -- the classes have their keys as names, each key at most one, and that what compares equal to a
  -- signature equal to the one that is looked for is equal to it too.
  pub prepare_method_tables-Implements :
      (classes : List ClassObject) (name : ℕ)
      → HasTables classes
      → IsTransitive fuel s g
      → name ≢ delete
      → find_overloading_of fuel s
          (parent_method (prepare_method_tables fuel s delete signature_at classes) name)
          g
        ≡ chain_lookup classes name g
  unfolding prepare_method_tables find_overloading_of find_signature
  prepare_method_tables-Implements [] name h t d = refl
  prepare_method_tables-Implements (c ∷ bases) name (cached, n, h) t d =
      let parent = prepare_method_tables fuel s delete signature_at bases in
      let table = init_method_table_for_class fuel s delete signature_at c.members parent in
      let made : cached_or c.cached_method_table table ≡ table = elim cached [
        | inl e ↦ ap (λ o. cached_or o table) e
        | inr e ↦ ap (λ o. cached_or o table) e
      ] in
      ap (λ z. find_overloading_of fuel s (get_method z name) g) made
      ∙ init_method_table_for_class-Implements c.members parent (chain_lookup bases) n t
          (λ x e. prepare_method_tables-Implements bases x h t e) name d
