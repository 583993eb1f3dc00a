-- ===== src/TypeEnv/Laws.antt =====
-- What the type checker's environments answer after a declaration (typechecker/type_env.go).
use text.Mathlib.TextEquality.{eq_iff}
use sydney.Base.{
  ◌≡◌, refl, String, List, [], ◌∷◌, true, false, none, some, lookup, insert, lookup-insert, str_eq,
  if◌then◌else◌, Bool-cases, ◌∙◌, ap, sym, ok, arith, inl, inr,
}
use sydney.Types.{Ty, signature}
use sydney.TypeEnv.{Env, conflicts, set_type, get_type, set_const, is_const}

str_eq_refl : (a : String) → str_eq a a ≡ true
str_eq_refl a = ground (arith, eq_iff a a)

-- A declaration that passes the guards writes the store.
set_type-eq :
    (name : String) (t : Ty) (e : Env) {e' : Env}
    → set_type name t e ≡ ok e'
    → e' ≡ record e { store = insert name t e.store }
unfolding set_type
set_type-eq name t e h = ground arith

lookup-set_type :
    (name other : String) (t : Ty) (e e' : Env)
    → set_type name t e ≡ ok e'
    → lookup other e'.store ≡ (if str_eq name other then some t else lookup other e.store)
lookup-set_type name other t e e' h =
    ap (λ x. lookup other x.store) (set_type-eq name t e h) ∙ lookup-insert name other t e.store

get_type-stores :
    (name : String) (e e' : Env) (os : List Env)
    → lookup name e.store ≡ lookup name e'.store
    → get_type name (e ∷ os) ≡ get_type name (e' ∷ os)
unfolding get_type
get_type-stores name e e' os h = rw (h, get_type)

get_type-head :
    (name : String) (e : Env) (os : List Env) {t : Ty}
    → lookup name e.store ≡ some t
    → get_type name (e ∷ os) ≡ (some t, false)
unfolding get_type
get_type-head name e os h = rw (h, get_type)

-- After a declaration that succeeds, the name has the type declared, in this environment, and every
-- other name has the type it had, from where it had it.
pub get_type-set_type :
    (name other : String) (t : Ty) (e e' : Env) (os : List Env)
    → set_type name t e ≡ ok e'
    → get_type other (e' ∷ os)
      ≡ (if str_eq name other then (some t, false) else get_type other (e ∷ os))
get_type-set_type name other t e e' os h = elim (Bool-cases (str_eq name other)) [
  | inl e_eq ↦
      get_type-head other e' os (
        lookup-set_type name other t e e' h
        ∙ ap (λ b. if b then some t else lookup other e.store) e_eq)
      ∙ sym (ap (λ b. if b then (some t, false) else get_type other (e ∷ os)) e_eq)
  | inr e_ne ↦
      get_type-stores other e' e os (
        lookup-set_type name other t e e' h
        ∙ ap (λ b. if b then some t else lookup other e.store) e_ne)
      ∙ sym (ap (λ b. if b then (some t, false) else get_type other (e ∷ os)) e_ne)
]

-- A declaration that succeeds leaves every name of the environment at a type with the signature that
-- its type had.
pub set_type-keeps_signatures :
    (name other : String) (t u : Ty) (e e' : Env)
    → set_type name t e ≡ ok e'
    → lookup other e.store ≡ some u
    → (u' : Ty) × (lookup other e'.store ≡ some u') × (signature u' ≡ signature u)
unfolding set_type conflicts
set_type-keeps_signatures name other t u e e' h found =
    let stored = lookup-set_type name other t e e' h in
    elim (Bool-cases (str_eq name other)) [
      | inl e_eq ↦
          (t, ground arith, ground (arith, eq_iff name other, eq_iff (signature u) (signature t)))
      | inr e_ne ↦ (u, ground arith, refl)
    ]

-- In a new environment, a declaration by `Set` gives the name its type there and changes no answer of
-- `IsConst`: each name counts as constant exactly when it does in the environments around. `SetConst`
-- after it, which a `const` declaration does, makes the name constant and no other, and keeps its type.
pub is_const-shadowed :
    (name other : String) (t : Ty) (e' : Env) (os : List Env)
    → set_type name t (record { store = []; constants = [] }) ≡ ok e'
    → (get_type name (e' ∷ os) ≡ (some t, false))
      × (is_const other (e' ∷ os) ≡ is_const other os)
      × (get_type name (set_const name e' ∷ os) ≡ (some t, false))
      × (is_const other (set_const name e' ∷ os)
          ≡ (if str_eq name other then true else is_const other os))
unfolding is_const set_const lookup insert
is_const-shadowed name other t e' os h =
    let written = set_type-eq name t (record { store = []; constants = [] }) h in
    let found =
      lookup-set_type name name t (record { store = []; constants = [] }) e' h
      ∙ ap (λ b. if b then some t else none) (str_eq_refl name) in
    (
      get_type-head name e' os found,
      ap (λ x. is_const other (x ∷ os)) written,
      get_type-head name (set_const name e') os found,
      ap (λ x. is_const other (set_const name x ∷ os)) written ∙ ground arith,
    )
