-- ===== src/Scope/Laws.antt =====
-- What the evaluator's declarations and assignments do to the variables (object/scope.go).
use text.Mathlib.TextEquality.{eq_iff}
use sydney.Base.{
  ◌≡◌, String, List, [], ◌∷◌, Bool, true, false, Option, none, some, lookup, lookup-insert, str_eq,
  if◌then◌else◌, ok, err, ◌>>=◌, arith, Option-cases, inl, inr, ap, sym, ◌∙◌,
}
use sydney.Scope.{
  Variable, Store, get, set_var, is_own, declare_var, resolve_scope, is_constant, assign_var,
}

module _ {V : Type 0} where
  get-own :
      (name : String) (s : Store V) (os : List (Store V)) {v : Variable V}
      → lookup name s ≡ some v
      → get name (s ∷ os) ≡ (some v, false)
  unfolding get
  get-own name s os h = rw (h, get)

  is_own-own :
      (name : String) (s : Store V) (os : List (Store V)) {v : Variable V}
      → lookup name s ≡ some v
      → is_own (get name (s ∷ os)) ≡ true
  unfolding is_own
  is_own-own name s os h = ap is_own (get-own name s os h)

  is_own-outer :
      (name : String) (s : Store V) (os : List (Store V))
      → lookup name s ≡ none
      → is_own (get name (s ∷ os)) ≡ false
  unfolding get is_own
  is_own-outer name s [] h = rw (h, get)
  is_own-outer name s (o ∷ os) h = ground (arith, h)

  -- The variable that a chain holds is the outer chain's where the innermost scope has none.
  get-outer :
      (name : String) (s : Store V) (os : List (Store V))
      → lookup name s ≡ none
      → (get name (s ∷ os)).0 ≡ (get name os).0
  unfolding get
  get-outer name s [] h = rw (h, get)
  get-outer name s (o ∷ os) h = ground (arith, h)

  resolve_scope-own :
      (name : String) (s : Store V) (os : List (Store V)) {v : Variable V}
      → lookup name s ≡ some v
      → resolve_scope name (s ∷ os) ≡ some ([], s, os)
  unfolding resolve_scope
  resolve_scope-own name s os h = rw (is_own-own name s os h, resolve_scope)

  assign_var-own :
      (name : String) (val : V) (s : Store V) (os : List (Store V)) {v : Variable V}
      → lookup name s ≡ some v
      → assign_var name val (s ∷ os) ≡ (
          if v.constant
          then err "cannot assign value to constant"
          else ok (set_var name val false s ∷ os))
  unfolding assign_var is_constant
  assign_var-own name val s os h =
      rw (resolve_scope-own name s os h, get-own name s os h, assign_var, is_constant)

  assign_var-outer :
      (name : String) (val : V) (s : Store V) (os : List (Store V))
      → lookup name s ≡ none
      → assign_var name val (s ∷ os) ≡ (assign_var name val os >>= λ ss. ok (s ∷ ss))
  unfolding assign_var resolve_scope
  assign_var-outer name val s os h = elim (Option-cases (resolve_scope name os)) [
    | inl e ↦ rw (is_own-outer name s os h, e, assign_var, resolve_scope)
    | inr ((inner, found, outer), e) ↦
        rw (is_own-outer name s os h, e, assign_var, resolve_scope) (ground arith)
  ]

  -- One step out: what holds of the outer chain's variable holds of the chain's.
  found_outside :
      (name : String) (s : Store V) (os : List (Store V)) {o : Option (Variable V)}
      → lookup name s ≡ none
      → (get name (s ∷ os)).0 ≡ o
      → (get name os).0 ≡ o
  found_outside name s os e h = sym (get-outer name s os e) ∙ h

  found_own :
      (name : String) (s : Store V) (os : List (Store V)) {v w : Variable V}
      → lookup name s ≡ some w
      → (get name (s ∷ os)).0 ≡ some v
      → w ≡ v
  found_own name s os e h = cc (get-own name s os e, h)

  -- An assignment to a variable that the search finds constant is refused.
  pub assign_var-constant :
      (name : String) (val : V) (ss : List (Store V)) (v : Variable V)
      → (get name ss).0 ≡ some v
      → v.constant ≡ true
      → assign_var name val ss ≡ err "cannot assign value to constant"
  unfolding get
  assign_var-constant name val [] v h c = cc
  assign_var-constant name val (s ∷ os) v h c = elim (Option-cases (lookup name s)) [
    | inl e ↦
        assign_var-outer name val s os e
        ∙ ap (λ r. r >>= λ ss. ok (s ∷ ss))
            (assign_var-constant name val os v (found_outside name s os e h) c)
    | inr (w, e) ↦
        assign_var-own name val s os e ∙ rw (ap (λ x. x.constant) (found_own name s os e h) ∙ c)
  ]

  -- The variable of a chain by its innermost scope and the rest.
  abbrev or_else : Option (Variable V) → Option (Variable V) → Option (Variable V)
  or_else none o = o
  or_else (some v) o = some v

  get-or_else :
      (name : String) (s : Store V) (os : List (Store V))
      → (get name (s ∷ os)).0 ≡ or_else (lookup name s) (get name os).0
  get-or_else name s os = elim (Option-cases (lookup name s)) [
    | inl e ↦ get-outer name s os e ∙ ap (λ o. or_else o (get name os).0) (sym e)
    | inr (v, e) ↦ ap (λ x. x.0) (get-own name s os e) ∙ ap (λ o. or_else o (get name os).0) (sym e)
  ]

  get-set_var :
      (name other : String) (val : V) (b : Bool) (s : Store V) (os : List (Store V))
      → get other (set_var name val b s ∷ os) ≡ (
          if str_eq name other
          then (some (record { value = val; constant = b }), false)
          else get other (s ∷ os))
  unfolding get set_var
  get-set_var name other val b s os =
      rw (lookup-insert name other (record { value = val; constant = b }) s, get) (ground arith)

  -- What an outer scope's variable becomes is seen where this scope has none of the name.
  write_outside :
      (name other : String) (val : V) (s : Store V) (os os' : List (Store V))
      → lookup name s ≡ none
      → (get other os').0 ≡ (
          if str_eq name other
          then some (record { value = val; constant = false })
          else (get other os).0)
      → (get other (s ∷ os')).0 ≡ (
          if str_eq name other
          then some (record { value = val; constant = false })
          else (get other (s ∷ os)).0)
  write_outside name other val s os os' e h =
      ground (arith, eq_iff name other, get-or_else other s os, get-or_else other s os')

  declare_var-eq :
      (is_null : V → Bool) (name : String) (val : V) (is_const : Bool) (s : Store V)
      (os : List (Store V)) {ss : List (Store V)}
      → declare_var is_null name val is_const s os ≡ ok ss
      → ss ≡ set_var name val is_const s ∷ os
  unfolding declare_var
  declare_var-eq is_null name val is_const s os h = ground arith

  -- An assignment to a variable that is not constant succeeds: the name then has the value, and every
  -- other name what it had.
  pub assign_var-written :
      (name : String) (val : V) (ss : List (Store V)) (v : Variable V)
      → (get name ss).0 ≡ some v
      → v.constant ≡ false
      → (ss' : List (Store V)) × (assign_var name val ss ≡ ok ss')
        × ((other : String)
            → (get other ss').0 ≡ (
                if str_eq name other
                then some (record { value = val; constant = false })
                else (get other ss).0))
  unfolding get
  assign_var-written name val [] v h c = cc
  assign_var-written name val (s ∷ os) v h c = elim (Option-cases (lookup name s)) [
    | inr (w, e) ↦ (
      set_var name val false s ∷ os,
      assign_var-own name val s os e ∙ rw (ap (λ x. x.constant) (found_own name s os e h) ∙ c),
      λ other. ap (λ x. x.0) (get-set_var name other val false s os) ∙ ground arith,
    )
    | inl e ↦
        let (os', done, after) = assign_var-written name val os v (found_outside name s os e h) c in
        (
          s ∷ os',
          assign_var-outer name val s os e ∙ ap (λ r. r >>= λ ss. ok (s ∷ ss)) done,
          λ other. write_outside name other val s os os' e (after other),
        )
  ]

  -- A declaration that succeeds gives the name its value in this scope, and leaves every other name
  -- what it had.
  pub get-declare_var :
      (is_null : V → Bool) (name other : String) (val : V) (is_const : Bool) (s : Store V)
      (os ss : List (Store V))
      → declare_var is_null name val is_const s os ≡ ok ss
      → get other ss ≡ (
          if str_eq name other
          then (some (record { value = val; constant = is_const }), false)
          else get other (s ∷ os))
  get-declare_var is_null name other val is_const s os ss h =
      ap (get other) (declare_var-eq is_null name val is_const s os h)
      ∙ get-set_var name other val is_const s os
