-- ===== src/Scope.antt =====
-- object/scope.go: the variables of the evaluator. A scope with its outer ones is a list, the
-- innermost first; an assignment, which writes to the scope that holds the variable, gives the new
-- list.
pub mod Laws
use sydney.Base.{
  String, List, [], ◌∷◌, ◌++◌, Bool, true, false, ◌&&◌, Option, none, some, lookup, insert,
  if◌then◌else◌, Result, ok, err, ◌>>=◌,
}

module _ (V : Type 0) where
  pub record Variable : Type 0 where
    pub value : V
    pub constant : Bool

  abbrev pub Store : Type 0
  Store = List (String × Variable)

module _ {V : Type 0} where
  -- `NewScope` and `NewEnclosedScope`, in front of the chain.
  unfoldable pub new_enclosed_scope : List (Store V) → List (Store V)
  new_enclosed_scope os = [] ∷ os

  -- `Get`: the variable, if there is one, and whether the search went to an outer scope.
  unfoldable pub get : String → List (Store V) → Option (Variable V) × Bool
  get name [] = (none, false)
  get name (s ∷ os) = elim (lookup name s) [
    | some v ↦ (some v, false)
    | none ↦ elim os [ [] ↦ (none, false) | _ ∷ _ ↦ ((get name os).0, true) ]
  ]

  -- `Set`, on the innermost scope; it gives the value as well.
  unfoldable pub set_var : String → V → Bool → Store V → Store V
  set_var name val is_constant s = insert name (record { value = val; constant = is_constant }) s

  -- The guard of `DeclareVar` after the first: the variable is in this scope.
  unfoldable pub is_own : Option (Variable V) × Bool → Bool
  is_own (some v, from_outer) = if from_outer then false else true
  is_own (none, from_outer) = false

  -- `DeclareVar`; `is_null` is the test `val.Type() == NullObj`.
  unfoldable pub declare_var :
      (V → Bool) → String → V → Bool → Store V → List (Store V) → Result (List (Store V))
  unfolding is_own
  declare_var is_null name val is_const s os =
      if is_const && is_null val
      then err "const variable must be initialize"
      else if is_own (get name (s ∷ os))
      then err "cannot redeclare block scoped variable"
      else ok (set_var name val is_const s ∷ os)

  -- `Resolve`: the scope that holds the variable, between those inside and those outside of it.
  unfoldable pub resolve_scope :
      String → List (Store V) → Option (List (Store V) × Store V × List (Store V))
  unfolding is_own
  resolve_scope name [] = none
  resolve_scope name (s ∷ os) = elim (is_own (get name (s ∷ os))) [
    | true ↦ some ([], s, os)
    | false ↦ elim (resolve_scope name os) [
      | none ↦ none
      | some (inner, found, outer) ↦ some (s ∷ inner, found, outer)
    ]
  ]

  -- `existing.Constant`, of the zero `Variable` where there is none.
  unfoldable pub is_constant : Option (Variable V) → Bool
  is_constant none = false
  is_constant (some v) = v.constant

  -- `AssignVar`
  unfoldable pub assign_var : String → V → List (Store V) → Result (List (Store V))
  unfolding is_constant
  assign_var name val ss = elim (resolve_scope name ss) [
    | none ↦ err "cannot resolve variable"
    | some (inner, s, outer) ↦
        if is_constant (get name (s ∷ outer)).0
        then err "cannot assign value to constant"
        else ok (inner ++ set_var name val false s ∷ outer)
  ]
