-- ===== src/SymbolTable/Fresh.antt =====
-- compiler/symbol_table.go: the slot of a definition, and what names resolve to behind it.
use text.Mathlib.TextPositions.{eq_refl}
use sydney.Base.{
  ℕ, ◌<◌, ◌≡◌, refl, ◌∙◌, ap, String, List, [], ◌∷◌, Bool, true, false, Option, none, some, ◌||◌,
  length, if◌then◌else◌, str_eq, lookup, lookup-insert, arith, Bool-cases, Option-cases, inl, inr,
}
use sydney.SymbolTable.{
  SymbolScope, global, local, free, Symbol, Table, Resolved, is_shared, is_global_scope,
  raise_count, define, define_free, import_symbol, resolve,
}
use sydney.SymbolTable.Wellformed.{Points, root_count, frees, Wellformed, root_count-eq}
use sydney.SymbolTable.Resolve.{import-kept, import-freed}

module _ {T : Type 0} where
  -- In the tables of the function of the innermost table, the symbols of a scope have indices below
  -- a bound.
  abbrev pub OwnBelow : SymbolScope → ℕ → Table T → List (Table T) → Type 0
  OwnBelow scope n t [] =
      (name : String) (s : Symbol T) → lookup name t.store ≡ some s → s.scope ≡ scope → s.index < n
  OwnBelow scope n t (o ∷ os) =
      ((name : String) (s : Symbol T)
        → lookup name t.store ≡ some s
        → s.scope ≡ scope
        → s.index < n)
      × (t.is_block_scoped ≡ true → OwnBelow scope n o os)

  Points-local :
      (scope : SymbolScope) (root count : ℕ) (fs : List (Symbol T)) (i : ℕ) (name : String)
      → scope ≡ local
      → Points scope root count fs i name
      → i < count
  Points-local local r c fs i name e p = p
  Points-local _ r c fs i name e p = cc

  Points-global :
      (scope : SymbolScope) (root count : ℕ) (fs : List (Symbol T)) (i : ℕ) (name : String)
      → scope ≡ global
      → Points scope root count fs i name
      → i < root
  Points-global global r c fs i name e p = p
  Points-global _ r c fs i name e p = cc

  local-OwnBelow :
      (n : ℕ) (t : Table T) (os : List (Table T))
      → Wellformed (t ∷ os)
      → t.num_definitions ≡ n
      → OwnBelow local n t os
  local-OwnBelow n t [] (f, _, _) e = λ name s l q.
      omega (arith, Points-local s.scope _ _ t.free_symbols s.index s.name q (f name s l))
  local-OwnBelow n t (o ∷ os) (f, c, w) e = (
    λ name s l q.
        omega (arith, Points-local s.scope _ _ (frees t (o ∷ os)) s.index s.name q (f name s l)),
    λ b. local-OwnBelow n o os w (c b ∙ e),
  )

  global-OwnBelow :
      (n : ℕ) (t : Table T) (os : List (Table T))
      → Wellformed (t ∷ os)
      → root_count t os ≡ n
      → OwnBelow global n t os
  global-OwnBelow n t [] (f, _, _) e = λ name s l q.
      omega (arith, Points-global s.scope _ _ t.free_symbols s.index s.name q (f name s l))
  global-OwnBelow n t (o ∷ os) (f, c, w) e = (
    λ name s l q.
        omega (arith, Points-global s.scope _ _ (frees t (o ∷ os)) s.index s.name q (f name s l)),
    λ b. global-OwnBelow n o os w e,
  )

  -- In a well-formed chain, a definition takes an index above those of all symbols of its scope in
  -- the tables of the same function, so it shares its slot with no variable of the function.
  pub define-OwnBelow :
      (c : Bool) (name : String) (t : Table T) (os : List (Table T))
      → Wellformed (t ∷ os)
      → let s = (define c name t os).0 in OwnBelow s.scope s.index t os
  unfolding define
  define-OwnBelow c name t os w = elim (Bool-cases (is_global_scope t os)) [
    | inl g ↦ rw g (global-OwnBelow t.num_definitions t os w (root_count-eq t os w g))
    | inr g ↦ rw g (local-OwnBelow t.num_definitions t os w refl)
  ]

  -- What `Resolve` makes of the outer answer does not depend on counts or stores.
  answer : Symbol T → List (Symbol T) → Bool → Option (Symbol T × Bool)
  answer s fs block =
      if is_shared s.scope || block
      then some (s, true)
      else some (record s { scope = free; index = length fs; typ = none }, true)

  import-answer :
      (t : Table T) (s : Symbol T) (b : Bool) (os : List (Table T))
      → (import_symbol t (some (s, b), os)).0 ≡ answer s t.free_symbols t.is_block_scoped
  unfolding import_symbol define_free answer
  import-answer t s b os = elim (Bool-cases (is_shared s.scope || t.is_block_scoped)) [
    | inl e ↦ rw e
    | inr e ↦ rw e
  ]

  import-none : (t : Table T) (os : List (Table T)) → import_symbol t (none, os) ≡ (none, t ∷ os)
  unfolding import_symbol
  import-none t os = refl

  resolve-found :
      (name : String) (t : Table T) (os : List (Table T)) (s : Symbol T)
      → lookup name t.store ≡ some s
      → resolve name (t ∷ os) ≡ (some (s, false), t ∷ os)
  unfolding resolve
  resolve-found name t os s e = rw (e, resolve)

  resolve-missed :
      (name : String) (t : Table T) (os : List (Table T))
      → lookup name t.store ≡ none
      → resolve name (t ∷ os) ≡ import_symbol t (resolve name os)
  unfolding resolve
  resolve-missed name t os e = rw (e, resolve)

  lookup-define_free :
      (name : String) (s : Symbol T) (t : Table T)
      → s.name ≡ name
      → lookup name (define_free s t).1.store ≡ some (define_free s t).0
  unfolding define_free
  lookup-define_free name s t e = rw (lookup-insert, e, eq_refl)

  import-result :
      (t u : Table T) (r q : Resolved T)
      → u.free_symbols ≡ t.free_symbols
      → u.is_block_scoped ≡ t.is_block_scoped
      → r.0 ≡ q.0
      → (import_symbol u r).0 ≡ (import_symbol t q).0
  import-result t u (none, os) (none, ps) e b h = unfold import_symbol in refl
  import-result t u (none, os) (some (s, x), ps) e b h = cc
  import-result t u (some (s, x), os) (none, ps) e b h = cc
  import-result t u (some (s, x), os) (some (s', x'), ps) e b h =
      cc (import-answer u s x os, import-answer t s' x' ps)

  resolve-step :
      (name : String) (t u : Table T) (os ps : List (Table T))
      → u.free_symbols ≡ t.free_symbols
      → u.is_block_scoped ≡ t.is_block_scoped
      → lookup name u.store ≡ lookup name t.store
      → (resolve name os).0 ≡ (resolve name ps).0
      → (resolve name (u ∷ os)).0 ≡ (resolve name (t ∷ ps)).0
  unfolding resolve
  resolve-step name t u os ps e b l h = elim (Option-cases (lookup name t.store)) [
    | inl n ↦
        rw (l, resolve)
          (rw (n, resolve) (import-result t u (resolve name os) (resolve name ps) e b h))
    | inr (s, n) ↦ rw (l, resolve) (rw (n, resolve) refl)
  ]

  resolve-raise :
      (name : String) (t : Table T) (os : List (Table T))
      → (resolve name (raise_count t os)).0 ≡ (resolve name os).0
  unfolding raise_count
  resolve-raise name t [] = refl
  resolve-raise name t (o ∷ os) =
      let o' = record o { num_definitions = t.num_definitions } in
      elim (Bool-cases t.is_block_scoped) [
        | inl e ↦ simp e (
            resolve-step name o o' (raise_count o' os) os refl refl refl (resolve-raise name o' os))
        | inr e ↦ simp e
      ]

  -- A definition changes what its own name resolves to, to the new symbol, and no other name's.
  pub resolve-define_cases :
      (c : Bool) (name other : String) (t : Table T) (os : List (Table T))
      → (resolve other (define c name t os).1).0 ≡ (
          if str_eq name other
          then some ((define c name t os).0, false)
          else (resolve other (t ∷ os)).0)
  resolve-define_cases c name other t os = elim (Bool-cases (str_eq name other)) [
    | inl e ↦ rw e (
        unfold define in
        ap (λ (r : Resolved T). r.0)
          (resolve-found other _ _ (define c name t os).0 (rw lookup-insert (rw e))))
    | inr e ↦ rw e (
        unfold define in
        resolve-step other t _ _ os refl refl (rw lookup-insert (rw e)) (resolve-raise other _ os))
  ]

  -- What a second resolution gives: an unresolved name changes nothing, and a symbol that is stored
  -- under its own name is found again.
  abbrev pub Again : String → Resolved T → Type 0
  Again name (none, c) = resolve name c ≡ (none, c)
  Again name (some (s, _), c) = s.name ≡ name → (b : Bool) × (resolve name c ≡ (some (s, b), c))

  import-Again :
      (name : String) (t : Table T) (r : Resolved T)
      → lookup name t.store ≡ none
      → Again name r
      → Again name (import_symbol t r)
  unfolding resolve define_free
  import-Again name t (none, os) l a =
      rw import-none (rw (resolve-missed name t os l, a) (import-none t os))
  import-Again name t (some (s, c), os) l a =
      elim (Bool-cases (is_shared s.scope || t.is_block_scoped)) [
        | inl e ↦ rw (import-kept t s c os e) (λ n.
            let (b, p) = a n in (true, rw (resolve-missed name t os l, p) (import-kept t s b os e)))
        | inr e ↦
            rw (import-freed t s c os e)
              (λ n. (false, resolve-found name _ os _ (lookup-define_free name s t n)))
      ]

  -- Resolving a name a second time gives the same symbol and leaves the chain as it is, so a variable
  -- is captured once; this holds of every symbol that goes by its own name (an alias does not).
  pub resolve-Again : (name : String) (c : List (Table T)) → Again name (resolve name c)
  unfolding resolve
  resolve-Again name [] = refl
  resolve-Again name (t ∷ os) = elim (Option-cases (lookup name t.store)) [
    | inl e ↦ rw (e, resolve) (import-Again name t (resolve name os) e (resolve-Again name os))
    | inr (s, e) ↦ rw (e, resolve) (λ n. (false, rw (e, resolve)))
  ]
