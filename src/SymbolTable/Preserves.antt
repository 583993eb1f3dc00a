-- ===== src/SymbolTable/Preserves.antt =====
-- compiler/symbol_table.go: the functions that make tables, define names and take in free symbols, on
-- well-formed chains of tables.
use sydney.Base.{
  ℕ, suc, ◌≡◌, refl, sym, ◌∙◌, String, List, [], ◌∷◌, ◌++◌, Bool, false, some, ◌⊎◌, lookup, insert,
  lookup-insert, get_elem?-append, arith, Bool-cases, inl, inr,
}
use mathlib.Core.Path.{subst}
use sydney.SymbolTable.{
  Symbol, Table, is_global_scope, raise_count, define, define_builtin, define_free, new_enclosed,
  new_block_scoped, define_function_name, define_alias,
}
use sydney.SymbolTable.Wellformed.{Fits, Wellformed, root_count-eq, raise-Wellformed, Points-grow}

lookup-insert-some {ℓ} :
    {V : Type ℓ} (k j : String) (v w : V) (m : List (String × V))
    → lookup j (insert k v m) ≡ some w
    → (w ≡ v) ⊎ (lookup j m ≡ some w)
lookup-insert-some k j v w m h = ground (arith, lookup-insert k j v m)

module _ {T : Type 0} where
  -- A new entry of a store, for a symbol that points at something.
  insert-Wellformed :
      (key : String) (s : Symbol T) (t : Table T) (os : List (Table T))
      → Wellformed (t ∷ os)
      → Fits t os s
      → Wellformed (record t { store = insert key s t.store } ∷ os)
  insert-Wellformed key s t [] (f, c, w) h = (
    λ name r e. elim (lookup-insert-some key name s r t.store e) [
      | inl p ↦ subst (Fits t []) (sym p) h
      | inr p ↦ f name r p
    ],
    c,
    w,
  )
  insert-Wellformed key s t (o ∷ os) (f, c, w) h = (
    λ name r e. elim (lookup-insert-some key name s r t.store e) [
      | inl p ↦ subst (Fits t (o ∷ os)) (sym p) h
      | inr p ↦ f name r p
    ],
    c,
    w,
  )

  raise_count-store :
      (m : List (String × Symbol T)) (t : Table T) (os : List (Table T))
      → raise_count (record t { store = m }) os ≡ raise_count t os
  unfolding raise_count
  raise_count-store m t [] = refl
  raise_count-store m t (o ∷ os) = refl

  is_global_scope-raise :
      (t : Table T) (n : ℕ) (os : List (Table T))
      → let t' = record t { num_definitions = n } in
        is_global_scope t' (raise_count t' os) ≡ is_global_scope t os
  unfolding is_global_scope raise_count
  is_global_scope-raise t n [] = refl
  is_global_scope-raise t n (o ∷ os) = ground (arith, is_global_scope-raise o n os)

  -- The symbol of a definition points at the slot that the new count leaves below it.
  define-Fits :
      (c : Bool) (name : String) (t : Table T) (os : List (Table T))
      → Wellformed (t ∷ os)
      → let t' = record t { num_definitions = suc t.num_definitions } in
        Fits t' (raise_count t' os) (define c name t os).0
  unfolding define
  define-Fits c name t os w =
      let t' = record t { num_definitions = suc t.num_definitions } in
      elim (Bool-cases (is_global_scope t os)) [
        | inl e ↦ simp e (
            omega (
              arith,
              root_count-eq t' (raise_count t' os)
                  (raise-Wellformed t (suc t.num_definitions) os w (omega arith))
                  (is_global_scope-raise t (suc t.num_definitions) os ∙ e),
            ))
        | inr e ↦ simp e (omega arith)
      ]

  -- `DefineMutable` and `DefineImmutable` keep a well-formed chain well-formed, the counts that they
  -- raise in the enclosing tables included.
  pub define-Wellformed :
      (c : Bool) (name : String) (t : Table T) (os : List (Table T))
      → Wellformed (t ∷ os)
      → Wellformed (define c name t os).1
  unfolding define
  define-Wellformed c name t os w =
      let t' = record t { num_definitions = suc t.num_definitions } in
      let s = (define c name t os).0 in
      let r = raise-Wellformed t (suc t.num_definitions) os w (omega arith) in
      rw (raise_count-store (insert name s t.store) t' os)
        (insert-Wellformed name s t' (raise_count t' os) r (define-Fits c name t os w))

  -- Entering a function or a block keeps the chain well-formed, whatever its outer tables hold.
  pub new_enclosed-Wellformed : (os : List (Table T)) → Wellformed os → Wellformed (new_enclosed os)
  unfolding new_enclosed lookup
  new_enclosed-Wellformed [] w = (λ name s e. cc, tt, tt)
  new_enclosed-Wellformed (o ∷ os) w = (λ name s e. cc, λ e. cc, w)

  pub new_block_scoped-Wellformed :
      (o : Table T) (os : List (Table T)) → Wellformed (o ∷ os) → Wellformed (new_block_scoped o os)
  unfolding new_block_scoped lookup
  new_block_scoped-Wellformed o os w = (λ name s e. cc, λ _. refl, w)

  define_function_name-Wellformed :
      (name : String) (t : Table T) (os : List (Table T))
      → Wellformed (t ∷ os)
      → Wellformed ((define_function_name name t).1 ∷ os)
  unfolding define_function_name
  define_function_name-Wellformed name t os w = insert-Wellformed name _ t os w tt

  define_builtin-Wellformed :
      (index : ℕ) (name : String) (t : Table T) (os : List (Table T))
      → Wellformed (t ∷ os)
      → Wellformed ((define_builtin index name t).1 ∷ os)
  unfolding define_builtin
  define_builtin-Wellformed index name t os w = insert-Wellformed name _ t os w tt

  define_alias-Wellformed :
      (name : String) (s : Symbol T) (t : Table T) (os : List (Table T))
      → Wellformed (t ∷ os)
      → Fits t os s
      → Wellformed (define_alias name s t ∷ os)
  unfolding define_alias
  define_alias-Wellformed name s t os w f = insert-Wellformed name s t os w f

  -- The new free variable stands at the end of the table's free symbols.
  pub define_free-Fits :
      (o : Symbol T) (t : Table T) (os : List (Table T))
      → t.is_block_scoped ≡ false
      → Fits (define_free o t).1 os (define_free o t).0
  unfolding define_free
  define_free-Fits o t [] b = (o, get_elem?-append t.free_symbols (o ∷ []), refl)
  define_free-Fits o t (p ∷ os) b = (o, simp b (get_elem?-append t.free_symbols (o ∷ [])), refl)

  free-Wellformed :
      (o : Symbol T) (t : Table T) (os : List (Table T))
      → t.is_block_scoped ≡ false
      → Wellformed (t ∷ os)
      → Wellformed (record t { free_symbols = t.free_symbols ++ o ∷ [] } ∷ os)
  free-Wellformed o t [] b (f, c, w) = (
    λ name s e.
        Points-grow s.scope _ _ _ _ t.free_symbols (o ∷ []) s.index s.name (omega arith)
          (omega arith) (f name s e),
    tt,
    tt,
  )
  free-Wellformed o t (p ∷ os) b (f, c, w) = (
    λ name s e. simp b (
        Points-grow s.scope _ _ _ _ t.free_symbols (o ∷ []) s.index s.name (omega arith)
          (omega arith) (simp b at (f name s e))),
    c,
    w,
  )

  pub define_free-Wellformed :
      (o : Symbol T) (t : Table T) (os : List (Table T))
      → t.is_block_scoped ≡ false
      → Wellformed (t ∷ os)
      → Wellformed ((define_free o t).1 ∷ os)
  unfolding define_free
  define_free-Wellformed o t [] b w =
      insert-Wellformed o.name (define_free o t).0
        (record t { free_symbols = t.free_symbols ++ o ∷ [] }) [] (free-Wellformed o t [] b w)
        (define_free-Fits o t [] b)
  define_free-Wellformed o t (p ∷ os) b w =
      insert-Wellformed o.name (define_free o t).0
        (record t { free_symbols = t.free_symbols ++ o ∷ [] }) (p ∷ os)
        (free-Wellformed o t (p ∷ os) b w) (define_free-Fits o t (p ∷ os) b)
