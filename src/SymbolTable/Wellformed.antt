-- ===== src/SymbolTable/Wellformed.antt =====
-- compiler/symbol_table.go: well-formed chains of tables.
use sydney.Base.{
  ℕ, zero, suc, ◌<◌, ◌≤◌, ◌≡◌, refl, String, List, [], ◌∷◌, ◌++◌, true, some, if◌then◌else◌, lookup,
  get_elem?, arith, Bool-cases, inl, inr,
}
use sydney.SymbolTable.{
  SymbolScope, global, local, free, Symbol, Table, is_global_scope, raise_count,
}

get_elem?-append_some {ℓ} :
    {A : Type ℓ} (xs ys : List A) (i : ℕ) {a : A}
    → get_elem? xs i ≡ some a
    → get_elem? (xs ++ ys) i ≡ some a
get_elem?-append_some [] ys i h = cc
get_elem?-append_some (x ∷ xs) ys zero h = h
get_elem?-append_some (x ∷ xs) ys (suc i) h = get_elem?-append_some xs ys i h

module _ {T : Type 0} where
  -- What a symbol points at: a global slot below the root's count, a local slot below the table's
  -- count, or an entry of the free symbols for a symbol of the same name.
  abbrev pub Points : SymbolScope → ℕ → ℕ → List (Symbol T) → ℕ → String → Type 0
  Points global root count frees i name = i < root
  Points local root count frees i name = i < count
  Points free root count frees i name =
      (o : Symbol T) × (get_elem? frees i ≡ some o) × (o.name ≡ name)
  Points _ root count frees i name = Unit

  -- The count of the root table, which numbers the globals.
  abbrev pub root_count : Table T → List (Table T) → ℕ
  root_count t [] = t.num_definitions
  root_count t (o ∷ os) = root_count o os

  -- The free symbols of the function that a table belongs to.
  abbrev pub frees : Table T → List (Table T) → List (Symbol T)
  frees t [] = t.free_symbols
  frees t (o ∷ os) = if t.is_block_scoped then frees o os else t.free_symbols

  abbrev pub Fits : Table T → List (Table T) → Symbol T → Type 0
  Fits t os s = Points s.scope (root_count t os) t.num_definitions (frees t os) s.index s.name

  -- A block has the count of the table around it.
  abbrev pub Counts : Table T → List (Table T) → Type 0
  Counts t [] = Unit
  Counts t (o ∷ os) = t.is_block_scoped ≡ true → o.num_definitions ≡ t.num_definitions

  abbrev pub Wellformed : List (Table T) → Type 0
  Wellformed [] = Unit
  Wellformed (t ∷ os) =
      ((name : String) (s : Symbol T) → lookup name t.store ≡ some s → Fits t os s)
      × Counts t os
      × Wellformed os

  -- A symbol keeps pointing at its slot when counts and free symbols grow.
  pub Points-grow :
      (scope : SymbolScope) (root root' count count' : ℕ) (fs gs : List (Symbol T)) (i : ℕ)
      (name : String)
      → root ≤ root'
      → count ≤ count'
      → Points scope root count fs i name
      → Points scope root' count' (fs ++ gs) i name
  Points-grow global r r' c c' fs gs i name hr hc p = omega arith
  Points-grow local r r' c c' fs gs i name hr hc p = omega arith
  Points-grow free r r' c c' fs gs i name hr hc (o, e, n) = (o, get_elem?-append_some fs gs i e, n)
  Points-grow _ r r' c c' fs gs i name hr hc p = tt

  -- A chain that is global throughout counts as its root does.
  pub root_count-eq :
      (t : Table T) (os : List (Table T))
      → Wellformed (t ∷ os)
      → is_global_scope t os ≡ true
      → root_count t os ≡ t.num_definitions
  unfolding is_global_scope
  root_count-eq t [] w g = refl
  root_count-eq t (o ∷ os) (_, c, w) g = ground (arith, root_count-eq o os w)

  -- A count that is handed outwards does not fall.
  abbrev Rises : Table T → List (Table T) → Type 0
  Rises t [] = Unit
  Rises t (o ∷ os) = t.is_block_scoped ≡ true → o.num_definitions ≤ t.num_definitions

  frees-raise :
      (t : Table T) (n : ℕ) (os : List (Table T))
      → let t' = record t { num_definitions = n } in frees t' (raise_count t' os) ≡ frees t os
  unfolding raise_count
  frees-raise t n [] = refl
  frees-raise t n (o ∷ os) = ground (arith, frees-raise o n os)

  root_count-raise :
      (t : Table T) (n : ℕ) (os : List (Table T))
      → Wellformed (t ∷ os)
      → t.num_definitions ≤ n
      → let t' = record t { num_definitions = n } in
        root_count t os ≤ root_count t' (raise_count t' os)
  unfolding raise_count
  root_count-raise t n [] w h = h
  root_count-raise t n (o ∷ os) (_, c, w) h = ground (arith, root_count-raise o n os w)

  pub Points-le :
      (scope : SymbolScope) (root root' count count' : ℕ) (fs : List (Symbol T)) (i : ℕ)
      (name : String)
      → root ≤ root'
      → count ≤ count'
      → Points scope root count fs i name
      → Points scope root' count' fs i name
  Points-le global r r' c c' fs i name hr hc p = omega arith
  Points-le local r r' c c' fs i name hr hc p = omega arith
  Points-le free r r' c c' fs i name hr hc p = p
  Points-le _ r r' c c' fs i name hr hc p = tt

  -- Raising the count of a table keeps what its symbols point at.
  Fits-raise :
      (t : Table T) (n : ℕ) (os : List (Table T)) (s : Symbol T)
      → Wellformed (t ∷ os)
      → t.num_definitions ≤ n
      → Fits t os s
      → let t' = record t { num_definitions = n } in Fits t' (raise_count t' os) s
  Fits-raise t n os s w h f =
      rw (frees-raise t n os)
        (Points-le s.scope _ _ _ _ (frees t os) s.index s.name (root_count-raise t n os w h) h f)

  pub raise-Wellformed :
      (t : Table T) (n : ℕ) (os : List (Table T))
      → Wellformed (t ∷ os)
      → t.num_definitions ≤ n
      → let t' = record t { num_definitions = n } in Wellformed (t' ∷ raise_count t' os)
  unfolding raise_count
  raise-Wellformed t n [] (f, c, w) h =
      (λ name s e. Points-le s.scope _ _ _ _ t.free_symbols s.index s.name h h (f name s e), tt, tt)
  raise-Wellformed t n (o ∷ os) (f, c, w) h = (
    λ name s e. Fits-raise t n (o ∷ os) s (f, c, w) h (f name s e),
    elim (Bool-cases t.is_block_scoped) [ inl e ↦ simp e (λ _. refl) | inr e ↦ simp e (λ p. cc) ],
    elim (Bool-cases t.is_block_scoped) [
      | inl e ↦ simp e (raise-Wellformed o n os w (omega (arith, c e)))
      | inr e ↦ simp e w
    ],
  )
