-- ===== src/SymbolTable/Resolve.antt =====
-- compiler/symbol_table.go: what `Resolve` answers, and what it does to the chain.
use sydney.Base.{
  ℕ, ◌≡◌, refl, sym, ◌∙◌, String, List, [], ◌∷◌, ◌++◌, append-nil, Bool, true, false, none, some,
  ◌||◌, lookup, arith, Bool-cases, Option-cases, inl, inr,
}
use sydney.SymbolTable.{
  SymbolScope, global, local, builtin, free, function, unset, Symbol, Table, Resolved, is_shared,
  define_free, import_symbol, resolve,
}
use sydney.SymbolTable.Wellformed.{
  Points, root_count, frees, Fits, Counts, Wellformed, Points-grow, Points-le,
}
use sydney.SymbolTable.Preserves.{define_free-Wellformed, define_free-Fits}

module _ {T : Type 0} where
  -- The same tables with more free symbols.
  abbrev pub Grows : List (Table T) → List (Table T) → Type 0
  Grows [] [] = Unit
  Grows (t ∷ os) (t' ∷ os') =
      (t'.num_definitions ≡ t.num_definitions)
      × (t'.is_block_scoped ≡ t.is_block_scoped)
      × ((gs : List (Symbol T)) × (t'.free_symbols ≡ t.free_symbols ++ gs))
      × Grows os os'
  Grows _ _ = ⊥

  Grows-refl : (c : List (Table T)) → Grows c c
  Grows-refl [] = tt
  Grows-refl (t ∷ os) = (refl, refl, ([], rw append-nil), Grows-refl os)

  import-Grows :
      (t : Table T) (os : List (Table T)) (r : Resolved T)
      → Grows os r.1
      → Grows (t ∷ os) (import_symbol t r).1
  unfolding import_symbol define_free
  import-Grows t os (none, os') g = (refl, refl, ([], rw append-nil), g)
  import-Grows t os (some (s, b), os') g =
      elim (Bool-cases (is_shared s.scope || t.is_block_scoped)) [
        | inl e ↦ simp e (refl, refl, ([], sym (append-nil t.free_symbols)), g)
        | inr e ↦ simp e (refl, refl, (s ∷ [], refl), g)
      ]

  pub resolve-Grows : (name : String) (c : List (Table T)) → Grows c (resolve name c).1
  unfolding resolve
  resolve-Grows name [] = tt
  resolve-Grows name (t ∷ os) = elim (Option-cases (lookup name t.store)) [
    | inl e ↦ rw (e, resolve) (import-Grows t os (resolve name os) (resolve-Grows name os))
    | inr (s, e) ↦ rw (e, resolve) (Grows-refl (t ∷ os))
  ]

  root_count-Grows :
      (t t' : Table T) (os os' : List (Table T))
      → Grows (t ∷ os) (t' ∷ os')
      → root_count t' os' ≡ root_count t os
  root_count-Grows t t' [] [] g = g.0
  root_count-Grows t t' [] (_ ∷ _) (_, _, _, g) = absurd g
  root_count-Grows t t' (_ ∷ _) [] (_, _, _, g) = absurd g
  root_count-Grows t t' (o ∷ os) (o' ∷ os') (_, _, _, g) = root_count-Grows o o' os os' g

  frees-Grows :
      (t t' : Table T) (os os' : List (Table T))
      → Grows (t ∷ os) (t' ∷ os')
      → (gs : List (Symbol T)) × (frees t' os' ≡ frees t os ++ gs)
  frees-Grows t t' [] [] g = g.2
  frees-Grows t t' [] (_ ∷ _) (_, _, _, g) = absurd g
  frees-Grows t t' (_ ∷ _) [] (_, _, _, g) = absurd g
  frees-Grows t t' (o ∷ os) (o' ∷ os') (_, b, h, g) = elim (Bool-cases t.is_block_scoped) [
    | inl e ↦ simp (b, e) (frees-Grows o o' os os' g)
    | inr e ↦ simp (b, e) h
  ]

  -- A symbol still points at its slot in the grown chain.
  Fits-Grows :
      (t t' : Table T) (os os' : List (Table T)) (s : Symbol T)
      → Grows (t ∷ os) (t' ∷ os')
      → Fits t os s
      → Fits t' os' s
  Fits-Grows t t' os os' s g f =
      let (gs, e) = frees-Grows t t' os os' g in
      rw e (
        Points-grow s.scope _ _ _ _ (frees t os) gs s.index s.name
          (omega (arith, root_count-Grows t t' os os' g)) (omega (arith, g.0)) f)

  -- A well-formed chain, and a symbol that points at its slot from the innermost table.
  abbrev pub Answers : Resolved T → Type 0
  Answers (none, c) = Wellformed c
  Answers (some (s, _), []) = ⊥
  Answers (some (s, _), t ∷ os) = Wellformed (t ∷ os) × Fits t os s

  keep-Wellformed :
      (t : Table T) (os os' : List (Table T))
      → Wellformed (t ∷ os)
      → Grows os os'
      → Wellformed os'
      → Wellformed (t ∷ os')
  keep-Wellformed t [] [] w g w' = w
  keep-Wellformed t [] (_ ∷ _) w g w' = absurd g
  keep-Wellformed t (_ ∷ _) [] w g w' = absurd g
  keep-Wellformed t (o ∷ os) (o' ∷ os') (f, c, w) g w' = (
    λ name s e.
        Fits-Grows t t (o ∷ os) (o' ∷ os') s (refl, refl, ([], sym (append-nil t.free_symbols)), g)
          (f name s e),
    λ e. g.0 ∙ c e,
    w',
  )

  -- A symbol of the outer table serves the inner one, if it is shared or the inner one is a block.
  Fits-shared :
      (scope : SymbolScope) (root count count' : ℕ) (fs gs : List (Symbol T)) (i : ℕ)
      (name : String)
      → is_shared scope ≡ true
      → Points scope root count fs i name
      → Points scope root count' gs i name
  Fits-shared global r c c' fs gs i name h p = p
  Fits-shared builtin r c c' fs gs i name h p = tt
  Fits-shared local r c c' fs gs i name h p = cc
  Fits-shared free r c c' fs gs i name h p = cc
  Fits-shared function r c c' fs gs i name h p = tt
  Fits-shared unset r c c' fs gs i name h p = tt

  Fits-block :
      (t o : Table T) (os : List (Table T)) (s : Symbol T)
      → Counts t (o ∷ os)
      → t.is_block_scoped ≡ true
      → Fits o os s
      → Fits t (o ∷ os) s
  Fits-block t o os s c b f =
      simp b
        (Points-le s.scope _ _ _ _ (frees o os) s.index s.name (omega arith) (omega (arith, c b)) f)

  pub import-kept :
      (t : Table T) (s : Symbol T) (b : Bool) (os : List (Table T))
      → (is_shared s.scope || t.is_block_scoped) ≡ true
      → import_symbol t (some (s, b), os) ≡ (some (s, true), t ∷ os)
  unfolding import_symbol
  import-kept t s b os e = simp e

  pub import-freed :
      (t : Table T) (s : Symbol T) (b : Bool) (os : List (Table T))
      → (is_shared s.scope || t.is_block_scoped) ≡ false
      → import_symbol t (some (s, b), os)
        ≡ (some ((define_free s t).0, true), (define_free s t).1 ∷ os)
  unfolding import_symbol
  import-freed t s b os e = simp e

  import-Answers :
      (t : Table T) (os : List (Table T)) (r : Resolved T)
      → Wellformed (t ∷ os)
      → Grows os r.1
      → Answers r
      → Answers (import_symbol t r)
  import-Answers t os (none, os') w g a = unfold import_symbol in keep-Wellformed t os os' w g a
  import-Answers t os (some (s, _), []) w g a = absurd a
  import-Answers t os (some (s, c), o ∷ os') w g (wo, f) =
      let w' = keep-Wellformed t os (o ∷ os') w g wo in
      elim (Bool-cases (is_shared s.scope)) [
        | inl e ↦
            rw (import-kept t s c (o ∷ os') (ground (arith, e)))
              (w', Fits-shared s.scope _ _ _ _ _ _ _ e f)
        | inr e ↦ elim (Bool-cases t.is_block_scoped) [
          | inl b ↦
              rw (import-kept t s c (o ∷ os') (ground (arith, b)))
                (w', Fits-block t o os' s w'.1 b f)
          | inr b ↦
              rw (import-freed t s c (o ∷ os') (ground (arith, e, b)))
                (define_free-Wellformed s t (o ∷ os') b w', define_free-Fits s t (o ∷ os') b)
        ]
      ]

  -- `Resolve` on a well-formed chain gives a well-formed chain, and a symbol that points at its slot:
  -- a global below the root's count, a local below the count of the innermost table, and a free
  -- variable at an entry of its function's free symbols that has the symbol's name.
  pub resolve-Answers :
      (name : String) (c : List (Table T)) → Wellformed c → Answers (resolve name c)
  unfolding resolve
  resolve-Answers name [] w = tt
  resolve-Answers name (t ∷ os) w = elim (Option-cases (lookup name t.store)) [
    | inl e ↦
        rw (e, resolve)
          (import-Answers t os (resolve name os) w (resolve-Grows name os)
            (resolve-Answers name os w.2))
    | inr (s, e) ↦ rw (e, resolve) (w, w.0 name s e)
  ]
