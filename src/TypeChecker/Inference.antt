-- ===== src/TypeChecker/Inference.antt =====
-- typechecker/typechecker.go: what `unifyType` finds.
use text.Mathlib.TextEquality.{eq_iff}
use native.Mathlib.Omega.{arith}
use sydney.Base.{
  String, List, [], ◌≡◌, refl, ap, some, Option-cases, lookup, lookup-insert, inl, inr, Bool, false,
}
use sydney.Types.{Ty, substitute_type_params}
use sydney.TypeChecker.{bind_missing, unify_type}

-- What a table has, another one has too.
abbrev pub Extends : List (String × Ty) → List (String × Ty) → Type 0
Extends s s' = (n : String) (t : Ty) → lookup n s ≡ some t → lookup n s' ≡ some t

-- A type of parameters, basic types, arrays, maps and results, where a table has every parameter.
pub data Bound (s : List (String × Ty)) : Ty → Type 0 where
  of_basic : (b : String) → Bound s (Ty.basic b)
  of_parameter : (n : String) (t : Ty) → lookup n s ≡ some t → Bound s (Ty.type_param_ref n)
  of_array : (t : Ty) (e : Bool) → Bound s t → Bound s (Ty.array t e)
  of_map : (k v : Ty) (e : Bool) → Bound s k → Bound s v → Bound s (Ty.map_type k v e)
  of_result : (t : Ty) → Bound s t → Bound s (Ty.result t)

Bound-Extends : (s s' : List (String × Ty)) → Extends s s' → (p : Ty) → Bound s p → Bound s' p
Bound-Extends s s' more p (of_basic b) = of_basic b
Bound-Extends s s' more p (of_parameter n t h) = of_parameter n t (more n t h)
Bound-Extends s s' more p (of_array t e h) = of_array t e (Bound-Extends s s' more t h)
Bound-Extends s s' more p (of_map k v e h g) =
    of_map k v e (Bound-Extends s s' more k h) (Bound-Extends s s' more v g)
Bound-Extends s s' more p (of_result t h) = of_result t (Bound-Extends s s' more t h)

-- A type that a smaller table binds is the same under a larger one.
substitute-Extends :
    (s s' : List (String × Ty))
    → Extends s s'
    → (p : Ty) → Bound s p
    → substitute_type_params p s ≡ substitute_type_params p s'
unfolding substitute_type_params
substitute-Extends s s' more p (of_basic b) = refl
substitute-Extends s s' more p (of_parameter n t h) = rw (h, more n t h) refl
substitute-Extends s s' more p (of_array t e h) =
    ap (λ u. Ty.array u false) (substitute-Extends s s' more t h)
substitute-Extends s s' more p (of_map k v e h g) =
    rw (substitute-Extends s s' more k h, substitute-Extends s s' more v g) refl
substitute-Extends s s' more p (of_result t h) = ap Ty.result (substitute-Extends s s' more t h)

-- What an inference from an instance leaves: the table it began with, types of the instance, and
-- every parameter bound.
abbrev Finds : Ty → List (String × Ty) → List (String × Ty) → List (String × Ty) → Type 0
Finds p σ s s' = Extends s s' × (Extends s' σ × Bound s' p)

Finds-bind_missing :
    (n : String) (t : Ty) (σ s : List (String × Ty))
    → lookup n σ ≡ some t
    → Extends s σ
    → Finds (Ty.type_param_ref n) σ s (bind_missing n t s)
unfolding bind_missing
Finds-bind_missing n t σ s known below = elim (Option-cases (lookup n s)) [
  | inl absent ↦
      rw (absent, bind_missing)
        (
          λ m v found. ground (arith, eq_iff n m, lookup-insert n m t s, found, absent),
          (
            λ m v found. ground (arith, eq_iff n m, lookup-insert n m t s, found, known, below m v),
            of_parameter n t (ground (arith, eq_iff n n, lookup-insert n n t s)),
          ),
        )
  | inr (u, found) ↦ rw (found, bind_missing) ((λ m v h. h), (below, of_parameter n u found))
]

unify_type-Finds :
    (σ : List (String × Ty)) (p : Ty) (s : List (String × Ty))
    → Bound σ p
    → Extends s σ
    → Finds p σ s (unify_type p (substitute_type_params p σ) s)
unfolding unify_type substitute_type_params
unify_type-Finds σ p s (of_basic b) below = ((λ m v h. h), (below, of_basic b))
unify_type-Finds σ p s (of_parameter n t h) below = rw (h) (Finds-bind_missing n t σ s h below)
unify_type-Finds σ p s (of_array t e h) below =
    let (grown, (inside, bound)) = unify_type-Finds σ t s h below in
    (grown, (inside, of_array t e bound))
unify_type-Finds σ p s (of_result t h) below =
    let (grown, (inside, bound)) = unify_type-Finds σ t s h below in
    (grown, (inside, of_result t bound))
unify_type-Finds σ p s (of_map k v e h g) below =
    let s1 : List (String × Ty) = unify_type k (substitute_type_params k σ) s in
    let s2 : List (String × Ty) = unify_type v (substitute_type_params v σ) s1 in
    let (grown, (inside, bound)) = unify_type-Finds σ k s h below in
    let (grown', (inside', bound')) = unify_type-Finds σ v s1 g inside in
    (
      λ m u found. grown' m u (grown m u found),
      (inside', of_map k v e (Bound-Extends s1 s2 grown' k bound) bound'),
    )

-- From the types of the arguments, which are the types of the parameters with some types for the type
-- parameters in them, `unifyType` finds types for which the substitution gives the arguments back.
pub unify-substitute :
    (p : Ty) (σ : List (String × Ty))
    → Bound σ p
    → substitute_type_params p (unify_type p (substitute_type_params p σ) [])
      ≡ substitute_type_params p σ
unfolding lookup
unify-substitute p σ bound =
    let s = unify_type p (substitute_type_params p σ) [] in
    let (grown, (inside, all_bound)) =
      unify_type-Finds σ p [] bound (λ m v h. absurd (grind arith)) in
    substitute-Extends s σ inside p all_bound
