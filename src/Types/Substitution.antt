-- ===== src/Types/Substitution.antt =====
-- types/type.go: `SubstituteTypeParams` and the test for type parameters.
use sydney.Base.{◌≡◌, refl, String, List, false, some, lookup}
use sydney.Types.{
  Ty, Tys, basic, array, func, map_type, struct, interface, result, option, scope, type_param,
  type_param_ref, channel, nil, cons, substitute_type_params, substitute_all,
  contains_type_param_ref, any_ref,
}

-- Every parameter that the test finds in a type has a type to stand for it, and that type has none.
unfoldable mutual
  pub Covered : Ty → List (String × Ty) → Type 0
  Covered (type_param_ref name) subs =
      (s : Ty) × (lookup name subs ≡ some s) × (contains_type_param_ref s ≡ false)
  Covered (array t empty) subs = Covered t subs
  Covered (map_type k v empty) subs = Covered k subs × Covered v subs
  Covered (func ps r variadic tps) subs = CoveredAll ps subs × Covered r subs
  Covered (struct name mod_name fs ts is satisfied tps tas) subs = CoveredAll ts subs
  Covered (result t) subs = Covered t subs
  Covered (option t) subs = Covered t subs
  Covered _ subs = Unit

  pub CoveredAll : Tys → List (String × Ty) → Type 0
  CoveredAll nil subs = Unit
  CoveredAll (cons t ts) subs = Covered t subs × CoveredAll ts subs

mutual
  unfolding substitute_type_params contains_type_param_ref Covered

  contains-substitute_at :
      (t : Ty) (subs : List (String × Ty))
      → Covered t subs
      → contains_type_param_ref (substitute_type_params t subs) ≡ false
  contains-substitute_at (type_param_ref name) subs (s, found, closed) = rw (found, closed)
  contains-substitute_at (array t empty) subs c = contains-substitute_at t subs c
  contains-substitute_at (map_type k v empty) subs (ck, cv) =
      rw (contains-substitute_at k subs ck, contains-substitute_at v subs cv)
  contains-substitute_at (func ps r variadic tps) subs (cps, cr) =
      rw (any_ref-substitute_all ps subs cps, contains-substitute_at r subs cr)
  contains-substitute_at (struct name mod_name fs ts is satisfied tps tas) subs c =
      any_ref-substitute_all ts subs c
  contains-substitute_at (result t) subs c = contains-substitute_at t subs c
  contains-substitute_at (option t) subs c = contains-substitute_at t subs c
  contains-substitute_at (basic b) subs c = refl
  contains-substitute_at (interface name mod_name ms indices ts) subs c = refl
  contains-substitute_at (scope mod_name name) subs c = refl
  contains-substitute_at (type_param k name) subs c = refl
  contains-substitute_at (channel t) subs c = refl

  any_ref-substitute_all :
      (ts : Tys) (subs : List (String × Ty))
      → CoveredAll ts subs
      → any_ref (substitute_all ts subs) ≡ false
  any_ref-substitute_all nil subs c = refl
  any_ref-substitute_all (cons t ts) subs (c, cs) =
      rw (contains-substitute_at t subs c, any_ref-substitute_all ts subs cs)

-- If the test finds in a type only parameters for which the substitution has a type in which the
-- test finds none, then after `SubstituteTypeParams` it finds none.
pub contains-substitute :
    (t : Ty) (subs : List (String × Ty))
    → Covered t subs
    → contains_type_param_ref (substitute_type_params t subs) ≡ false
contains-substitute t subs c = contains-substitute_at t subs c
