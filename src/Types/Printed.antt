-- ===== src/Types/Printed.antt =====
-- types/type.go: `Signature` behind `SubstituteTypeParams`.
use Prim.Native.String.{◌++◌ as ◌<>◌}
use sydney.Base.{◌≡◌, refl, String, List, Option, none, some, lookup}
use sydney.Types.{
  Ty, Tys, basic, array, func, map_type, struct, interface, result, option, scope, type_param,
  type_param_ref, channel, nil, cons, signature, signatures, signatures_rest, signature_constraint,
  or_self, substitute_type_params, substitute_all,
}

abbrev pub text_or : Option Ty → String → String
text_or none name = name
text_or (some t) name = signature t

text_or-or_self :
    (o : Option Ty) (name : String) → signature (or_self o (type_param_ref name)) ≡ text_or o name
unfolding signature
text_or-or_self none name = refl
text_or-or_self (some t) name = refl

-- The text of a type where a table has the types of its parameters: the text of its type stands for
-- a parameter, but for one within a channel.
unfoldable mutual
  pub printed : Ty → List (String × Ty) → String
  printed (type_param_ref name) subs = text_or (lookup name subs) name
  printed (basic b) subs = b
  printed (array t empty) subs = "array<" <> printed t subs <> ">"
  printed (map_type k v empty) subs = "map<" <> printed k subs <> ", " <> printed v subs <> ">"
  printed (func ps r variadic tps) subs =
      "func<(" <> printed_all ps subs <> ") -> " <> printed r subs <> ">"
  printed (result t) subs = "result<" <> printed t subs <> ">"
  printed (option t) subs = "option<" <> printed t subs <> ">"
  printed (struct name mod_name fs ts is satisfied tps tas) subs = name
  printed (interface name mod_name ms indices ts) subs = name
  printed (scope mod_name name) subs = mod_name <> ":" <> name
  printed (type_param c name) subs = name <> signature_constraint c
  printed (channel t) subs = "chan<" <> signature t <> ">"

  pub printed_all : Tys → List (String × Ty) → String
  printed_all nil subs = ""
  printed_all (cons t ts) subs = printed t subs <> printed_rest ts subs

  pub printed_rest : Tys → List (String × Ty) → String
  printed_rest nil subs = ""
  printed_rest (cons t ts) subs = ", " <> printed t subs <> printed_rest ts subs

mutual
  unfolding printed signature substitute_type_params

  signature-substitute_at :
      (t : Ty) (subs : List (String × Ty))
      → signature (substitute_type_params t subs) ≡ printed t subs
  signature-substitute_at (type_param_ref name) subs = text_or-or_self (lookup name subs) name
  signature-substitute_at (array t empty) subs = rw (signature-substitute_at t subs) refl
  signature-substitute_at (map_type k v empty) subs =
      rw (signature-substitute_at k subs, signature-substitute_at v subs) refl
  signature-substitute_at (func ps r variadic tps) subs =
      rw (signatures-substitute_all ps subs, signature-substitute_at r subs) refl
  signature-substitute_at (result t) subs = rw (signature-substitute_at t subs) refl
  signature-substitute_at (option t) subs = rw (signature-substitute_at t subs) refl
  signature-substitute_at (basic b) subs = refl
  signature-substitute_at (struct name mod_name fs ts is satisfied tps tas) subs = refl
  signature-substitute_at (interface name mod_name ms indices ts) subs = refl
  signature-substitute_at (scope mod_name name) subs = refl
  signature-substitute_at (type_param k name) subs = refl
  signature-substitute_at (channel t) subs = refl

  signatures-substitute_all :
      (ts : Tys) (subs : List (String × Ty))
      → signatures (substitute_all ts subs) ≡ printed_all ts subs
  signatures-substitute_all nil subs = refl
  signatures-substitute_all (cons t ts) subs =
      rw (signature-substitute_at t subs, rest-substitute_all ts subs) refl

  rest-substitute_all :
      (ts : Tys) (subs : List (String × Ty))
      → signatures_rest (substitute_all ts subs) ≡ printed_rest ts subs
  rest-substitute_all nil subs = refl
  rest-substitute_all (cons t ts) subs =
      rw (signature-substitute_at t subs, rest-substitute_all ts subs) refl

-- The signature of a type behind the substitution is the text of the type with the signatures that the
-- substitution has in the places of the parameters, in arrays, maps, functions, results and options.
pub signature-substitute :
    (t : Ty) (subs : List (String × Ty))
    → signature (substitute_type_params t subs) ≡ printed t subs
signature-substitute t subs = signature-substitute_at t subs
