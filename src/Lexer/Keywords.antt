-- ===== src/Lexer/Keywords.antt =====
-- lexer/lexer.go: the tables of keywords and of type names, and `LookupIdent`.
use Prim.Native.Char.{code}
use sydney.Base.{
  ℕ, String, List, [], ◌∷◌, Bool, true, false, ◌&&◌, Option, none, some, ◌==◌, if◌then◌else◌,
}
use sydney.Token.{TokenType}

-- The bytes of an ASCII text.
abbrev pub codes : String → List ℕ
codes String.[] = []
codes (String.◌∷◌ c s) = code c ∷ codes s

unfoldable pub bytes_eq : List ℕ → List ℕ → Bool
bytes_eq [] [] = true
bytes_eq (x ∷ xs) (y ∷ ys) = x == y && bytes_eq xs ys
bytes_eq _ _ = false

-- `keywords` and `types`.
abbrev keywords : List (String × TokenType)
keywords =
    ("mut", TokenType.mut_kw)
    ∷ ("const", TokenType.const_kw)
    ∷ ("null", TokenType.null)
    ∷ ("true", TokenType.true_kw)
    ∷ ("false", TokenType.false_kw)
    ∷ ("if", TokenType.if_kw)
    ∷ ("else", TokenType.else_kw)
    ∷ ("func", TokenType.func_kw)
    ∷ ("return", TokenType.return_kw)
    ∷ ("for", TokenType.for_kw)
    ∷ ("macro", TokenType.macro_kw)
    ∷ ("array", TokenType.array_type)
    ∷ ("map", TokenType.map_type)
    ∷ ("struct", TokenType.struct_kw)
    ∷ ("define", TokenType.define_kw)
    ∷ ("interface", TokenType.interface_kw)
    ∷ ("pub", TokenType.public_kw)
    ∷ ("module", TokenType.module_kw)
    ∷ ("import", TokenType.import_kw)
    ∷ ("match", TokenType.match_kw)
    ∷ ("extern", TokenType.extern_kw)
    ∷ ("break", TokenType.break_kw)
    ∷ ("continue", TokenType.continue_kw)
    ∷ ("in", TokenType.in_kw)
    ∷ ("spawn", TokenType.spawn_kw)
    ∷ ("typeof", TokenType.type_of_kw)
    ∷ []

abbrev type_names : List (String × TokenType)
type_names =
    ("string", TokenType.string_type)
    ∷ ("int", TokenType.int_type)
    ∷ ("bool", TokenType.bool_type)
    ∷ ("float", TokenType.float_type)
    ∷ ("array", TokenType.array_type)
    ∷ ("map", TokenType.map_type)
    ∷ ("fn", TokenType.function_type)
    ∷ ("result", TokenType.result_type)
    ∷ ("option", TokenType.option_type)
    ∷ ("byte", TokenType.byte_type)
    ∷ ("chan", TokenType.channel_type)
    ∷ ("any", TokenType.any_type)
    ∷ []

unfoldable pub find : List ℕ → List (String × TokenType) → Option TokenType
unfolding bytes_eq
find ident [] = none
find ident ((name, typ) ∷ table) =
    if bytes_eq (codes name) ident then some typ else find ident table

-- `LookupIdent`: a keyword, else the name of a type, else an identifier.
unfoldable pub lookup_ident : List ℕ → TokenType
unfolding find
lookup_ident ident = elim (find ident keywords) [
  | some typ ↦ typ
  | none ↦ elim (find ident type_names) [ some typ ↦ typ | none ↦ TokenType.identifier ]
]
