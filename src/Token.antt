-- ===== src/Token.antt =====
-- token/token.go: the types of tokens and the token. A keyword's constructor ends in `kw`.
-- A text of the source is the list of its bytes.
use sydney.Base.{ℕ, List, Bool, ◌==◌}

pub data TokenType : Type 0 where
  null identifier integer string float byte mut_kw const_kw true_kw false_kw : TokenType
  if_kw else_kw func_kw return_kw for_kw macro_kw define_kw struct_kw : TokenType
  interface_kw import_kw module_kw public_kw match_kw extern_kw continue_kw : TokenType
  break_kw in_kw spawn_kw type_of_kw int_type string_type float_type bool_type : TokenType
  array_type map_type function_type result_type option_type byte_type : TokenType
  channel_type any_type left_paren right_paren left_curly_bracket : TokenType
  right_curly_bracket left_square_bracket right_square_bracket semicolon comma : TokenType
  colon dot plus minus slash star modulo assign greater_than less_than bang : TokenType
  equal_to greater_than_equal_to less_than_equal_to not_equal_to and or arrow : TokenType
  inv_arrow annotation_start eof illegal : TokenType

pub record Token : Type 0 where
  pub literal : List ℕ
  pub typ : TokenType
  pub line : ℕ
  pub column : ℕ

-- The tests `p.currToken.Type == t`: the place of a type in the list of constants.
abbrev pub place : TokenType → ℕ
place TokenType.null = 0
place TokenType.identifier = 1
place TokenType.integer = 2
place TokenType.string = 3
place TokenType.float = 4
place TokenType.byte = 5
place TokenType.mut_kw = 6
place TokenType.const_kw = 7
place TokenType.true_kw = 8
place TokenType.false_kw = 9
place TokenType.if_kw = 10
place TokenType.else_kw = 11
place TokenType.func_kw = 12
place TokenType.return_kw = 13
place TokenType.for_kw = 14
place TokenType.macro_kw = 15
place TokenType.define_kw = 16
place TokenType.struct_kw = 17
place TokenType.interface_kw = 18
place TokenType.import_kw = 19
place TokenType.module_kw = 20
place TokenType.public_kw = 21
place TokenType.match_kw = 22
place TokenType.extern_kw = 23
place TokenType.continue_kw = 24
place TokenType.break_kw = 25
place TokenType.in_kw = 26
place TokenType.spawn_kw = 27
place TokenType.type_of_kw = 28
place TokenType.int_type = 29
place TokenType.string_type = 30
place TokenType.float_type = 31
place TokenType.bool_type = 32
place TokenType.array_type = 33
place TokenType.map_type = 34
place TokenType.function_type = 35
place TokenType.result_type = 36
place TokenType.option_type = 37
place TokenType.byte_type = 38
place TokenType.channel_type = 39
place TokenType.any_type = 40
place TokenType.left_paren = 41
place TokenType.right_paren = 42
place TokenType.left_curly_bracket = 43
place TokenType.right_curly_bracket = 44
place TokenType.left_square_bracket = 45
place TokenType.right_square_bracket = 46
place TokenType.semicolon = 47
place TokenType.comma = 48
place TokenType.colon = 49
place TokenType.dot = 50
place TokenType.plus = 51
place TokenType.minus = 52
place TokenType.slash = 53
place TokenType.star = 54
place TokenType.modulo = 55
place TokenType.assign = 56
place TokenType.greater_than = 57
place TokenType.less_than = 58
place TokenType.bang = 59
place TokenType.equal_to = 60
place TokenType.greater_than_equal_to = 61
place TokenType.less_than_equal_to = 62
place TokenType.not_equal_to = 63
place TokenType.and = 64
place TokenType.or = 65
place TokenType.arrow = 66
place TokenType.inv_arrow = 67
place TokenType.annotation_start = 68
place TokenType.eof = 69
place TokenType.illegal = 70

abbrev pub same_type : TokenType → TokenType → Bool
same_type a b = place a == place b
