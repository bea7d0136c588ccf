-- ===== src/Lexer/Names.antt =====
-- TokenTypeToString of src/lexer/lexer.c: the names that the dump of tokens prints.
use holy_d.Prelude.{ℕ, List}
use holy_d.Prelude.Text.{bytes}
use holy_d.Syntax.Token.{
  TokenType, eof_tok, newline_tok, number_tok, float_tok, string_tok, char_tok, identifier_tok,
  u0_kw, i8_kw, u8_kw, i16_kw, u16_kw, i32_kw, u64_kw, i64_kw, u32_kw, f64_kw, void_kw, int_kw,
  uint_kw, long_kw, ulong_kw, double_kw, bool_kw, string_type_kw, auto_kw, foreach_kw, for_kw,
  if_kw, else_kw, while_kw, return_kw, goto_kw, true_kw, false_kw, module_kw, import_kw, const_kw,
  immutable_kw, static_kw, shared_kw, inout_kw, function_kw, class_kw, struct_kw, interface_kw,
  enum_kw, delegate_kw, typeof_kw, ref_kw, out_kw, lazy_kw, scope_kw, abstract_kw, final_kw,
  override_kw, namespace_kw, extern_kw, break_kw, continue_kw, switch_kw, case_kw, default_kw,
  do_kw, foreach_reverse_kw, try_kw, catch_kw, finally_kw, throw_kw, cast_kw, is_kw, in_kw, new_kw,
  delete_kw, assert_kw, typeid_kw, null_kw, char_type_kw, this_kw, super_kw, union_kw, align_kw,
  invariant_kw, private_kw, protected_kw, public_kw, package_kw, export_kw, deprecated_kw, pure_kw,
  nothrow_kw, synchronized_kw, version_kw, debug_kw, pragma_kw, alias_kw, unittest_kw, template_kw,
  mixin_kw, macro_kw, with_kw, asm_kw, assign_tok, plusplus_tok, minusminus_tok, plus_tok,
  minus_tok, star_tok, slash_tok, percent_tok, pow_tok, tilde_tok, bang_tok, andand_tok, oror_tok,
  eqeq_tok, neq_tok, lt_tok, gt_tok, lteq_tok, gteq_tok, ampersand_tok, or_tok, xor_tok, shl_tok,
  shr_tok, ushr_tok, plus_assign_tok, minus_assign_tok, star_assign_tok, slash_assign_tok,
  percent_assign_tok, pow_assign_tok, tilde_assign_tok, and_assign_tok, or_assign_tok,
  xor_assign_tok, shl_assign_tok, shr_assign_tok, ushr_assign_tok, semicolon_tok, colon_tok,
  comma_tok, dot_tok, dotdot_tok, dotdotdot_tok, lparen_tok, rparen_tok, lbrace_tok, rbrace_tok,
  lbracket_tok, rbracket_tok, question_tok, dollar_tok, at_tok, lambda_tok, unknown_tok,
}

unfoldable pub token_type_to_string : TokenType → List ℕ
token_type_to_string eof_tok = bytes "EOF"
token_type_to_string newline_tok = bytes "NEWLINE"
token_type_to_string number_tok = bytes "NUMBER"
token_type_to_string float_tok = bytes "FLOAT"
token_type_to_string string_tok = bytes "STRING"
token_type_to_string char_tok = bytes "CHAR"
token_type_to_string identifier_tok = bytes "IDENTIFIER"
token_type_to_string u0_kw = bytes "U0"
token_type_to_string i8_kw = bytes "I8"
token_type_to_string u8_kw = bytes "U8"
token_type_to_string i16_kw = bytes "I16"
token_type_to_string u16_kw = bytes "U16"
token_type_to_string i32_kw = bytes "I32"
token_type_to_string u64_kw = bytes "U64"
token_type_to_string i64_kw = bytes "I64"
token_type_to_string u32_kw = bytes "U32"
token_type_to_string f64_kw = bytes "F64"
token_type_to_string void_kw = bytes "VOID"
token_type_to_string int_kw = bytes "INT"
token_type_to_string uint_kw = bytes "UINT"
token_type_to_string long_kw = bytes "LONG"
token_type_to_string ulong_kw = bytes "ULONG"
token_type_to_string double_kw = bytes "DOUBLE"
token_type_to_string bool_kw = bytes "BOOL"
token_type_to_string string_type_kw = bytes "STRING_TYPE"
token_type_to_string auto_kw = bytes "AUTO"
token_type_to_string foreach_kw = bytes "FOREACH"
token_type_to_string for_kw = bytes "FOR"
token_type_to_string if_kw = bytes "IF"
token_type_to_string else_kw = bytes "ELSE"
token_type_to_string while_kw = bytes "WHILE"
token_type_to_string return_kw = bytes "RETURN"
token_type_to_string goto_kw = bytes "GOTO"
token_type_to_string true_kw = bytes "TRUE"
token_type_to_string false_kw = bytes "FALSE"
token_type_to_string module_kw = bytes "MODULE"
token_type_to_string import_kw = bytes "IMPORT"
token_type_to_string const_kw = bytes "CONST"
token_type_to_string immutable_kw = bytes "IMMUTABLE"
token_type_to_string static_kw = bytes "STATIC"
token_type_to_string shared_kw = bytes "SHARED"
token_type_to_string inout_kw = bytes "INOUT"
token_type_to_string function_kw = bytes "FUNCTION"
token_type_to_string class_kw = bytes "CLASS"
token_type_to_string struct_kw = bytes "STRUCT"
token_type_to_string interface_kw = bytes "INTERFACE"
token_type_to_string enum_kw = bytes "ENUM"
token_type_to_string delegate_kw = bytes "DELEGATE"
token_type_to_string typeof_kw = bytes "TYPEOF"
token_type_to_string ref_kw = bytes "REF"
token_type_to_string out_kw = bytes "OUT"
token_type_to_string lazy_kw = bytes "LAZY"
token_type_to_string scope_kw = bytes "SCOPE"
token_type_to_string abstract_kw = bytes "ABSTRACT"
token_type_to_string final_kw = bytes "FINAL"
token_type_to_string override_kw = bytes "OVERRIDE"
token_type_to_string namespace_kw = bytes "NAMESPACE"
token_type_to_string extern_kw = bytes "EXTERN"
token_type_to_string break_kw = bytes "BREAK"
token_type_to_string continue_kw = bytes "CONTINUE"
token_type_to_string switch_kw = bytes "SWITCH"
token_type_to_string case_kw = bytes "CASE"
token_type_to_string default_kw = bytes "DEFAULT"
token_type_to_string do_kw = bytes "DO"
token_type_to_string foreach_reverse_kw = bytes "FOREACH_REVERSE"
token_type_to_string try_kw = bytes "TRY"
token_type_to_string catch_kw = bytes "CATCH"
token_type_to_string finally_kw = bytes "FINALLY"
token_type_to_string throw_kw = bytes "THROW"
token_type_to_string cast_kw = bytes "CAST"
token_type_to_string is_kw = bytes "IS"
token_type_to_string in_kw = bytes "IN"
token_type_to_string new_kw = bytes "NEW"
token_type_to_string delete_kw = bytes "DELETE"
token_type_to_string assert_kw = bytes "ASSERT"
token_type_to_string typeid_kw = bytes "TYPEID"
token_type_to_string null_kw = bytes "NULL"
token_type_to_string char_type_kw = bytes "CHAR_TYPE"
token_type_to_string this_kw = bytes "THIS"
token_type_to_string super_kw = bytes "SUPER"
token_type_to_string union_kw = bytes "UNION"
token_type_to_string align_kw = bytes "ALIGN"
token_type_to_string invariant_kw = bytes "INVARIANT"
token_type_to_string private_kw = bytes "PRIVATE"
token_type_to_string protected_kw = bytes "PROTECTED"
token_type_to_string public_kw = bytes "PUBLIC"
token_type_to_string package_kw = bytes "PACKAGE"
token_type_to_string export_kw = bytes "EXPORT"
token_type_to_string deprecated_kw = bytes "DEPRECATED"
token_type_to_string pure_kw = bytes "PURE"
token_type_to_string nothrow_kw = bytes "NOTHROW"
token_type_to_string synchronized_kw = bytes "SYNCHRONIZED"
token_type_to_string version_kw = bytes "VERSION"
token_type_to_string debug_kw = bytes "DEBUG"
token_type_to_string pragma_kw = bytes "PRAGMA"
token_type_to_string alias_kw = bytes "ALIAS"
token_type_to_string unittest_kw = bytes "UNITTEST"
token_type_to_string template_kw = bytes "TEMPLATE"
token_type_to_string mixin_kw = bytes "MIXIN"
token_type_to_string macro_kw = bytes "MACRO"
token_type_to_string with_kw = bytes "WITH"
token_type_to_string asm_kw = bytes "ASM"
token_type_to_string assign_tok = bytes "ASSIGN"
token_type_to_string plusplus_tok = bytes "PLUSPLUS"
token_type_to_string minusminus_tok = bytes "MINUSMINUS"
token_type_to_string plus_tok = bytes "PLUS"
token_type_to_string minus_tok = bytes "MINUS"
token_type_to_string star_tok = bytes "STAR"
token_type_to_string slash_tok = bytes "SLASH"
token_type_to_string percent_tok = bytes "PERCENT"
token_type_to_string pow_tok = bytes "POW"
token_type_to_string tilde_tok = bytes "TILDE"
token_type_to_string bang_tok = bytes "BANG"
token_type_to_string andand_tok = bytes "ANDAND"
token_type_to_string oror_tok = bytes "OROR"
token_type_to_string eqeq_tok = bytes "EQEQ"
token_type_to_string neq_tok = bytes "NEQ"
token_type_to_string lt_tok = bytes "LT"
token_type_to_string gt_tok = bytes "GT"
token_type_to_string lteq_tok = bytes "LTEQ"
token_type_to_string gteq_tok = bytes "GTEQ"
token_type_to_string ampersand_tok = bytes "AMPERSAND"
token_type_to_string or_tok = bytes "OR"
token_type_to_string xor_tok = bytes "XOR"
token_type_to_string shl_tok = bytes "SHL"
token_type_to_string shr_tok = bytes "SHR"
token_type_to_string ushr_tok = bytes "USHR"
token_type_to_string plus_assign_tok = bytes "PLUS_ASSIGN"
token_type_to_string minus_assign_tok = bytes "MINUS_ASSIGN"
token_type_to_string star_assign_tok = bytes "STAR_ASSIGN"
token_type_to_string slash_assign_tok = bytes "SLASH_ASSIGN"
token_type_to_string percent_assign_tok = bytes "PERCENT_ASSIGN"
token_type_to_string pow_assign_tok = bytes "POW_ASSIGN"
token_type_to_string tilde_assign_tok = bytes "TILDE_ASSIGN"
token_type_to_string and_assign_tok = bytes "AND_ASSIGN"
token_type_to_string or_assign_tok = bytes "OR_ASSIGN"
token_type_to_string xor_assign_tok = bytes "XOR_ASSIGN"
token_type_to_string shl_assign_tok = bytes "SHL_ASSIGN"
token_type_to_string shr_assign_tok = bytes "SHR_ASSIGN"
token_type_to_string ushr_assign_tok = bytes "USHR_ASSIGN"
token_type_to_string semicolon_tok = bytes "SEMICOLON"
token_type_to_string colon_tok = bytes "COLON"
token_type_to_string comma_tok = bytes "COMMA"
token_type_to_string dot_tok = bytes "DOT"
token_type_to_string dotdot_tok = bytes "DOTDOT"
token_type_to_string dotdotdot_tok = bytes "DOTDOTDOT"
token_type_to_string lparen_tok = bytes "LPAREN"
token_type_to_string rparen_tok = bytes "RPAREN"
token_type_to_string lbrace_tok = bytes "LBRACE"
token_type_to_string rbrace_tok = bytes "RBRACE"
token_type_to_string lbracket_tok = bytes "LBRACKET"
token_type_to_string rbracket_tok = bytes "RBRACKET"
token_type_to_string question_tok = bytes "QUESTION"
token_type_to_string dollar_tok = bytes "DOLLAR"
token_type_to_string at_tok = bytes "AT"
token_type_to_string lambda_tok = bytes "LAMBDA"
token_type_to_string unknown_tok = bytes "UNKNOWN"
