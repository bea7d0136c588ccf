-- ===== src/Lexer/NameLaws.antt =====
-- The names of TokenTypeToString of src/lexer/lexer.c tell the token types apart.
use holy_d.Prelude.{
  ℕ, ◌≡◌, refl, sym, ap, ◌∙◌, List, [], ◌∷◌, Option, some, none, if◌then◌else◌, same_bytes,
}
use holy_d.Lexer.Names.{token_type_to_string}
use holy_d.Syntax.Token.{
  TokenType, eof_tok, newline_tok, number_tok, float_tok, string_tok, char_tok, identifier_tok,
  u0_kw, i8_kw, u8_kw, i16_kw, u16_kw, i32_kw, u64_kw, i64_kw, u32_kw, f64_kw, void_kw, int_kw,
  uint_kw, long_kw, ulong_kw, double_kw, bool_kw, string_type_kw, auto_kw, foreach_kw, for_kw,
  if_kw, else_kw, while_kw, return_kw, goto_kw, true_kw, false_kw, module_kw, import_kw, const_kw,
  immutable_kw, static_kw, shared_kw, inout_kw, function_kw, class_kw, struct_kw, interface_kw,
  enum_kw, delegate_kw, typeof_kw, ref_kw, out_kw, lazy_kw, scope_kw, abstract_kw, final_kw,
  override_kw, namespace_kw, extern_kw, break_kw, continue_kw, switch_kw, case_kw, default_kw,
  do_kw, foreach_reverse_kw, try_kw, catch_kw, finally_kw, throw_kw, cast_kw, is_kw, in_kw, new_kw,
  delete_kw, assert_kw, typeid_kw, null_kw, char_type_kw, this_kw, super_kw, union_kw, align_kw,
  invariant_kw, private_kw, protected_kw, public_kw, package_kw, export_kw, deprecated_kw, pure_kw,
  nothrow_kw, synchronized_kw, version_kw, debug_kw, pragma_kw, alias_kw, unittest_kw, template_kw,
  mixin_kw, macro_kw, with_kw, asm_kw, assign_tok, plusplus_tok, minusminus_tok, plus_tok,
  minus_tok, star_tok, slash_tok, percent_tok, pow_tok, tilde_tok, bang_tok, andand_tok, oror_tok,
  eqeq_tok, neq_tok, lt_tok, gt_tok, lteq_tok, gteq_tok, ampersand_tok, or_tok, xor_tok, shl_tok,
  shr_tok, ushr_tok, plus_assign_tok, minus_assign_tok, star_assign_tok, slash_assign_tok,
  percent_assign_tok, pow_assign_tok, tilde_assign_tok, and_assign_tok, or_assign_tok,
  xor_assign_tok, shl_assign_tok, shr_assign_tok, ushr_assign_tok, semicolon_tok, colon_tok,
  comma_tok, dot_tok, dotdot_tok, dotdotdot_tok, lparen_tok, rparen_tok, lbrace_tok, rbrace_tok,
  lbracket_tok, rbracket_tok, question_tok, dollar_tok, at_tok, lambda_tok, unknown_tok,
}

all_types : List TokenType
all_types =
    eof_tok ∷ newline_tok ∷ number_tok ∷ float_tok ∷ string_tok ∷ char_tok ∷ identifier_tok ∷ u0_kw
    ∷ i8_kw ∷ u8_kw ∷ i16_kw ∷ u16_kw ∷ i32_kw ∷ u64_kw ∷ i64_kw ∷ u32_kw ∷ f64_kw ∷ void_kw
    ∷ int_kw ∷ uint_kw ∷ long_kw ∷ ulong_kw ∷ double_kw ∷ bool_kw ∷ string_type_kw ∷ auto_kw
    ∷ foreach_kw ∷ for_kw ∷ if_kw ∷ else_kw ∷ while_kw ∷ return_kw ∷ goto_kw ∷ true_kw ∷ false_kw
    ∷ module_kw ∷ import_kw ∷ const_kw ∷ immutable_kw ∷ static_kw ∷ shared_kw ∷ inout_kw
    ∷ function_kw ∷ class_kw ∷ struct_kw ∷ interface_kw ∷ enum_kw ∷ delegate_kw ∷ typeof_kw ∷ ref_kw
    ∷ out_kw ∷ lazy_kw ∷ scope_kw ∷ abstract_kw ∷ final_kw ∷ override_kw ∷ namespace_kw ∷ extern_kw
    ∷ break_kw ∷ continue_kw ∷ switch_kw ∷ case_kw ∷ default_kw ∷ do_kw ∷ foreach_reverse_kw
    ∷ try_kw ∷ catch_kw ∷ finally_kw ∷ throw_kw ∷ cast_kw ∷ is_kw ∷ in_kw ∷ new_kw ∷ delete_kw
    ∷ assert_kw ∷ typeid_kw ∷ null_kw ∷ char_type_kw ∷ this_kw ∷ super_kw ∷ union_kw ∷ align_kw
    ∷ invariant_kw ∷ private_kw ∷ protected_kw ∷ public_kw ∷ package_kw ∷ export_kw ∷ deprecated_kw
    ∷ pure_kw ∷ nothrow_kw ∷ synchronized_kw ∷ version_kw ∷ debug_kw ∷ pragma_kw ∷ alias_kw
    ∷ unittest_kw ∷ template_kw ∷ mixin_kw ∷ macro_kw ∷ with_kw ∷ asm_kw ∷ assign_tok ∷ plusplus_tok
    ∷ minusminus_tok ∷ plus_tok ∷ minus_tok ∷ star_tok ∷ slash_tok ∷ percent_tok ∷ pow_tok
    ∷ tilde_tok ∷ bang_tok ∷ andand_tok ∷ oror_tok ∷ eqeq_tok ∷ neq_tok ∷ lt_tok ∷ gt_tok ∷ lteq_tok
    ∷ gteq_tok ∷ ampersand_tok ∷ or_tok ∷ xor_tok ∷ shl_tok ∷ shr_tok ∷ ushr_tok ∷ plus_assign_tok
    ∷ minus_assign_tok ∷ star_assign_tok ∷ slash_assign_tok ∷ percent_assign_tok ∷ pow_assign_tok
    ∷ tilde_assign_tok ∷ and_assign_tok ∷ or_assign_tok ∷ xor_assign_tok ∷ shl_assign_tok
    ∷ shr_assign_tok ∷ ushr_assign_tok ∷ semicolon_tok ∷ colon_tok ∷ comma_tok ∷ dot_tok
    ∷ dotdot_tok ∷ dotdotdot_tok ∷ lparen_tok ∷ rparen_tok ∷ lbrace_tok ∷ rbrace_tok ∷ lbracket_tok
    ∷ rbracket_tok ∷ question_tok ∷ dollar_tok ∷ at_tok ∷ lambda_tok ∷ unknown_tok ∷ []

-- The first of the types with a name.
named : List TokenType → List ℕ → Option TokenType
named [] text = none
named (t ∷ ts) text =
    let rest = named ts text in if same_bytes (token_type_to_string t) text then some t else rest

named-token_type_to_string : (t : TokenType) → named all_types (token_type_to_string t) ≡ some t
unfolding named all_types token_type_to_string same_bytes
named-token_type_to_string eof_tok = refl
named-token_type_to_string newline_tok = refl
named-token_type_to_string number_tok = refl
named-token_type_to_string float_tok = refl
named-token_type_to_string string_tok = refl
named-token_type_to_string char_tok = refl
named-token_type_to_string identifier_tok = refl
named-token_type_to_string u0_kw = refl
named-token_type_to_string i8_kw = refl
named-token_type_to_string u8_kw = refl
named-token_type_to_string i16_kw = refl
named-token_type_to_string u16_kw = refl
named-token_type_to_string i32_kw = refl
named-token_type_to_string u64_kw = refl
named-token_type_to_string i64_kw = refl
named-token_type_to_string u32_kw = refl
named-token_type_to_string f64_kw = refl
named-token_type_to_string void_kw = refl
named-token_type_to_string int_kw = refl
named-token_type_to_string uint_kw = refl
named-token_type_to_string long_kw = refl
named-token_type_to_string ulong_kw = refl
named-token_type_to_string double_kw = refl
named-token_type_to_string bool_kw = refl
named-token_type_to_string string_type_kw = refl
named-token_type_to_string auto_kw = refl
named-token_type_to_string foreach_kw = refl
named-token_type_to_string for_kw = refl
named-token_type_to_string if_kw = refl
named-token_type_to_string else_kw = refl
named-token_type_to_string while_kw = refl
named-token_type_to_string return_kw = refl
named-token_type_to_string goto_kw = refl
named-token_type_to_string true_kw = refl
named-token_type_to_string false_kw = refl
named-token_type_to_string module_kw = refl
named-token_type_to_string import_kw = refl
named-token_type_to_string const_kw = refl
named-token_type_to_string immutable_kw = refl
named-token_type_to_string static_kw = refl
named-token_type_to_string shared_kw = refl
named-token_type_to_string inout_kw = refl
named-token_type_to_string function_kw = refl
named-token_type_to_string class_kw = refl
named-token_type_to_string struct_kw = refl
named-token_type_to_string interface_kw = refl
named-token_type_to_string enum_kw = refl
named-token_type_to_string delegate_kw = refl
named-token_type_to_string typeof_kw = refl
named-token_type_to_string ref_kw = refl
named-token_type_to_string out_kw = refl
named-token_type_to_string lazy_kw = refl
named-token_type_to_string scope_kw = refl
named-token_type_to_string abstract_kw = refl
named-token_type_to_string final_kw = refl
named-token_type_to_string override_kw = refl
named-token_type_to_string namespace_kw = refl
named-token_type_to_string extern_kw = refl
named-token_type_to_string break_kw = refl
named-token_type_to_string continue_kw = refl
named-token_type_to_string switch_kw = refl
named-token_type_to_string case_kw = refl
named-token_type_to_string default_kw = refl
named-token_type_to_string do_kw = refl
named-token_type_to_string foreach_reverse_kw = refl
named-token_type_to_string try_kw = refl
named-token_type_to_string catch_kw = refl
named-token_type_to_string finally_kw = refl
named-token_type_to_string throw_kw = refl
named-token_type_to_string cast_kw = refl
named-token_type_to_string is_kw = refl
named-token_type_to_string in_kw = refl
named-token_type_to_string new_kw = refl
named-token_type_to_string delete_kw = refl
named-token_type_to_string assert_kw = refl
named-token_type_to_string typeid_kw = refl
named-token_type_to_string null_kw = refl
named-token_type_to_string char_type_kw = refl
named-token_type_to_string this_kw = refl
named-token_type_to_string super_kw = refl
named-token_type_to_string union_kw = refl
named-token_type_to_string align_kw = refl
named-token_type_to_string invariant_kw = refl
named-token_type_to_string private_kw = refl
named-token_type_to_string protected_kw = refl
named-token_type_to_string public_kw = refl
named-token_type_to_string package_kw = refl
named-token_type_to_string export_kw = refl
named-token_type_to_string deprecated_kw = refl
named-token_type_to_string pure_kw = refl
named-token_type_to_string nothrow_kw = refl
named-token_type_to_string synchronized_kw = refl
named-token_type_to_string version_kw = refl
named-token_type_to_string debug_kw = refl
named-token_type_to_string pragma_kw = refl
named-token_type_to_string alias_kw = refl
named-token_type_to_string unittest_kw = refl
named-token_type_to_string template_kw = refl
named-token_type_to_string mixin_kw = refl
named-token_type_to_string macro_kw = refl
named-token_type_to_string with_kw = refl
named-token_type_to_string asm_kw = refl
named-token_type_to_string assign_tok = refl
named-token_type_to_string plusplus_tok = refl
named-token_type_to_string minusminus_tok = refl
named-token_type_to_string plus_tok = refl
named-token_type_to_string minus_tok = refl
named-token_type_to_string star_tok = refl
named-token_type_to_string slash_tok = refl
named-token_type_to_string percent_tok = refl
named-token_type_to_string pow_tok = refl
named-token_type_to_string tilde_tok = refl
named-token_type_to_string bang_tok = refl
named-token_type_to_string andand_tok = refl
named-token_type_to_string oror_tok = refl
named-token_type_to_string eqeq_tok = refl
named-token_type_to_string neq_tok = refl
named-token_type_to_string lt_tok = refl
named-token_type_to_string gt_tok = refl
named-token_type_to_string lteq_tok = refl
named-token_type_to_string gteq_tok = refl
named-token_type_to_string ampersand_tok = refl
named-token_type_to_string or_tok = refl
named-token_type_to_string xor_tok = refl
named-token_type_to_string shl_tok = refl
named-token_type_to_string shr_tok = refl
named-token_type_to_string ushr_tok = refl
named-token_type_to_string plus_assign_tok = refl
named-token_type_to_string minus_assign_tok = refl
named-token_type_to_string star_assign_tok = refl
named-token_type_to_string slash_assign_tok = refl
named-token_type_to_string percent_assign_tok = refl
named-token_type_to_string pow_assign_tok = refl
named-token_type_to_string tilde_assign_tok = refl
named-token_type_to_string and_assign_tok = refl
named-token_type_to_string or_assign_tok = refl
named-token_type_to_string xor_assign_tok = refl
named-token_type_to_string shl_assign_tok = refl
named-token_type_to_string shr_assign_tok = refl
named-token_type_to_string ushr_assign_tok = refl
named-token_type_to_string semicolon_tok = refl
named-token_type_to_string colon_tok = refl
named-token_type_to_string comma_tok = refl
named-token_type_to_string dot_tok = refl
named-token_type_to_string dotdot_tok = refl
named-token_type_to_string dotdotdot_tok = refl
named-token_type_to_string lparen_tok = refl
named-token_type_to_string rparen_tok = refl
named-token_type_to_string lbrace_tok = refl
named-token_type_to_string rbrace_tok = refl
named-token_type_to_string lbracket_tok = refl
named-token_type_to_string rbracket_tok = refl
named-token_type_to_string question_tok = refl
named-token_type_to_string dollar_tok = refl
named-token_type_to_string at_tok = refl
named-token_type_to_string lambda_tok = refl
named-token_type_to_string unknown_tok = refl

-- Token types with the same name are the same.
pub token_type_to_string-inj :
    (a b : TokenType) → token_type_to_string a ≡ token_type_to_string b → a ≡ b
token_type_to_string-inj a b h =
    same a b
      (sym (named-token_type_to_string a) ∙ ap (named all_types) h ∙ named-token_type_to_string b)
  where
    same : (a b : TokenType) → some a ≡ some b → a ≡ b
    same a b e = cc
