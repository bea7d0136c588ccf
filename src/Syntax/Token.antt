-- ===== src/Syntax/Token.antt =====
-- The token types of src/lexer/lexer.h. A keyword's name ends in _kw, any other in _tok, since many
-- of the bare words are reserved.
pub data TokenType : Type 0 where
  eof_tok newline_tok number_tok float_tok string_tok char_tok identifier_tok u0_kw : TokenType
  i8_kw u8_kw i16_kw u16_kw i32_kw u64_kw i64_kw u32_kw f64_kw void_kw int_kw uint_kw : TokenType
  long_kw ulong_kw double_kw bool_kw string_type_kw auto_kw foreach_kw for_kw if_kw : TokenType
  else_kw while_kw return_kw goto_kw true_kw false_kw module_kw import_kw const_kw : TokenType
  immutable_kw static_kw shared_kw inout_kw function_kw class_kw struct_kw : TokenType
  interface_kw enum_kw delegate_kw typeof_kw ref_kw out_kw lazy_kw scope_kw : TokenType
  abstract_kw final_kw override_kw namespace_kw extern_kw break_kw continue_kw : TokenType
  switch_kw case_kw default_kw do_kw foreach_reverse_kw try_kw catch_kw finally_kw : TokenType
  throw_kw cast_kw is_kw in_kw new_kw delete_kw assert_kw typeid_kw null_kw : TokenType
  char_type_kw this_kw super_kw union_kw align_kw invariant_kw private_kw protected_kw : TokenType
  public_kw package_kw export_kw deprecated_kw pure_kw nothrow_kw synchronized_kw : TokenType
  version_kw debug_kw pragma_kw alias_kw unittest_kw template_kw mixin_kw macro_kw : TokenType
  with_kw asm_kw assign_tok plusplus_tok minusminus_tok plus_tok minus_tok star_tok : TokenType
  slash_tok percent_tok pow_tok tilde_tok bang_tok andand_tok oror_tok eqeq_tok : TokenType
  neq_tok lt_tok gt_tok lteq_tok gteq_tok ampersand_tok or_tok xor_tok shl_tok shr_tok : TokenType
  ushr_tok plus_assign_tok minus_assign_tok star_assign_tok slash_assign_tok : TokenType
  percent_assign_tok pow_assign_tok tilde_assign_tok and_assign_tok or_assign_tok : TokenType
  xor_assign_tok shl_assign_tok shr_assign_tok ushr_assign_tok semicolon_tok colon_tok : TokenType
  comma_tok dot_tok dotdot_tok dotdotdot_tok lparen_tok rparen_tok lbrace_tok : TokenType
  rbrace_tok lbracket_tok rbracket_tok question_tok dollar_tok at_tok lambda_tok : TokenType
  unknown_tok : TokenType
