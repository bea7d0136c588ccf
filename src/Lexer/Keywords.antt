-- ===== src/Lexer/Keywords.antt =====
-- The keyword table of src/lexer/lexer.c: spellings with their token types, in its order.
use Prim.Native.String.{String}
use holy_d.Prelude.{ℕ, ◌∷◌, [], List, same_bytes, if◌then◌else◌}
use holy_d.Prelude.Text.{bytes}
use holy_d.Syntax.Token.{
  TokenType, identifier_tok, u0_kw, i8_kw, u8_kw, i16_kw, u16_kw, i32_kw, u32_kw, i64_kw, u64_kw,
  f64_kw, void_kw, int_kw, uint_kw, long_kw, ulong_kw, double_kw, bool_kw, string_type_kw, auto_kw,
  foreach_kw, for_kw, if_kw, else_kw, while_kw, return_kw, goto_kw, true_kw, false_kw, module_kw,
  import_kw, const_kw, immutable_kw, static_kw, shared_kw, inout_kw, function_kw, class_kw,
  struct_kw, interface_kw, enum_kw, delegate_kw, typeof_kw, ref_kw, out_kw, lazy_kw, scope_kw,
  abstract_kw, final_kw, override_kw, namespace_kw, extern_kw, break_kw, continue_kw, switch_kw,
  case_kw, default_kw, do_kw, foreach_reverse_kw, try_kw, catch_kw, finally_kw, throw_kw, cast_kw,
  is_kw, in_kw, new_kw, delete_kw, assert_kw, typeid_kw, null_kw, char_type_kw, this_kw, super_kw,
  union_kw, align_kw, invariant_kw, private_kw, protected_kw, public_kw, package_kw, export_kw,
  deprecated_kw, pure_kw, nothrow_kw, synchronized_kw, version_kw, debug_kw, pragma_kw, alias_kw,
  unittest_kw, template_kw, mixin_kw, macro_kw, with_kw, asm_kw,
}

pub record Keyword : Type 0 where
  pub spelling : List ℕ
  pub keyword_type : TokenType

abbrev keyword : String → TokenType → Keyword
keyword text type = record { spelling = bytes text; keyword_type = type }

unfoldable pub keywords : List Keyword
keywords =
    keyword "U0" u0_kw
    ∷ keyword "I8" i8_kw
    ∷ keyword "U8" u8_kw
    ∷ keyword "I16" i16_kw
    ∷ keyword "U16" u16_kw
    ∷ keyword "I32" i32_kw
    ∷ keyword "U32" u32_kw
    ∷ keyword "I64" i64_kw
    ∷ keyword "U64" u64_kw
    ∷ keyword "F64" f64_kw
    ∷ keyword "void" void_kw
    ∷ keyword "int" int_kw
    ∷ keyword "uint" uint_kw
    ∷ keyword "long" long_kw
    ∷ keyword "ulong" ulong_kw
    ∷ keyword "double" double_kw
    ∷ keyword "bool" bool_kw
    ∷ keyword "string" string_type_kw
    ∷ keyword "auto" auto_kw
    ∷ keyword "foreach" foreach_kw
    ∷ keyword "for" for_kw
    ∷ keyword "if" if_kw
    ∷ keyword "else" else_kw
    ∷ keyword "while" while_kw
    ∷ keyword "return" return_kw
    ∷ keyword "goto" goto_kw
    ∷ keyword "true" true_kw
    ∷ keyword "false" false_kw
    ∷ keyword "module" module_kw
    ∷ keyword "import" import_kw
    ∷ keyword "const" const_kw
    ∷ keyword "immutable" immutable_kw
    ∷ keyword "static" static_kw
    ∷ keyword "shared" shared_kw
    ∷ keyword "inout" inout_kw
    ∷ keyword "function" function_kw
    ∷ keyword "class" class_kw
    ∷ keyword "struct" struct_kw
    ∷ keyword "interface" interface_kw
    ∷ keyword "enum" enum_kw
    ∷ keyword "delegate" delegate_kw
    ∷ keyword "typeof" typeof_kw
    ∷ keyword "ref" ref_kw
    ∷ keyword "out" out_kw
    ∷ keyword "lazy" lazy_kw
    ∷ keyword "scope" scope_kw
    ∷ keyword "abstract" abstract_kw
    ∷ keyword "final" final_kw
    ∷ keyword "override" override_kw
    ∷ keyword "namespace" namespace_kw
    ∷ keyword "extern" extern_kw
    ∷ keyword "break" break_kw
    ∷ keyword "continue" continue_kw
    ∷ keyword "switch" switch_kw
    ∷ keyword "case" case_kw
    ∷ keyword "default" default_kw
    ∷ keyword "do" do_kw
    ∷ keyword "foreach_reverse" foreach_reverse_kw
    ∷ keyword "try" try_kw
    ∷ keyword "catch" catch_kw
    ∷ keyword "finally" finally_kw
    ∷ keyword "throw" throw_kw
    ∷ keyword "cast" cast_kw
    ∷ keyword "is" is_kw
    ∷ keyword "in" in_kw
    ∷ keyword "new" new_kw
    ∷ keyword "delete" delete_kw
    ∷ keyword "assert" assert_kw
    ∷ keyword "typeid" typeid_kw
    ∷ keyword "null" null_kw
    ∷ keyword "char" char_type_kw
    ∷ keyword "this" this_kw
    ∷ keyword "super" super_kw
    ∷ keyword "union" union_kw
    ∷ keyword "align" align_kw
    ∷ keyword "invariant" invariant_kw
    ∷ keyword "private" private_kw
    ∷ keyword "protected" protected_kw
    ∷ keyword "public" public_kw
    ∷ keyword "package" package_kw
    ∷ keyword "export" export_kw
    ∷ keyword "deprecated" deprecated_kw
    ∷ keyword "pure" pure_kw
    ∷ keyword "nothrow" nothrow_kw
    ∷ keyword "synchronized" synchronized_kw
    ∷ keyword "version" version_kw
    ∷ keyword "debug" debug_kw
    ∷ keyword "pragma" pragma_kw
    ∷ keyword "alias" alias_kw
    ∷ keyword "unittest" unittest_kw
    ∷ keyword "template" template_kw
    ∷ keyword "mixin" mixin_kw
    ∷ keyword "macro" macro_kw
    ∷ keyword "with" with_kw
    ∷ keyword "asm" asm_kw
    ∷ []

-- The search of `identifier`: the first keyword whose spelling the text is, or an identifier.
unfoldable pub keyword_lookup : List Keyword → List ℕ → TokenType
keyword_lookup [] text = identifier_tok
keyword_lookup (k ∷ ks) text =
    let rest = keyword_lookup ks text in if same_bytes k.spelling text then k.keyword_type else rest
