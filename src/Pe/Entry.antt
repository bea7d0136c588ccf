-- ===== src/Pe/Entry.antt =====
-- evaluate_constant and find_exit_status of src/emit_pe.c: the exit status of a program that the
-- direct backend accepts. Out-parameters are results, and each printed refusal is a `fail`.
use holy_d.Prelude.{
  ℕ, ◌+◌, ◌-◌, ◌*◌, ◌%◌, ◌^◌, Bool, true, false, ◌||◌, ◌&&◌, Option, none, some, ◌==◌,
  if◌then◌else◌, same_bytes, List,
}
use holy_d.Prelude.Int.{ℤ, pos, negsuc, to_bits, of_bits, div_ℤ, mod_ℤ, ◌-ℤ◌, eqb_ℤ}
use holy_d.Prelude.Text.{bytes}
use holy_d.Outcome.{Outcome, ok, fail, undefined, ◌>>=◌, ◌>>◌, guard}
use holy_d.Syntax.{
  Node, Nodes, null, number, unary_op, binary_op, block, func_decl, return_stmt, nil, cons, Name,
  parameter_count,
}
use holy_d.Syntax.Token.{TokenType, plus_tok, minus_tok, star_tok, slash_tok, percent_tok}
use holy_d.Pe.Buffer.{
  PeError, no_expression, only_unary_minus, bad_division, bad_binary, not_constant, root_not_block,
  top_level_code, two_entries, entry_parameters, entry_body, one_return, out_of_memory,
  write_failed, bytes_from,
}
use holy_d.Pe.Image.{build_image, pe_file_size}

-- LLONG_MIN
abbrev pub llong_min : ℤ
llong_min = negsuc (2 ^ 63 - 1)

-- `-*value` on a long long: undefined at LLONG_MIN.
abbrev pub negate : ℤ → Outcome PeError ℤ
negate a = if eqb_ℤ a llong_min then undefined else ok (pos 0 -ℤ a)

-- (long long) of a 64-bit unsigned sum, difference or product.
abbrev pub wrap_add : ℤ → ℤ → ℤ
wrap_add a b = of_bits ((to_bits a + to_bits b) % 2 ^ 64)

abbrev pub wrap_sub : ℤ → ℤ → ℤ
wrap_sub a b = of_bits ((to_bits a + 2 ^ 64 - to_bits b) % 2 ^ 64)

abbrev pub wrap_mul : ℤ → ℤ → ℤ
wrap_mul a b = of_bits (to_bits a * to_bits b % 2 ^ 64)

abbrev pub bad_divisor : ℤ → ℤ → Bool
bad_divisor left right = eqb_ℤ right (pos 0) || eqb_ℤ left llong_min && eqb_ℤ right (negsuc 0)

-- The switch on the operator, once both operands have their value.
unfoldable pub constant_op : TokenType → ℤ → ℤ → Outcome PeError ℤ
constant_op plus_tok left right = ok (wrap_add left right)
constant_op minus_tok left right = ok (wrap_sub left right)
constant_op star_tok left right = ok (wrap_mul left right)
constant_op slash_tok left right =
    if bad_divisor left right then fail bad_division else ok (div_ℤ left right)
constant_op percent_tok left right =
    if bad_divisor left right then fail bad_division else ok (mod_ℤ left right)
constant_op _ left right = fail bad_binary

abbrev pub is_minus : TokenType → Bool
is_minus minus_tok = true
is_minus _ = false

unfoldable pub evaluate_constant : Node → Outcome PeError ℤ
unfolding constant_op
evaluate_constant null = fail no_expression
evaluate_constant (number value _) = ok value
evaluate_constant (unary_op op operand) =
    let negated = evaluate_constant operand >>= negate in
    if is_minus op then negated else fail only_unary_minus
evaluate_constant (binary_op op l r) = do
  left ← evaluate_constant l
  right ← evaluate_constant r
  constant_op op left right
evaluate_constant _ = fail not_constant

abbrev pub is_entry_name : Name → Bool
is_entry_name name = same_bytes name (bytes "main") || same_bytes name (bytes "Main")

-- One round of the search: what the entry found so far becomes at a statement. A function is kept
-- as its parameter count and its body.
abbrev pub Entry : Type 0
Entry = Option (ℕ × Node)

unfoldable pub see_statement : Node → Entry → Outcome PeError Entry
see_statement null entry = ok entry
see_statement (block nil) entry = ok entry
see_statement (func_decl _ _ name parameters body) none =
    ok (if is_entry_name name then some (parameter_count parameters, body) else none)
see_statement (func_decl _ _ name parameters body) (some entry) =
    if is_entry_name name then fail two_entries else ok (some entry)
see_statement _ entry = fail top_level_code

unfoldable pub find_entry : Nodes → Entry → Outcome PeError Entry
unfolding see_statement
find_entry nil entry = ok entry
find_entry (cons statement rest) entry = do
  entry' ← see_statement statement entry
  find_entry rest entry'

-- (uint32_t)result
abbrev pub low_word : ℤ → ℕ
low_word a = to_bits a % 2 ^ 32

-- The value of the one return statement; `return;` gives 0.
unfoldable pub return_status : Node → Outcome PeError ℕ
unfolding evaluate_constant
return_status (return_stmt null) = ok 0
return_status (return_stmt e) = do value ← evaluate_constant e; ok (low_word value)
return_status null = undefined
return_status _ = fail one_return

unfoldable pub body_status : Node → Outcome PeError ℕ
unfolding return_status
body_status (block nil) = ok 0
body_status (block (cons statement nil)) = return_status statement
body_status (block (cons _ (cons _ _))) = fail one_return
body_status _ = fail entry_body

unfoldable pub entry_status : Entry → Outcome PeError ℕ
unfolding body_status
entry_status none = ok 0
entry_status (some (parameters, body)) =
    if parameters == 0 then body_status body else fail entry_parameters

unfoldable pub find_exit_status : Node → Outcome PeError ℕ
unfolding find_entry entry_status
find_exit_status (block statements) = do entry ← find_entry statements none; entry_status entry
find_exit_status _ = fail root_not_block

-- HDEmitPE. Whether `calloc` and the final `fwrite` succeed is the host's: two parameters.
unfoldable pub emit_pe : Bool → Bool → Node → Outcome PeError (List ℕ)
emit_pe calloc_ok write_ok ast = do
  exit_status ← find_exit_status ast
  guard calloc_ok out_of_memory
  image ← build_image exit_status
  guard write_ok write_failed
  ok (bytes_from 0 pe_file_size image)
