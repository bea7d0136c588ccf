-- ===== src/Lexer/Switch.antt =====
-- The switch of LexerNextToken of src/lexer/lexer.c, and the whole of it.
use holy_d.Prelude.{ℕ, ◌≡◌, refl, false, inl, inr, ◌==◌, arith, Bool-cases}
use holy_d.Syntax.Token.{
  TokenType, ampersand_tok, and_assign_tok, andand_tok, assign_tok, at_tok, bang_tok, char_tok,
  colon_tok, comma_tok, dollar_tok, dot_tok, dotdot_tok, dotdotdot_tok, eqeq_tok, gt_tok, gteq_tok,
  lambda_tok, lbrace_tok, lbracket_tok, lparen_tok, lt_tok, lteq_tok, minus_assign_tok, minus_tok,
  minusminus_tok, neq_tok, newline_tok, or_assign_tok, or_tok, oror_tok, percent_assign_tok,
  percent_tok, plus_assign_tok, plus_tok, plusplus_tok, pow_assign_tok, pow_tok, question_tok,
  rbrace_tok, rbracket_tok, rparen_tok, semicolon_tok, shl_assign_tok, shl_tok, shr_assign_tok,
  shr_tok, slash_assign_tok, slash_tok, star_assign_tok, star_tok, string_tok, tilde_assign_tok,
  tilde_tok, unknown_tok, ushr_assign_tok, ushr_tok, xor_assign_tok, xor_tok,
}
use holy_d.Lexer.Cursor.{Lexer, peek, peek_next, advance}
use holy_d.Lexer.Scan.{Scanned, finish}
use holy_d.Lexer.Next.{punctuation, angle_right, dots, operator, scan_token, is_eof}
use holy_d.Lexer.Moves.{
  stay, Further-Moves, Further-advance, Moves-trans, Moves-while_byte, peek-advance,
}
use holy_d.Lexer.Scans.{
  Scans, finish-Scans, if-Scans, matched-Scans, assigned-Scans, quoted-Scans, number-Scans,
  identifier-Scans,
}

module _ (l : Lexer) where
  punctuation-Scans : (c : ℕ) (other : Scanned) → Scans l other → Scans l (punctuation c l other)
  unfolding punctuation is_eof
  punctuation-Scans c other t = if-Scans _ (one lparen_tok refl) (
      if-Scans _ (one rparen_tok refl) (
        if-Scans _ (one lbrace_tok refl) (
          if-Scans _ (one rbrace_tok refl) (
            if-Scans _ (one lbracket_tok refl) (
              if-Scans _ (one rbracket_tok refl) (
                if-Scans _ (one semicolon_tok refl) (
                  if-Scans _ (one colon_tok refl) (
                    if-Scans _ (one question_tok refl) (
                      if-Scans _ (one dollar_tok refl) (
                        if-Scans _ (one at_tok refl) (if-Scans _ (one comma_tok refl) (t))))))))))))
    where
      one : (kind : TokenType) → is_eof kind ≡ false → Scans l (finish kind l)
      one kind h = finish-Scans kind stay h

  dots-Scans : Scans l (dots l)
  unfolding dots is_eof
  dots-Scans = elim (Bool-cases (peek l == b'.')) [
    | inl e ↦
        let one = Further-Moves (Further-advance l (ground arith)) in
        elim (Bool-cases (peek_next l == b'.')) [
          | inl k ↦
              let dot : (peek (advance l) == 0) ≡ false =
                rw (peek-advance l (ground arith)) (ground arith) in
              rw e (
                rw k (
                  finish-Scans dotdotdot_tok
                    (Moves-trans one (Further-Moves (Further-advance (advance l) dot))) refl))
          | inr k ↦ rw e (rw k (finish-Scans dotdot_tok one refl))
        ]
    | inr e ↦ rw e (finish-Scans dot_tok stay refl)
  ]

  angle_right-Scans : Scans l (angle_right l)
  unfolding angle_right is_eof
  angle_right-Scans =
      matched-Scans b'>' refl stay
        (λ n u.
          matched-Scans b'>' refl u (assigned-Scans ushr_assign_tok ushr_tok refl refl)
            (assigned-Scans shr_assign_tok shr_tok refl refl n u))
        (assigned-Scans gteq_tok gt_tok refl refl l stay)

  operator-Scans : (c : ℕ) → Scans l (operator c l)
  unfolding operator is_eof
  operator-Scans c =
      if-Scans _
        (matched-Scans b'+' refl stay (λ n u. finish-Scans plusplus_tok u refl)
          (assigned-Scans plus_assign_tok plus_tok refl refl l stay))
        (if-Scans _
          (matched-Scans b'-' refl stay (λ n u. finish-Scans minusminus_tok u refl)
            (assigned-Scans minus_assign_tok minus_tok refl refl l stay))
          (if-Scans _ (assigned-Scans star_assign_tok star_tok refl refl l stay) (
            if-Scans _ (assigned-Scans slash_assign_tok slash_tok refl refl l stay) (
              if-Scans _ (assigned-Scans percent_assign_tok percent_tok refl refl l stay) (
                if-Scans _ (assigned-Scans tilde_assign_tok tilde_tok refl refl l stay) (
                  if-Scans _
                    (matched-Scans b'&' refl stay (λ n u. finish-Scans andand_tok u refl)
                      (assigned-Scans and_assign_tok ampersand_tok refl refl l stay))
                    (if-Scans _
                      (matched-Scans b'|' refl stay (λ n u. finish-Scans oror_tok u refl)
                        (assigned-Scans or_assign_tok or_tok refl refl l stay))
                      (if-Scans _
                        (matched-Scans b'^' refl stay
                          (assigned-Scans pow_assign_tok pow_tok refl refl)
                          (assigned-Scans xor_assign_tok xor_tok refl refl l stay))
                        (if-Scans _ (assigned-Scans neq_tok bang_tok refl refl l stay) (
                          if-Scans _
                            (matched-Scans b'>' refl stay (λ n u. finish-Scans lambda_tok u refl)
                              (assigned-Scans eqeq_tok assign_tok refl refl l stay))
                            (if-Scans _
                              (matched-Scans b'<' refl stay
                                (assigned-Scans shl_assign_tok shl_tok refl refl)
                                (assigned-Scans lteq_tok lt_tok refl refl l stay))
                              (if-Scans _ (angle_right-Scans) (
                                if-Scans _ (quoted-Scans b'"' string_tok refl l) (
                                  if-Scans _ (quoted-Scans b'\'' char_tok refl l) (
                                    if-Scans _ (dots-Scans)
                                      (finish-Scans unknown_tok stay refl))))))))))))))))

  pub scan_token-Scans : (c : ℕ) → Scans l (scan_token c l)
  unfolding scan_token is_eof
  scan_token-Scans c =
      if-Scans _ (finish-Scans newline_tok (Moves-while_byte (λ d. d == b'\n') refl l) refl) (
        if-Scans _ (number-Scans l)
          (if-Scans _ (identifier-Scans l) (punctuation-Scans c (operator c l) (operator-Scans c))))
