-- ===== src/Lexer/Total.antt =====
-- lexer/lexer.go: `NextToken` with its fuel.
use sydney.Base.{
  ℕ, zero, suc, ◌+◌, ◌<◌, ◌≤◌, ◌≡◌, refl, ap, ◌∙◌, inl, inr, [], true, false, ◌&&◌, Option, some,
  length, ◌==◌, arith, Bool-cases, Option-cases, if_intro,
}
use native.Mathlib.Decide.{dec_le}
use mathlib.Core.Option
use sydney.Token.{Token, TokenType}
use sydney.Lexer.{
  Lexer, is_numeric, is_alpha, is_ident, is_comment, is_space, read_char, peek_char,
  skip_whitespace, read_identifier, read_number, read_string,
}
use sydney.Lexer.Scan.{
  emit, single, scan_byte, scan_operator, scan_word, scan, double, skip_comment, next_token,
}
use sydney.Lexer.Progress.{
  Valid, Follows, Follows-trans, Follows-refl, read_char-Follows, read_char-position, at_end,
  skip_while-ends, number_loop-ends, string_loop-ends,
}

-- A token and the lexer behind it: further on, over the same source.
pub record Moves (l : Lexer) (r : Token × Lexer) : Type 0 where
  pub valid : Valid r.1
  pub same : r.1.source ≡ l.source
  pub further : l.position < r.1.position

emit-Moves : (l m : Lexer) (t : Token) → Follows l m → Moves l (t, read_char m)
emit-Moves l m t f =
    let g = read_char-Follows m f.valid in
    record {
      valid = g.valid;
      same = g.same ∙ f.same;
      further = omega (arith, f.ahead, read_char-position m f.valid);
    }

scan_byte-Moves : (l : Lexer) → Valid l → Moves l (scan_byte l)
unfolding scan_byte
scan_byte-Moves l v =
    let f = read_char-Follows l v in
    let g = read_char-Follows (read_char l) f.valid in
    let h = read_char-Follows (read_char (read_char l)) g.valid in
    if_intro (Moves l) ((read_char l).char == 92)
      (emit-Moves l _ _ (Follows-trans f (Follows-trans g h)))
      (emit-Moves l _ _ (Follows-trans f g))

scan_operator-Moves : (l : Lexer) → Valid l → Moves l (scan_operator l)
unfolding scan_operator
scan_operator-Moves l v = elim (Option-cases (double l.char (peek_char l))) [
  | inl e ↦ rw (e, scan_operator) (emit-Moves l l _ (Follows-refl v))
  | inr (typ, e) ↦ rw (e, scan_operator) (emit-Moves l (read_char l) _ (read_char-Follows l v))
]

-- An answer is there, and moves on.
abbrev Answers : Lexer → Option (Token × Lexer) → Type 0
Answers l o = (r : Token × Lexer) × (o ≡ some r) × Moves l r

answer : (l : Lexer) (r : Token × Lexer) → Moves l r → Answers l (some r)
answer l r m = (r, refl, m)

Moves-intro : (l m : Lexer) (t : Token) → Follows l m → l.position < m.position → Moves l (t, m)
Moves-intro l m t f h = record { valid = f.valid; same = f.same; further = h }

-- The fuel of a loop is enough wherever the lexer stands.
fuel_for-enough : (l : Lexer) → length l.source ≤ length l.source + l.position
fuel_for-enough l = omega arith

scan_word-Answers : (l : Lexer) → Valid l → Answers l (scan_word l)
unfolding scan_word read_identifier read_number
scan_word-Answers l v = elim (Bool-cases (is_alpha l.char)) [
  | inl a ↦
      let (m, ends, f, moved) =
        skip_while-ends is_ident refl (length l.source) l v (fuel_for-enough l) in
      rw (a, ends, scan_word) (answer l _ (Moves-intro l m _ f (moved (ground (arith, a)))))
  | inr a ↦ elim (Bool-cases (is_numeric l.char)) [
    | inl n ↦
        let ((d, m), ends, f, moved) =
          number_loop-ends (length l.source) false l v (fuel_for-enough l) in
        rw (a, n, ends, scan_word) (answer l _ (Moves-intro l m _ f (moved n)))
    | inr n ↦ rw (a, n, scan_word) (answer l _ (scan_operator-Moves l v))
  ]
]

read_string-Answers :
    (l : Lexer)
    → Valid l
    → Answers l (Option.map (λ (text, end). emit l text TokenType.string end) (read_string l))
unfolding read_string
read_string-Answers l v =
    let (r, ends, f) = string_loop-ends (length l.source) [] l v (fuel_for-enough l) in
    rw ends (answer l _ (emit-Moves l r.1 _ f))

scan-Answers : (l : Lexer) → Valid l → Answers l (scan l)
unfolding scan
scan-Answers l v = elim (Option-cases (single l.char)) [
  | inl e ↦
      rw (e, scan)
        (if_intro (Answers l) (l.char == 34) (read_string-Answers l v) (
          if_intro (Answers l) (l.char == 39) (answer l _ (scan_byte-Moves l v)) (
            if_intro (Answers l) (l.char == 0) (answer l _ (emit-Moves l l _ (Follows-refl v)))
              (scan_word-Answers l v))))
  | inr (typ, e) ↦ rw (e, scan) (answer l _ (emit-Moves l l _ (Follows-refl v)))
]

skip_comment-ends :
    (l : Lexer) → Valid l → (l' : Lexer) × (skip_comment l ≡ some l') × Follows (read_char l) l'
unfolding skip_comment
skip_comment-ends l v =
    let f = read_char-Follows l v in
    let (l', ends, g, moved) =
      skip_while-ends is_comment refl (length l.source) (read_char l) f.valid
        (omega (arith, ap length f.same)) in
    (l', ends, g)

skip_whitespace-ends :
    (l : Lexer) → Valid l → (l' : Lexer) × (skip_whitespace l ≡ some l') × Follows l l'
unfolding skip_whitespace
skip_whitespace-ends l v =
    let (l', ends, f, moved) =
      skip_while-ends is_space refl (length l.source) l v (fuel_for-enough l) in
    (l', ends, f)

Moves-Follows : (l m : Lexer) (r : Token × Lexer) → Follows l m → Moves m r → Moves l r
Moves-Follows l m r f g = record {
  valid = g.valid;
  same = g.same ∙ f.same;
  further = omega (arith, f.ahead, g.further);
}

Answers-Follows :
    (l m : Lexer) (o : Option (Token × Lexer)) → Follows l m → Answers m o → Answers l o
Answers-Follows l m o f (r, e, g) = (r, e, Moves-Follows l m r f g)

-- A slash stands on a byte of the source.
slash_within : (l : Lexer) → Valid l → (l.char == b'/') ≡ true → suc l.position ≤ length l.source
slash_within l v e = elim (dec_le (suc l.position) (length l.source)) [
  | yes h ↦ h
  | no h ↦ absurd (ground (arith, e, at_end l v (omega arith)))
]

-- The answer of one round, given that of the rest behind a comment.
next_token-step :
    (fuel : ℕ) (l : Lexer)
    → Valid l
    → ((start rest : Lexer)
        → Follows l start
        → (start.char == b'/') ≡ true
        → Follows (read_char start) rest
        → Answers rest (next_token fuel rest))
    → Answers l (next_token (suc fuel) l)
unfolding next_token
next_token-step fuel l v behind =
    let (start, skipped, f) = skip_whitespace-ends l v in
    let (rest, ends, g) = skip_comment-ends start f.valid in
    let comment = Follows-trans f (Follows-trans (read_char-Follows start f.valid) g) in
    elim (Bool-cases (start.char == b'/' && peek_char start == b'/')) [
      | inl e ↦
          rw (skipped, next_token)
            (rw (e, next_token)
              (rw (ends, next_token)
                (Answers-Follows l rest (next_token fuel rest) comment
                  (behind start rest f (ground (arith, e)) g))))
      | inr e ↦
          rw (skipped, next_token)
            (rw (e, next_token)
              (Answers-Follows l start (scan start) f (scan-Answers start f.valid)))
    ]

-- A lexer that holds the byte at its position, with fuel for one round more than there are bytes left:
-- every loop of `NextToken` ends, it gives a token, and the lexer behind it stands further on over the
-- same source, on a byte of it or behind its end.
pub next_token_total :
    (fuel : ℕ) (l : Lexer)
    → Valid l
    → length l.source ≤ fuel + l.position
    → (r : Token × Lexer) × (next_token (suc fuel) l ≡ some r) × Moves l r
next_token_total zero l v h = next_token-step 0 l v λ start rest f e g.
    absurd (omega (arith, h, slash_within start f.valid e, f.ahead, ap length f.same))
next_token_total (suc fuel) l v h = next_token-step (suc fuel) l v λ start rest f e g.
    next_token_total fuel rest g.valid (
      omega (
        arith,
        h,
        f.ahead,
        g.ahead,
        read_char-position start f.valid,
        ap length g.same,
        ap length (read_char-Follows start f.valid).same,
        ap length f.same,
      ))
