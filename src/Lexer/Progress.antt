-- ===== src/Lexer/Progress.antt =====
-- lexer/lexer.go: the position of the lexer, and the loops with their fuel.
use sydney.Base.{
  ℕ, zero, suc, ◌+◌, ◌<◌, ◌≤◌, ◌≡◌, refl, ap, ◌∙◌, inl, inr, List, [], ◌∷◌, ◌++◌, some, Bool, true,
  false, ◌&&◌, ◌||◌, not, length, get_or, ◌==◌, ltb, arith, Bool-cases, if_intro,
}
use sydney.Lexer.{
  Lexer, new, is_numeric, is_hex, read_char, skip_while, number_loop, read_hex, read_escape,
  string_loop,
}

-- The lexer stands on a byte of the source, or behind its end with a zero byte.
pub record Valid (l : Lexer) : Type 0 where
  pub next : l.read_position ≡ suc l.position
  pub current : l.char ≡ get_or l.source l.position 0

-- `l'` stands where `l` does or later, over the same source.
pub record Follows (l l' : Lexer) : Type 0 where
  pub valid : Valid l'
  pub same : l'.source ≡ l.source
  pub ahead : l.position ≤ l'.position

pub get_or_end : (xs : List ℕ) (i : ℕ) → length xs ≤ i → get_or xs i 0 ≡ 0
get_or_end [] i h = refl
get_or_end (x ∷ xs) zero h = absurd (omega arith)
get_or_end (x ∷ xs) (suc i) h = get_or_end xs i (omega arith)

pub Follows-trans : {l m n : Lexer} → Follows l m → Follows m n → Follows l n
Follows-trans f g = record {
  valid = g.valid;
  same = g.same ∙ f.same;
  ahead = omega (arith, f.ahead, g.ahead);
}

pub Follows-refl : {l : Lexer} → Valid l → Follows l l
Follows-refl v = record { valid = v; same = refl; ahead = omega arith }

pub read_char-Follows : (l : Lexer) → Valid l → Follows l (read_char l)
unfolding read_char
read_char-Follows l v = record {
  valid = record {
    next = omega (arith, v.next);
    current = ground (arith, get_or_end l.source l.read_position);
  };
  same = refl;
  ahead = omega (arith, v.next);
}

pub read_char-position : (l : Lexer) → Valid l → (read_char l).position ≡ suc l.position
unfolding read_char
read_char-position l v = v.next

pub new-Valid : (source : List ℕ) → Valid (new source)
unfolding new
new-Valid source = record { next = omega arith; current = ground (arith, get_or_end source 0) }

-- Behind the end of the source stands a zero byte.
pub at_end : (l : Lexer) → Valid l → length l.source ≤ l.position → l.char ≡ 0
at_end l v h = v.current ∙ get_or_end l.source l.position h

-- What is left of the source for a loop that has read a byte.
less_left :
    (fuel : ℕ) (l : Lexer)
    → Valid l
    → length l.source ≤ suc fuel + l.position
    → length (read_char l).source ≤ fuel + (read_char l).position
less_left fuel l v h =
    omega (arith, h, read_char-position l v, ap length (read_char-Follows l v).same)

-- With fuel for the bytes that are left, a loop whose test fails at the end of the source ends; it
-- moves on if its test holds at first.
pub skip_while-ends :
    (test : ℕ → Bool)
    → test 0 ≡ false
    → (fuel : ℕ) (l : Lexer) → Valid l
    → length l.source ≤ fuel + l.position
    → (l' : Lexer) × (skip_while test (suc fuel) l ≡ some l')
      × Follows l l'
      × (test l.char ≡ true → l.position < l'.position)
unfolding skip_while
skip_while-ends test stops zero l v h =
    let fails : test l.char ≡ false = ap test (at_end l v (omega (arith, h))) ∙ stops in
    (l, rw (fails, skip_while) refl, Follows-refl v, λ holds. absurd (cc))
skip_while-ends test stops (suc fuel) l v h = elim (Bool-cases (test l.char)) [
  | inl holds ↦
      let f = read_char-Follows l v in
      let (l', ends, g, moved) =
        skip_while-ends test stops fuel (read_char l) f.valid (less_left fuel l v h) in
      (
        l',
        rw (holds, skip_while) ends,
        Follows-trans f g,
        λ held. omega (arith, g.ahead, read_char-position l v),
      )
  | inr fails ↦ (l, rw (fails, skip_while) refl, Follows-refl v, λ holds. absurd (cc))
]

-- The test of `readNumber`.
abbrev goes_on : Bool → Lexer → Bool
goes_on d l = is_numeric l.char || not d && l.char == b'.'

pub number_loop-ends :
    (fuel : ℕ) (d : Bool) (l : Lexer)
    → Valid l
    → length l.source ≤ fuel + l.position
    → (r : Bool × Lexer) × (number_loop (suc fuel) d l ≡ some r)
      × Follows l r.1
      × (is_numeric l.char ≡ true → l.position < r.1.position)
unfolding number_loop
number_loop-ends zero d l v h =
    let fails : goes_on d l ≡ false = ground (arith, at_end l v (omega (arith, h))) in
    let none_read : is_numeric l.char ≡ false = ground (arith, at_end l v (omega (arith, h))) in
    ((d, l), rw (fails, number_loop) refl, Follows-refl v, λ holds. absurd (cc))
number_loop-ends (suc fuel) d l v h = elim (Bool-cases (goes_on d l)) [
  | inl holds ↦
      let f = read_char-Follows l v in
      let (r, ends, g, moved) =
        number_loop-ends fuel (d || l.char == b'.') (read_char l) f.valid (less_left fuel l v h) in
      (
        r,
        rw (holds, number_loop) ends,
        Follows-trans f g,
        λ held. omega (arith, g.ahead, read_char-position l v),
      )
  | inr fails ↦ (
    (d, l),
    rw (fails, number_loop) refl,
    Follows-refl v,
    λ holds. absurd (ground (arith, holds, fails)),
  )
]

read_hex-Follows : (n : ℕ) (l : Lexer) → Valid l → Follows l (read_hex n l).1
unfolding read_hex
read_hex-Follows zero l v = Follows-refl v
read_hex-Follows (suc n) l v =
    let f =
      if_intro (Follows l) (is_hex l.char && ltb 0 n) (read_char-Follows l v) (Follows-refl v) in
    let g = Follows-trans f (read_hex-Follows n _ f.valid) in
    if_intro (λ (r : List ℕ × Lexer). Follows l r.1) (is_hex l.char) g g

read_escape-Follows : (l : Lexer) → Valid l → Follows l (read_escape l).1
unfolding read_escape
read_escape-Follows l v =
    let stay = Follows-refl v in
    let f = read_char-Follows l v in
    let hex = Follows-trans f (read_hex-Follows 2 (read_char l) f.valid) in
    if_intro Behind (l.char == b'n') stay (
      if_intro Behind (l.char == b't') stay (
        if_intro Behind (l.char == b'r') stay (
          if_intro Behind (l.char == 92) stay (
            if_intro Behind (l.char == 34) stay (
              if_intro Behind (l.char == b'0') stay (if_intro Behind (l.char == b'x') hex stay))))))
  where
    Behind : List ℕ × Lexer → Type 0
    Behind r = Follows l r.1

-- The loop of `readString` reads a byte in every round, and ends at a zero byte.
pub string_loop-ends :
    (fuel : ℕ) (result : List ℕ) (l : Lexer)
    → Valid l
    → length l.source ≤ fuel + l.position
    → (r : List ℕ × Lexer) × (string_loop (suc fuel) result l ≡ some r) × Follows l r.1
unfolding string_loop
string_loop-ends zero result l v h =
    let f = read_char-Follows l v in
    let l' = read_char l in
    let ended : (l'.char == 34 || l'.char == 0) ≡ true =
      ground
        (arith, at_end l' f.valid (omega (arith, h, read_char-position l v, ap length f.same))) in
    ((result, l'), rw (ended, string_loop) refl, f)
string_loop-ends (suc fuel) result l v h =
    let f = read_char-Follows l v in
    let l' = read_char l in
    let g = read_char-Follows l' f.valid in
    let e = read_escape (read_char l') in
    let k = Follows-trans g (read_escape-Follows (read_char l') g.valid) in
    elim (Bool-cases (l'.char == 34 || l'.char == 0)) [
      | inl ended ↦ ((result, l'), rw (ended, string_loop) refl, f)
      | inr on ↦ elim (Bool-cases (l'.char == 92)) [
        | inl escaped ↦
            let (r, ends, m) = string_loop-ends fuel (result ++ e.0) e.1 k.valid (
              omega
                (arith, h, k.ahead, read_char-position l v, ap length k.same, ap length f.same)) in
            (
              r,
              rw (on, string_loop) (rw (escaped, string_loop) ends),
              Follows-trans f (Follows-trans k m),
            )
        | inr plain ↦
            let (r, ends, m) =
              string_loop-ends fuel (result ++ l'.char ∷ []) l' f.valid (less_left fuel l v h) in
            (r, rw (on, string_loop) (rw (plain, string_loop) ends), Follows-trans f m)
      ]
    ]
