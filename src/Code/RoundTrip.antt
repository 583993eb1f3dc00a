-- ===== src/Code/RoundTrip.antt =====
-- code/code.go: `Make` and `ReadOperands`.
use Prim.Native.Nat.add
use mathlib.Core.Path.{◌≡⟨◌⟩◌, ◌∎}
use native.Mathlib.Nat.{add_assoc, add-zero}
use sydney.Base.{
  ℕ, zero, suc, ◌+◌, ◌/◌, ◌%◌, ◌^◌, ◌<◌, ◌≡◌, refl, ap, ◌⊎◌, inl, inr, List, [], ◌∷◌, ◌++◌, some,
  map, append-nil, append_assoc, length, length-append, set, drop, replicate, drop-append, arith,
  pos, ok, ◌>>=◌,
}
use sydney.Code.{Opcode, definition, byte, of_byte}
use sydney.Code.Encode.{
  lookup, sum, put_operand, write_operands, make, slice_from, read_uint8, read_uint16, read_operand,
  read_operands,
}

-- The opcodes and their bytes correspond.
pub of_byte-byte : (op : Opcode) → of_byte (byte op) ≡ some op
unfolding of_byte byte
of_byte-byte Opcode.op_constant = refl
of_byte-byte _ = refl

-- A number in `k` bytes, the high ones first.
abbrev pub big_endian : ℕ → ℕ → List ℕ
big_endian zero n = []
big_endian (suc k) n = big_endian k (n / 256) ++ (n % 256) ∷ []

-- The operands one after the other, each in its width.
abbrev pub encode : List ℕ → List ℕ → List ℕ
encode [] os = []
encode (w ∷ ws) [] = []
encode (w ∷ ws) (o ∷ os) = big_endian w o ++ encode ws os

-- As many operands as widths, and each fits its width.
abbrev pub Fits : List ℕ → List ℕ → Type 0
Fits [] [] = Unit
Fits (w ∷ ws) (o ∷ os) = (o < 256 ^ w) × Fits ws os
Fits _ _ = ⊥

-- The widths that the table uses.
abbrev pub Known : List ℕ → Type 0
Known [] = Unit
Known (w ∷ ws) = ((w ≡ 1) ⊎ (w ≡ 2)) × Known ws

pub definition-Known : (op : Opcode) → Known (definition op).operand_widths
unfolding definition
definition-Known Opcode.op_constant = omega arith
definition-Known _ = omega arith

module _ {ℓ} {A : Type ℓ} where
  set-append_add :
      (pre rest : List A) (k : ℕ) (v : A)
      → set (pre ++ rest) (length pre + k) v ≡ pre ++ set rest k v
  set-append_add [] rest k v = rw add.zero
  set-append_add (x ∷ pre) rest k v = rw add.suc (ap (◌∷◌ x) (set-append_add pre rest k v))

  set-append : (pre rest : List A) (v : A) → set (pre ++ rest) (length pre) v ≡ pre ++ set rest 0 v
  set-append pre rest v = rw add-zero at (set-append_add pre rest 0 v)

  replicate-add : (m n : ℕ) (a : A) → replicate (m + n) a ≡ replicate m a ++ replicate n a
  replicate-add zero n a = rw add.zero
  replicate-add (suc m) n a = rw add.suc (ap (◌∷◌ a) (replicate-add m n a))

pub length-big_endian : (k n : ℕ) → length (big_endian k n) ≡ k
length-big_endian zero n = refl
length-big_endian (suc k) n =
    omega (
      arith,
      length-append (big_endian k (n / 256)) ((n % 256) ∷ []),
      length-big_endian k (n / 256),
    )

slice_from-append : (pre rest : List ℕ) → slice_from (pre ++ rest) (length pre) ≡ ok rest
unfolding slice_from
slice_from-append pre rest = ground (arith, length-append pre rest, drop-append pre rest)

put_one :
    (o : ℕ) (pre rest : List ℕ)
    → o < 256
    → put_operand 1 (pos o) (length pre) (pre ++ 0 ∷ rest) ≡ pre ++ o % 256 ∷ rest
unfolding put_operand
put_one o pre rest h = set-append pre (0 ∷ rest) (o % 256)

put_two :
    (o : ℕ) (pre rest : List ℕ)
    → o < 65536
    → put_operand 2 (pos o) (length pre) (pre ++ 0 ∷ 0 ∷ rest)
      ≡ pre ++ (o / 256 % 256) ∷ o % 256 ∷ rest
unfolding put_operand
put_two o pre rest h =
    let high : o % 65536 / 256 ≡ o / 256 % 256 = omega arith in
    let low : o % 65536 % 256 ≡ o % 256 = omega arith in rw (set-append, set-append_add) (cc)

-- One operand, written into the space that is left for it.
put_operand-append :
    (w o : ℕ) (pre rest : List ℕ)
    → (w ≡ 1) ⊎ (w ≡ 2)
    → o < 256 ^ w
    → put_operand w (pos o) (length pre) (pre ++ (replicate w 0 ++ rest))
      ≡ pre ++ (big_endian w o ++ rest)
put_operand-append w o pre rest (inl e) h = rw e (put_one o pre rest (rw e at h))
put_operand-append w o pre rest (inr e) h = rw e (put_two o pre rest (rw e at h))

read_one :
    (o : ℕ) (pre rest : List ℕ)
    → o < 256
    → read_operand 1 (pre ++ o % 256 ∷ rest) (length pre) ≡ ok o
unfolding read_operand read_uint8
read_one o pre rest h = rw slice_from-append (ap ok (omega arith))

read_two :
    (o : ℕ) (pre rest : List ℕ)
    → o < 65536
    → read_operand 2 (pre ++ (o / 256 % 256) ∷ o % 256 ∷ rest) (length pre) ≡ ok o
unfolding read_operand read_uint16
read_two o pre rest h = rw slice_from-append (ap ok (omega arith))

read_operand-append :
    (w o : ℕ) (pre rest : List ℕ)
    → (w ≡ 1) ⊎ (w ≡ 2)
    → o < 256 ^ w
    → read_operand w (pre ++ (big_endian w o ++ rest)) (length pre) ≡ ok o
read_operand-append w o pre rest (inl e) h = rw e (read_one o pre rest (rw e at h))
read_operand-append w o pre rest (inr e) h = rw e (read_two o pre rest (rw e at h))

-- The loop of `Make` fills the space for the operands with their encoding.
write_operands-encode :
    (ws os pre post : List ℕ)
    → Known ws
    → Fits ws os
    → write_operands ws (map pos os) (length pre) (pre ++ (replicate (sum ws) 0 ++ post))
      ≡ ok (pre ++ (encode ws os ++ post))
unfolding write_operands
write_operands-encode [] [] pre post k f = refl
write_operands-encode [] (o ∷ os) pre post k f = absurd f
write_operands-encode (w ∷ ws) [] pre post k f = absurd f
write_operands-encode (w ∷ ws) (o ∷ os) pre post k f =
    write_operands ws (map pos os) (length pre + w)
      (put_operand w (pos o) (length pre) (pre ++ (replicate (w + sum ws) 0 ++ post)))
    ≡⟨ rw
        (
          replicate-add {A = ℕ} w (sum ws) 0,
          append_assoc {A = ℕ} (replicate w 0),
          put_operand-append w o pre _ k.0 f.0,
        )
        refl ⟩
      write_operands ws (map pos os) (length pre + w)
        (pre ++ (big_endian w o ++ (replicate (sum ws) 0 ++ post)))
    ≡⟨ rw (← written, ← append_assoc pre) refl ⟩
      write_operands ws (map pos os) (length (pre ++ big_endian w o))
        ((pre ++ big_endian w o) ++ (replicate (sum ws) 0 ++ post))
    ≡⟨ write_operands-encode ws os (pre ++ big_endian w o) post k.1 f.1 ⟩
      ok ((pre ++ big_endian w o) ++ (encode ws os ++ post))
    ≡⟨ ap ok (rw (append_assoc pre, append_assoc (big_endian w o)) refl) ⟩
      ok (pre ++ ((big_endian w o ++ encode ws os) ++ post)) ∎
  where
    written : length (pre ++ big_endian w o) ≡ length pre + w
    written = omega (arith, length-append pre (big_endian w o), length-big_endian w o)

pub read_operands-encode :
    (ws os pre post : List ℕ)
    → Known ws
    → Fits ws os
    → read_operands ws (pre ++ (encode ws os ++ post)) (length pre) ≡ ok (os, length pre + sum ws)
unfolding read_operands
read_operands-encode [] [] pre post k f = rw add-zero
read_operands-encode [] (o ∷ os) pre post k f = absurd f
read_operands-encode (w ∷ ws) [] pre post k f = absurd f
read_operands-encode (w ∷ ws) (o ∷ os) pre post k f =
    rw (append_assoc (big_endian w o), read_operand-append w o pre _ k.0 f.0)
      (rw
        (
          ← append_assoc pre,
          ← written,
          read_operands-encode ws os (pre ++ big_endian w o) post k.1 f.1,
        )
        (rw (written, add_assoc) refl))
  where
    written : length (pre ++ big_endian w o) ≡ length pre + w
    written = omega (arith, length-append pre (big_endian w o), length-big_endian w o)

-- `Make` of an opcode with operands that fit writes the opcode's byte, then each operand in its
-- width, the high byte first.
pub make-encode :
    (op : Opcode) (os : List ℕ)
    → Fits (definition op).operand_widths os
    → make (byte op) (map pos os) ≡ ok (byte op ∷ encode (definition op).operand_widths os)
unfolding make lookup
make-encode op os f =
    let ws = (definition op).operand_widths in
    rw (of_byte-byte op, replicate-add {A = ℕ} 1 (sum ws) 0)
      (rw (append-nil, append-nil) at
        (write_operands-encode ws os (byte op ∷ []) [] (definition-Known op) f))

-- If the operands fit the opcode's widths, one to each, `ReadOperands` on the bytes behind the opcode
-- gives the operands that `Make` was given, and the number of bytes that they take, whatever code follows.
pub read_operands-make :
    (op : Opcode) (os post : List ℕ)
    → Fits (definition op).operand_widths os
    → (make (byte op) (map pos os) >>= λ ins.
        read_operands (definition op).operand_widths (drop 1 (ins ++ post)) 0)
      ≡ ok (os, sum (definition op).operand_widths)
read_operands-make op os post f = rw (make-encode op os f) (
    rw add.zero at
      (read_operands-encode (definition op).operand_widths os [] post (definition-Known op) f))
