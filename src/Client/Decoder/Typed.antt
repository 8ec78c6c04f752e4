-- ===== src/Client/Decoder/Typed.antt =====
-- A typed character is read back from its UTF-8 bytes.
use tx_ide_rs.Prelude.{
  ℕ, suc, ◌+◌, ◌-◌, ◌*◌, ◌/◌, ◌%◌, ◌≤◌, ◌<◌, ◌≡◌, ◌≢◌, true, false, ◌&&◌, [], ◌∷◌, ◌++◌, Text, ltb,
  leb, ◌==◌, if◌then◌else◌, length, arith, Bool-cases, inl, inr, ◌⊎◌,
}
use tx_ide_rs.Client.Form.{char}
use tx_ide_rs.Client.Decoder.{decoded, from_utf8, utf8_length, utf8, decode, is_continuation}

-- The UTF-8 bytes of a code point.
abbrev pub utf8_bytes : ℕ → Text
utf8_bytes c =
    if ltb c 0x80
    then c ∷ []
    else (if ltb c 0x800
        then (0xc0 + c / 64) ∷ (0x80 + c % 64) ∷ []
        else (if ltb c 0x10000
            then (0xe0 + c / 4096) ∷ (0x80 + c / 64 % 64) ∷ (0x80 + c % 64) ∷ []
            else (0xf0 + c / 262144)
              ∷ (0x80 + c / 4096 % 64)
              ∷ (0x80 + c / 64 % 64)
              ∷ (0x80 + c % 64)
              ∷ []))

-- A Unicode scalar value: no surrogate.
abbrev pub IsScalar : ℕ → Type 0
IsScalar c = (c < 0xd800) ⊎ ((0xe000 ≤ c) × (c < 0x110000))

decode-two :
    (c : ℕ) (rest : Text)
    → 0x80 ≤ c
    → c < 0x800
    → decode ((0xc0 + c / 64) ∷ (0x80 + c % 64) ∷ rest) ≡ decoded (char c) 2
unfolding decode utf8 utf8_length from_utf8
decode-two c rest lo hi =
    let esc : (0xc0 + c / 64 == 0x1b) ≡ false = ground arith in
    let t1 : leb (0xc0 + c / 64) 0x7f ≡ false = ground arith in
    let t2 : (leb 0xc0 (0xc0 + c / 64) && leb (0xc0 + c / 64) 0xdf) ≡ true = ground arith in
    let t3 : ltb (suc (suc (length rest))) 2 ≡ false = ground arith in
    let t4 : ((leb 0xc2 (0xc0 + c / 64) && leb (0xc0 + c / 64) 0xdf)
          && is_continuation (0x80 + c % 64))
        ≡ true =
      ground arith in
    let v : (0xc0 + c / 64 - 0xc0) * 64 + (0x80 + c % 64 - 0x80) ≡ c = omega arith in
    rw (esc, t1, t2, t3, t4, v)

decode-one : (c : ℕ) (rest : Text) → c < 0x80 → c ≢ 0x1b → decode (c ∷ rest) ≡ decoded (char c) 1
unfolding decode utf8 utf8_length from_utf8
decode-one c rest hi other =
    let esc : (c == 0x1b) ≡ false = ground arith in
    let t1 : leb c 0x7f ≡ true = ground arith in
    let t3 : ltb (suc (length rest)) 1 ≡ false = ground arith in rw (esc, t1, t3, t1)

decode-three :
    (c : ℕ) (rest : Text)
    → 0x800 ≤ c
    → c < 0x10000
    → IsScalar c
    → decode ((0xe0 + c / 4096) ∷ (0x80 + c / 64 % 64) ∷ (0x80 + c % 64) ∷ rest)
      ≡ decoded (char c) 3
unfolding decode utf8 utf8_length from_utf8
decode-three c rest lo hi scalar =
    let a = 0xe0 + c / 4096 in
    let b = 0x80 + c / 64 % 64 in
    let esc : (a == 0x1b) ≡ false = ground arith in
    let t1 : leb a 0x7f ≡ false = ground arith in
    let t2 : (leb 0xc0 a && leb a 0xdf) ≡ false = ground arith in
    let t2' : (leb 0xe0 a && leb a 0xef) ≡ true = ground arith in
    let t3 : ltb (suc (suc (suc (length rest)))) 3 ≡ false = ground arith in
    let low : leb (if a == 0xe0 then 0xa0 else 0x80) b ≡ true = ground arith in
    let high : leb b (if a == 0xed then 0x9f else 0xbf) ≡ true = three_high c scalar in
    let t5 : is_continuation (0x80 + c % 64) ≡ true = ground arith in
    let v : (a - 0xe0) * 4096 + (b - 0x80) * 64 + (0x80 + c % 64 - 0x80) ≡ c = omega arith in
    rw (esc, t1, t2, t2', t3, t2', low, high, t5, v)
  where
    three_high :
        (c : ℕ)
        → IsScalar c
        → leb (0x80 + c / 64 % 64) (if 0xe0 + c / 4096 == 0xed then 0x9f else 0xbf) ≡ true
    three_high c (inl h) = ground arith
    three_high c (inr h) = ground arith

decode-four :
    (c : ℕ) (rest : Text)
    → 0x10000 ≤ c
    → c < 0x110000
    → decode (
        (0xf0 + c / 262144)
        ∷ (0x80 + c / 4096 % 64)
        ∷ (0x80 + c / 64 % 64)
        ∷ (0x80 + c % 64)
        ∷ rest)
      ≡ decoded (char c) 4
unfolding decode utf8 utf8_length from_utf8
decode-four c rest lo hi =
    let a = 0xf0 + c / 262144 in
    let b = 0x80 + c / 4096 % 64 in
    let esc : (a == 0x1b) ≡ false = ground arith in
    let t1 : leb a 0x7f ≡ false = ground arith in
    let t2 : (leb 0xc0 a && leb a 0xdf) ≡ false = ground arith in
    let t2' : (leb 0xe0 a && leb a 0xef) ≡ false = ground arith in
    let t2'' : (leb 0xf0 a && leb a 0xf7) ≡ true = ground arith in
    let t3 : ltb (suc (suc (suc (suc (length rest))))) 4 ≡ false = ground arith in
    let t4 : (leb 0xf0 a && leb a 0xf4) ≡ true = ground arith in
    let low : leb (if a == 0xf0 then 0x90 else 0x80) b ≡ true = ground arith in
    let high : leb b (if a == 0xf4 then 0x8f else 0xbf) ≡ true = ground arith in
    let t5 : is_continuation (0x80 + c / 64 % 64) ≡ true = ground arith in
    let t6 : is_continuation (0x80 + c % 64) ≡ true = ground arith in
    let v : (a - 0xf0) * 262144
          + (b - 0x80) * 4096
          + (0x80 + c / 64 % 64 - 0x80) * 64
          + (0x80 + c % 64 - 0x80)
        ≡ c =
      omega arith in
    rw (esc, t1, t2, t2', t2'', t3, t4, low, high, t5, t6, v)

-- The UTF-8 bytes of a character other than the escape are decoded as that character, and all of them
-- are taken, whatever bytes follow.
pub decode-utf8_bytes :
    (c : ℕ) (rest : Text)
    → IsScalar c
    → c ≢ 0x1b
    → decode (utf8_bytes c ++ rest) ≡ decoded (char c) (length (utf8_bytes c))
decode-utf8_bytes c rest scalar other = elim (Bool-cases (ltb c 0x80)) [
  | inl one ↦ rw one (decode-one c rest (ground arith) other)
  | inr more ↦ elim (Bool-cases (ltb c 0x800)) [
    | inl two ↦ rw (more, two) (decode-two c rest (ground arith) (ground arith))
    | inr more' ↦ elim (Bool-cases (ltb c 0x10000)) [
      | inl three ↦
          rw (more, more', three) (decode-three c rest (ground arith) (ground arith) scalar)
      | inr four ↦ rw (more, more', four) (decode-four c rest (ground arith) (below c scalar))
    ]
  ]
]
  where
    below : (c : ℕ) → IsScalar c → c < 0x110000
    below c (inl h) = omega arith
    below c (inr h) = h.1
