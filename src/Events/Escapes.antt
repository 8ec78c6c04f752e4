-- ===== src/Events/Escapes.antt =====
-- The string that serde_json writes for a message of the log: JSON's escapes, on the bytes of UTF-8.
use tx_ide_rs.Prelude.{
  ℕ, ◌+◌, ◌/◌, ◌%◌, ◌≡◌, refl, sym, ap, ◌∙◌, inl, inr, Bool, true, false, ◌||◌, List, [], ◌∷◌, ◌++◌,
  Option, none, some, arith, Text, codes, length, ltb, leb, ◌==◌, if◌then◌else◌, Bool-cases,
}
use tx_ide_rs.Client.Decoder.Typed.{utf8_bytes}
use tx_ide_rs.Events.{len_utf8, escaped_len}

-- The characters that have an escape of two bytes, each with the second of the bytes.
abbrev pub short_escapes : List (ℕ × ℕ)
short_escapes =
    (b'"', b'"')
    ∷ (b'\\', b'\\')
    ∷ (b'\n', b'n')
    ∷ (b'\r', b'r')
    ∷ (b'\t', b't')
    ∷ (0x08, b'b')
    ∷ (0x0c, b'f')
    ∷ []

abbrev pub escape_in : ℕ → List (ℕ × ℕ) → Option ℕ
escape_in c [] = none
escape_in c ((x, e) ∷ table) = if c == x then some e else escape_in c table

abbrev pub hex_digit : ℕ → ℕ
hex_digit d = if ltb d 10 then b'0' + d else 87 + d

abbrev pub short_or : Option ℕ → Text → Text
short_or (some e) other = b'\\' ∷ e ∷ []
short_or none other = other

-- What is written for a character: its short escape if it has one, `\u00XX` for another control,
-- and else its UTF-8 bytes.
unfoldable pub json_escape : ℕ → Text
json_escape c = short_or (escape_in c short_escapes) (
    if ltb c 0x20
    then codes "\\u00" ++ hex_digit (c / 16) ∷ hex_digit (c % 16) ∷ []
    else utf8_bytes c)

unfoldable pub json_text : List ℕ → Text
json_text [] = []
json_text (c ∷ cs) = json_escape c ++ json_text cs

pub length-append : (a b : Text) → length (a ++ b) ≡ length a + length b
length-append [] b = omega arith
length-append (x ∷ a) b = omega (arith, length-append a b)

pub length-json_text :
    (c : ℕ) (cs : List ℕ)
    → length (json_text (c ∷ cs)) ≡ length (json_escape c) + length (json_text cs)
unfolding json_text
length-json_text c cs = length-append (json_escape c) (json_text cs)

has_escape : ℕ → List (ℕ × ℕ) → Bool
has_escape c [] = false
has_escape c ((x, e) ∷ []) = c == x
has_escape c ((x, e) ∷ (y, f) ∷ table) = c == x || has_escape c ((y, f) ∷ table)

length-short_or :
    (c : ℕ) (table : List (ℕ × ℕ)) (other : Text)
    → length (short_or (escape_in c table) other) ≡ (if has_escape c table then 2 else length other)
unfolding has_escape
length-short_or c [] other = refl
length-short_or c ((x, e) ∷ []) other = elim (Bool-cases (c == x)) [
  | inl same ↦ rw same refl
  | inr different ↦ rw different refl
]
length-short_or c ((x, e) ∷ (y, f) ∷ table) other = elim (Bool-cases (c == x)) [
  | inl same ↦ rw same refl
  | inr different ↦ rw different (length-short_or c ((y, f) ∷ table) other)
]

length-utf8_bytes : (c : ℕ) → length (utf8_bytes c) ≡ len_utf8 c
unfolding len_utf8
length-utf8_bytes c = elim (Bool-cases (ltb c 0x80)) [
  | inl one ↦ rw one refl
  | inr more ↦ elim (Bool-cases (ltb c 0x800)) [
    | inl two ↦ rw (more, two) refl
    | inr more' ↦ elim (Bool-cases (ltb c 0x10000)) [
      | inl three ↦ rw (more, more', three) refl
      | inr four ↦ rw (more, more', four) refl
    ]
  ]
]

length-control :
    (c : ℕ)
    → length (
        if ltb c 0x20
        then codes "\\u00" ++ hex_digit (c / 16) ∷ hex_digit (c % 16) ∷ []
        else utf8_bytes c)
      ≡ (if leb c 0x1f then 6 else len_utf8 c)
length-control c = elim (Bool-cases (leb c 0x1f)) [
  | inl low ↦ let low' : ltb c 0x20 ≡ true = ground arith in rw (low, low') refl
  | inr high ↦
      let high' : ltb c 0x20 ≡ false = ground arith in rw (high, high') (length-utf8_bytes c)
]

escaped_len-has_escape :
    (c : ℕ)
    → escaped_len c
      ≡ (if has_escape c short_escapes then 2 else if leb c 0x1f then 6 else len_utf8 c)
unfolding escaped_len has_escape
escaped_len-has_escape c = refl

-- `escaped_len` is the length of what is written for the character.
pub escaped_len-json_escape : (c : ℕ) → escaped_len c ≡ length (json_escape c)
unfolding json_escape
escaped_len-json_escape c =
    escaped_len-has_escape c
    ∙ ap (λ n. if has_escape c short_escapes then 2 else n) (sym (length-control c))
    ∙ sym (length-short_or c short_escapes _)
