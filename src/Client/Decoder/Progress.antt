-- ===== src/Client/Decoder/Progress.antt =====
-- The decoder makes progress within its buffer, and reads typed characters back.
use tx_ide_rs.Prelude.{
  ℕ, ◌+◌, ◌≤◌, ◌≡◌, refl, Bool, true, false, ◌&&◌, [], ◌∷◌, ◌++◌, Option, none, some, Text, ltb,
  leb, ◌==◌, if◌then◌else◌, length, take, drop, length-append, arith, Bool-cases, inl, inr, ◌⊎◌,
}
use tx_ide_rs.Client.Form.{Key}
use tx_ide_rs.Client.Decoder.{
  Decoded, decoded, incomplete, final_byte, csi, escaped, from_utf8, utf8_length, utf8, decode,
  next, csi_decoded, ss3, decoded_char, taken,
}

-- A decoded key takes at least one byte and no more than there are.
abbrev Fits : ℕ → Decoded → Type 0
Fits n (decoded key used) = (1 ≤ used) × (used ≤ n)
Fits n incomplete = Unit

if-Fits :
    (n : ℕ) (t : Bool) (x y : Decoded)
    → (t ≡ true → Fits n x)
    → (t ≡ false → Fits n y)
    → Fits n (if t then x else y)
if-Fits n true x y h h' = h refl
if-Fits n false x y h h' = h' refl

final_byte-length :
    (params bytes : Text) (p : Text) (b : ℕ)
    → final_byte params bytes ≡ some (p, b)
    → length p + 1 ≤ length params + length bytes
unfolding final_byte
final_byte-length params [] p b h = cc
final_byte-length params (c ∷ bytes) p b h = elim (Bool-cases (leb 0x40 c && leb c 0x7e)) [
  | inl final ↦
      (let same : ◌≡◌ {A = Option (Text × ℕ)} (some (params, c)) (some (p, b)) = rw final at h in
        let at : params ≡ p = cc in rw (← at) (omega arith))
  | inr more ↦
      (let rest = final_byte-length (params ++ c ∷ []) bytes p b (rw more at h) in
        omega (arith, length-append params (c ∷ []), rest))
]

csi-Fits : (bytes : Text) → Fits (2 + length bytes) (csi bytes)
unfolding csi
csi-Fits bytes = by_found (final_byte [] bytes) (final_byte-length [] bytes)
  where
    by_found :
        (o : Option (Text × ℕ))
        → ((p : Text) (b : ℕ) → o ≡ some (p, b) → length p + 1 ≤ 0 + length bytes)
        → Fits (2 + length bytes) (csi_decoded o)
    by_found none h = tt
    by_found (some (p, b)) h = omega (arith, h p b refl)

ss3-Fits : (bytes : Text) → Fits (2 + length bytes) (ss3 bytes)
ss3-Fits [] = tt
ss3-Fits (b ∷ bytes) = omega arith

escaped-Fits : (bytes : Text) → Fits (1 + length bytes) (escaped bytes)
unfolding escaped
escaped-Fits [] = tt
escaped-Fits (b ∷ bytes) =
    let n = 1 + length (b ∷ bytes) in
    let n_eq : 2 + length bytes ≡ n = omega arith in
    if-Fits n (b == b'[') _ _ (λ _. rw (← n_eq) (csi-Fits bytes))
      λ _.
        if-Fits n (b == b'O') _ _ (λ _. rw (← n_eq) (ss3-Fits bytes))
          λ _. if-Fits n (leb 0x20 b && leb b 0x7e) _ _ (λ _. omega arith) (λ _. omega arith)

decoded_char-Fits : (n len : ℕ) (o : Option ℕ) → 1 ≤ len → len ≤ n → Fits n (decoded_char o len)
decoded_char-Fits n len none h h' = omega arith
decoded_char-Fits n len (some c) h h' = (h, h')

utf8_length_pos : (b len : ℕ) → utf8_length b ≡ some len → 1 ≤ len
unfolding utf8_length
utf8_length_pos b len h = ground arith

utf8-Fits :
    (o : Option ℕ) (b : ℕ) (bytes : Text)
    → ((len : ℕ) → o ≡ some len → 1 ≤ len)
    → Fits (length (b ∷ bytes)) (utf8 o (b ∷ bytes))
unfolding utf8
utf8-Fits none b bytes h = omega arith
utf8-Fits (some len) b bytes h =
    if-Fits (length (b ∷ bytes)) (ltb (length (b ∷ bytes)) len) _ _ (λ _. tt)
      (λ enough.
        decoded_char-Fits (length (b ∷ bytes)) len (from_utf8 (take len (b ∷ bytes))) (h len refl)
          (ground arith))

decode-Fits : (bytes : Text) → Fits (length bytes) (decode bytes)
unfolding decode
decode-Fits [] = tt
decode-Fits (b ∷ bytes) =
    let n_eq : 1 + length bytes ≡ length (b ∷ bytes) = omega arith in
    if-Fits (length (b ∷ bytes)) (b == 0x1b) _ _ (λ _. rw (← n_eq) (escaped-Fits bytes))
      (λ _. utf8-Fits (utf8_length b) b bytes (utf8_length_pos b))

-- A key takes bytes off the front of the buffer; without one the buffer is as it was, and it is empty
-- if it was to be flushed.
abbrev pub Takes : Bool → Text → Option Key × Text → Type 0
Takes flush pending (some key, rest) =
    (n : ℕ) × (1 ≤ n) × (n ≤ length pending) × (rest ≡ drop n pending)
Takes flush pending (none, rest) = (rest ≡ pending) × ((flush ≡ false) ⊎ (pending ≡ []))

taken-Takes :
    (d : Decoded) (flush : Bool) (pending : Text)
    → Fits (length pending) d
    → Takes flush pending (taken d flush pending)
taken-Takes (decoded key used) flush pending h = (used, h.0, h.1, refl)
taken-Takes incomplete true [] h = (refl, inr refl)
taken-Takes incomplete true (b ∷ bytes) h = (1, omega arith, omega arith, refl)
taken-Takes incomplete false [] h = (refl, inl refl)
taken-Takes incomplete false (b ∷ bytes) h = (refl, inl refl)

-- Whatever bytes are pending, a key that is read takes at least one of them and no more than there
-- are, off the front; without a key they stay, and flushing always yields one if there are any.
pub next-Takes : (flush : Bool) (pending : Text) → Takes flush pending (next flush pending)
unfolding next
next-Takes flush pending = taken-Takes (decode pending) flush pending (decode-Fits pending)
