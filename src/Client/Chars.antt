-- ===== src/Client/Chars.antt =====
-- What the form knows of characters (tx-client/src/editor.rs): their width in columns and whether
-- they are printable. A character is its code point.
use tx_ide_rs.Prelude.{
  ℕ, ◌+◌, Bool, true, false, ◌&&◌, ◌||◌, List, [], ◌∷◌, Text, leb, ◌==◌, if◌then◌else◌,
}
unfoldable pub use tx_ide_rs.Prelude.{is_whitespace}

-- `char::is_control`
unfoldable pub is_control : ℕ → Bool
is_control c = leb c 0x1f || (leb 0x7f c && leb c 0x9f)

unfoldable pub is_within : List (ℕ × ℕ) → ℕ → Bool
is_within [] c = false
is_within ((low, high) ∷ table) c = if leb low c && leb c high then true else is_within table c

abbrev pub format_or_private : List (ℕ × ℕ)
format_or_private =
    (0x00ad, 0x00ad)
    ∷ (0x0600, 0x0605)
    ∷ (0x061c, 0x061c)
    ∷ (0x06dd, 0x06dd)
    ∷ (0x070f, 0x070f)
    ∷ (0x0890, 0x0891)
    ∷ (0x08e2, 0x08e2)
    ∷ (0x180e, 0x180e)
    ∷ (0x200b, 0x200f)
    ∷ (0x202a, 0x202e)
    ∷ (0x2060, 0x2064)
    ∷ (0x2066, 0x206f)
    ∷ (0xe000, 0xf8ff)
    ∷ (0xfeff, 0xfeff)
    ∷ (0xfff9, 0xfffb)
    ∷ (0x110bd, 0x110bd)
    ∷ (0x1bca0, 0x1bca3)
    ∷ (0x1d173, 0x1d17a)
    ∷ (0xe0001, 0xe0001)
    ∷ (0xe0020, 0xe007f)
    ∷ (0xf0000, 0x10ffff)
    ∷ []

unfoldable pub is_printable : ℕ → Bool
unfolding is_whitespace is_control is_within
is_printable c =
    if c == 0x20
    then true
    else (if is_control c || is_whitespace c
        then false
        else (if is_within format_or_private c then false else true))

abbrev pub combining : List (ℕ × ℕ)
combining =
    (0x0300, 0x036f)
    ∷ (0x0483, 0x0487)
    ∷ (0x0591, 0x05bd)
    ∷ (0x05bf, 0x05bf)
    ∷ (0x05c1, 0x05c2)
    ∷ (0x05c4, 0x05c5)
    ∷ (0x05c7, 0x05c7)
    ∷ (0x0610, 0x061a)
    ∷ (0x064b, 0x065f)
    ∷ (0x0670, 0x0670)
    ∷ (0x06d6, 0x06dc)
    ∷ (0x06df, 0x06e4)
    ∷ (0x06e7, 0x06e8)
    ∷ (0x06ea, 0x06ed)
    ∷ (0x093c, 0x093c)
    ∷ (0x094d, 0x094d)
    ∷ (0x0e38, 0x0e3a)
    ∷ (0x0e48, 0x0e4b)
    ∷ (0x1ab0, 0x1abd)
    ∷ (0x1dc0, 0x1dff)
    ∷ (0x20d0, 0x20dc)
    ∷ (0x20e1, 0x20e1)
    ∷ (0x20e5, 0x20f0)
    ∷ (0x302a, 0x302f)
    ∷ (0x3099, 0x309a)
    ∷ (0xfe20, 0xfe2f)
    ∷ []

abbrev pub wide : List (ℕ × ℕ)
wide =
    (0x1100, 0x115f)
    ∷ (0x231a, 0x231b)
    ∷ (0x2329, 0x232a)
    ∷ (0x23e9, 0x23ec)
    ∷ (0x23f0, 0x23f0)
    ∷ (0x23f3, 0x23f3)
    ∷ (0x25fd, 0x25fe)
    ∷ (0x2614, 0x2615)
    ∷ (0x2648, 0x2653)
    ∷ (0x267f, 0x267f)
    ∷ (0x2693, 0x2693)
    ∷ (0x26a1, 0x26a1)
    ∷ (0x26aa, 0x26ab)
    ∷ (0x26bd, 0x26be)
    ∷ (0x26c4, 0x26c5)
    ∷ (0x26ce, 0x26ce)
    ∷ (0x26d4, 0x26d4)
    ∷ (0x26ea, 0x26ea)
    ∷ (0x26f2, 0x26f3)
    ∷ (0x26f5, 0x26f5)
    ∷ (0x26fa, 0x26fa)
    ∷ (0x26fd, 0x26fd)
    ∷ (0x2705, 0x2705)
    ∷ (0x270a, 0x270b)
    ∷ (0x2728, 0x2728)
    ∷ (0x274c, 0x274c)
    ∷ (0x274e, 0x274e)
    ∷ (0x2753, 0x2755)
    ∷ (0x2757, 0x2757)
    ∷ (0x2795, 0x2797)
    ∷ (0x27b0, 0x27b0)
    ∷ (0x27bf, 0x27bf)
    ∷ (0x2b1b, 0x2b1c)
    ∷ (0x2b50, 0x2b50)
    ∷ (0x2b55, 0x2b55)
    ∷ (0x2e80, 0x303e)
    ∷ (0x3041, 0x33ff)
    ∷ (0x3400, 0x4dbf)
    ∷ (0x4e00, 0x9fff)
    ∷ (0xa000, 0xa4cf)
    ∷ (0xa960, 0xa97f)
    ∷ (0xac00, 0xd7a3)
    ∷ (0xf900, 0xfaff)
    ∷ (0xfe10, 0xfe19)
    ∷ (0xfe30, 0xfe6f)
    ∷ (0xff00, 0xff60)
    ∷ (0xffe0, 0xffe6)
    ∷ (0x16fe0, 0x16fe4)
    ∷ (0x17000, 0x18cff)
    ∷ (0x1b000, 0x1b2ff)
    ∷ (0x1f004, 0x1f004)
    ∷ (0x1f0cf, 0x1f0cf)
    ∷ (0x1f18e, 0x1f18e)
    ∷ (0x1f191, 0x1f19a)
    ∷ (0x1f200, 0x1f2ff)
    ∷ (0x1f300, 0x1f320)
    ∷ (0x1f32d, 0x1f335)
    ∷ (0x1f337, 0x1f37c)
    ∷ (0x1f37e, 0x1f393)
    ∷ (0x1f3a0, 0x1f3ca)
    ∷ (0x1f3cf, 0x1f3d3)
    ∷ (0x1f3e0, 0x1f3f0)
    ∷ (0x1f3f4, 0x1f3f4)
    ∷ (0x1f3f8, 0x1f43e)
    ∷ (0x1f440, 0x1f440)
    ∷ (0x1f442, 0x1f4fc)
    ∷ (0x1f4ff, 0x1f53d)
    ∷ (0x1f54b, 0x1f54e)
    ∷ (0x1f550, 0x1f567)
    ∷ (0x1f57a, 0x1f57a)
    ∷ (0x1f595, 0x1f596)
    ∷ (0x1f5a4, 0x1f5a4)
    ∷ (0x1f5fb, 0x1f64f)
    ∷ (0x1f680, 0x1f6c5)
    ∷ (0x1f6cc, 0x1f6cc)
    ∷ (0x1f6d0, 0x1f6d2)
    ∷ (0x1f6d5, 0x1f6d7)
    ∷ (0x1f6dc, 0x1f6df)
    ∷ (0x1f6eb, 0x1f6ec)
    ∷ (0x1f6f4, 0x1f6fc)
    ∷ (0x1f7e0, 0x1f7eb)
    ∷ (0x1f7f0, 0x1f7f0)
    ∷ (0x1f90c, 0x1f93a)
    ∷ (0x1f93c, 0x1f945)
    ∷ (0x1f947, 0x1f9ff)
    ∷ (0x1fa70, 0x1faff)
    ∷ (0x20000, 0x2fffd)
    ∷ (0x30000, 0x3fffd)
    ∷ []

unfoldable pub char_width : ℕ → ℕ
unfolding is_within
char_width c = if is_within combining c then 0 else (if is_within wide c then 2 else 1)

unfoldable pub text_width : Text → ℕ
unfolding char_width
text_width [] = 0
text_width (c ∷ text) = char_width c + text_width text
