-- ===== src/Client/Decoder.antt =====
-- The decoder of the terminal's bytes (tx-client/src/editor.rs): `Decoder`.
pub mod Progress
pub mod Typed
use tx_ide_rs.Prelude.{
  ℕ, zero, suc, ◌+◌, ◌-◌, ◌*◌, Bool, true, false, ◌&&◌, ◌||◌, List, [], ◌∷◌, ◌++◌, Option, none,
  some, Text, codes, text_eq, ltb, leb, ◌==◌, if◌then◌else◌, length, take, drop,
}
use tx_ide_rs.Client.Form.{
  Key, char, alt, up, down, left, right, home, end, delete, back_tab, enter, resize, other,
}

-- A key with the number of bytes that it takes, or a prefix of a longer sequence.
pub data Decoded : Type 0 where
  decoded : Key → ℕ → Decoded
  incomplete : Decoded

-- The first byte from 0x40 to 0x7e, after the bytes before it.
unfoldable pub final_byte : Text → Text → Option (Text × ℕ)
final_byte params [] = none
final_byte params (b ∷ bytes) =
    let later = final_byte (params ++ b ∷ []) bytes in
    if leb 0x40 b && leb b 0x7e then some (params, b) else later

abbrev is_one_of : Text → Text → Text → Bool
is_one_of params x y = text_eq params x || text_eq params y

unfoldable pub csi_key : Text → ℕ → Key
csi_key params b =
    let bare = text_eq params [] in
    if bare && b == b'A'
    then up
    else (if bare && b == b'B'
        then down
        else (if bare && b == b'C'
            then right
            else (if bare && b == b'D'
                then left
                else (if (bare && b == b'H')
                      || (is_one_of params (codes "1") (codes "7") && b == b'~')
                    then home
                    else (if (bare && b == b'F')
                          || (is_one_of params (codes "4") (codes "8") && b == b'~')
                        then end
                        else (if text_eq params (codes "3") && b == b'~'
                            then delete
                            else (if bare && b == b'Z' then back_tab else other)))))))

abbrev pub csi_decoded : Option (Text × ℕ) → Decoded
csi_decoded none = incomplete
csi_decoded (some (params, b)) = decoded (csi_key params b) (3 + length params)

-- `csi`, of the bytes after `ESC [`.
unfoldable pub csi : Text → Decoded
unfolding final_byte csi_key
csi bytes = csi_decoded (final_byte [] bytes)

unfoldable pub ss3_key : ℕ → Key
ss3_key b =
    if b == b'A'
    then up
    else (if b == b'B'
        then down
        else (if b == b'C'
            then right
            else (if b == b'D'
                then left
                else (if b == b'H'
                    then home
                    else (if b == b'F' then end else (if b == b'M' then enter else other))))))

abbrev pub ss3 : Text → Decoded
ss3 [] = incomplete
ss3 (b ∷ bytes) = decoded (ss3_key b) 3

-- What follows an `ESC`.
unfoldable pub escaped : Text → Decoded
unfolding csi ss3_key
escaped [] = incomplete
escaped (b ∷ bytes) =
    if b == b'['
    then csi bytes
    else (if b == b'O'
        then ss3 bytes
        else (if leb 0x20 b && leb b 0x7e then decoded (alt b) 2 else decoded (char 0x1b) 1))

abbrev pub is_continuation : ℕ → Bool
is_continuation b = leb 0x80 b && leb b 0xbf

-- `str::from_utf8` of a whole character's bytes, and its code point.
unfoldable pub from_utf8 : Text → Option ℕ
from_utf8 (a ∷ []) = if leb a 0x7f then some a else none
from_utf8 (a ∷ b ∷ []) =
    if (leb 0xc2 a && leb a 0xdf) && is_continuation b
    then some ((a - 0xc0) * 64 + (b - 0x80))
    else none
from_utf8 (a ∷ b ∷ c ∷ []) =
    let low = if a == 0xe0 then 0xa0 else 0x80 in
    let high = if a == 0xed then 0x9f else 0xbf in
    if (leb 0xe0 a && leb a 0xef) && ((leb low b && leb b high) && is_continuation c)
    then some ((a - 0xe0) * 4096 + (b - 0x80) * 64 + (c - 0x80))
    else none
from_utf8 (a ∷ b ∷ c ∷ d ∷ []) =
    let low = if a == 0xf0 then 0x90 else 0x80 in
    let high = if a == 0xf4 then 0x8f else 0xbf in
    if (leb 0xf0 a && leb a 0xf4)
      && ((leb low b && leb b high) && (is_continuation c && is_continuation d))
    then some ((a - 0xf0) * 262144 + (b - 0x80) * 4096 + (c - 0x80) * 64 + (d - 0x80))
    else none
from_utf8 _ = none

-- The length of a character by its first byte.
unfoldable pub utf8_length : ℕ → Option ℕ
utf8_length b =
    if leb b 0x7f
    then some 1
    else (if leb 0xc0 b && leb b 0xdf
        then some 2
        else (if leb 0xe0 b && leb b 0xef
            then some 3
            else (if leb 0xf0 b && leb b 0xf7 then some 4 else none)))

abbrev pub decoded_char : Option ℕ → ℕ → Decoded
decoded_char none len = decoded other 1
decoded_char (some c) len = decoded (char c) len

unfoldable pub utf8 : Option ℕ → Text → Decoded
unfolding from_utf8
utf8 none bytes = decoded other 1
utf8 (some len) bytes =
    if ltb (length bytes) len then incomplete else decoded_char (from_utf8 (take len bytes)) len

unfoldable pub decode : Text → Decoded
unfolding escaped utf8 utf8_length
decode [] = incomplete
decode (first ∷ bytes) =
    if first == 0x1b then escaped bytes else utf8 (utf8_length first) (first ∷ bytes)

-- `next`: the key, if there is one, and what is left of the pending bytes. With `flush` the first of
-- them is given up as a key of its own.
abbrev pub give_up : Bool → Text → Option Key × Text
give_up true (b ∷ bytes) = (some (if b == 0x1b then char 0x1b else other), bytes)
give_up _ pending = (none, pending)

abbrev pub taken : Decoded → Bool → Text → Option Key × Text
taken (decoded key used) flush pending = (some key, drop used pending)
taken incomplete flush pending = give_up flush pending

unfoldable pub next : Bool → Text → Option Key × Text
unfolding decode
next flush pending = taken (decode pending) flush pending
