-- ===== src/Tests/Client.antt =====
-- The theorems on the session editor at concrete inputs.
use tx_ide_rs.Prelude.{
  ◌<◌, ◌≡◌, refl, true, false, [], ◌∷◌, ◌++◌, Option, some, codes, arith, length, inl,
}
use tx_ide_rs.Client.Form.{
  char, down, up, Outcome, Form, normal, new_form, handle, too_small, position, value,
}
use tx_ide_rs.Client.Form.Within.{IsInText}
use tx_ide_rs.Client.Form.Bounds.{new_form-IsInText, handle-IsInText}
use tx_ide_rs.Client.Form.Resting.{press, press-past_end}
use tx_ide_rs.Client.Decoder.{decoded, decode, next}
use tx_ide_rs.Client.Decoder.Progress.{Takes, next-Takes}
use tx_ide_rs.Client.Decoder.Typed.{utf8_bytes, decode-utf8_bytes}
use tx_ide_rs.Client.Paint.{render}
use tx_ide_rs.Client.Paint.Cursor.{OnScreen, render-OnScreen}

abbrev sample_form : Form
sample_form = new_form (codes "auth") (codes "a, b") [] (codes "main")

handle-IsInText_example :
    (r : Option Outcome × Form) × (handle (char b'x') 24 80 sample_form ≡ some r) × IsInText r.1
handle-IsInText_example =
    handle-IsInText (char b'x') 24 80 sample_form
      (new_form-IsInText (codes "auth") (codes "a, b") [] (codes "main"))

large : too_small 24 80 ≡ false
unfolding too_small
large = refl

press-past_end_example :
    (f : Form) × (press 24 80 (char b'A' ∷ down ∷ char 0x1b ∷ up ∷ []) sample_form ≡ some f)
    × (f.mode ≡ normal)
    × (f.active ≡ 0)
    × (position f ≡ 4)
    × (value f ≡ codes "auth")
press-past_end_example = press-past_end (codes "auth") (codes "a, b") [] (codes "main") 24 80 large

next-Takes_example : Takes true (0x1b ∷ b'[' ∷ []) (next true (0x1b ∷ b'[' ∷ []))
next-Takes_example = next-Takes true (0x1b ∷ b'[' ∷ [])

decode-utf8_bytes_example :
    decode (utf8_bytes 0x20ac ++ codes "x") ≡ decoded (char 0x20ac) (length (utf8_bytes 0x20ac))
decode-utf8_bytes_example =
    decode-utf8_bytes 0x20ac (codes "x") (inl (omega arith)) (λ e. omega (arith, e))

sample_form-active : sample_form.active < 3
unfolding new_form
sample_form-active = omega arith

render-OnScreen_example :
    OnScreen 24 80 (render 24 80 sample_form).0.cursor
    × ((render 24 80 sample_form).1
        ≡ record sample_form { offsets = (render 24 80 sample_form).1.offsets })
render-OnScreen_example =
    render-OnScreen 24 80 sample_form sample_form-active (omega arith) (omega arith)
