-- ===== src/Client/Paint/Cursor.antt =====
-- The cursor that is painted stands on the screen.
use tx_ide_rs.Prelude.{
  ℕ, zero, suc, ◌+◌, ◌-◌, ◌≤◌, ◌<◌, ◌≡◌, refl, min, false, Option, none, some, Text, leb,
  Bool-cases, inl, inr, arith,
}
use tx_ide_rs.Client.Chars.{text_width}
use tx_ide_rs.Client.Form.{at, Form, too_small}
use tx_ide_rs.Client.Paint.{part, scroll_from, scroll, scroll_fields, paint, render}

-- The offset does not pass the cursor, and the text between them is narrower than the field.
abbrev Shows : Text → ℕ → ℕ → ℕ → Type 0
Shows v position available offset =
    (offset ≤ position) × (text_width (part v offset position) < available)

scroll_from-Shows :
    (v : Text) (position available room offset : ℕ)
    → 0 < available
    → offset + room ≡ position
    → Shows v position available (scroll_from v position available room offset)
unfolding scroll_from
scroll_from-Shows v position available zero offset pos e =
    (omega arith, (let here : position - offset ≡ 0 = omega arith in rw (here, text_width) pos))
scroll_from-Shows v position available (suc room) offset pos e =
    elim (Bool-cases (leb available (text_width (part v offset position)))) [
      | inl hidden ↦
          rw hidden (scroll_from-Shows v position available room (offset + 1) pos (omega arith))
      | inr shown ↦ rw shown (omega arith, ground arith)
    ]

scroll-Shows :
    (v : Text) (position available offset : ℕ)
    → 0 < available
    → Shows v position available (scroll v position available offset)
unfolding scroll
scroll-Shows v position available offset pos =
    scroll_from-Shows v position available (position - min offset position) (min offset position)
      pos (omega arith)

at-Shows :
    (i available : ℕ) (f : Form)
    → 0 < available
    → Shows (at i f.values) (at i f.positions) available (at i (scroll_fields available f))
unfolding scroll_fields
at-Shows zero available f pos =
    scroll-Shows f.values.name f.positions.name available f.offsets.name pos
at-Shows (suc zero) available f pos =
    scroll-Shows f.values.tags f.positions.tags available f.offsets.tags pos
at-Shows (suc (suc i)) available f pos =
    scroll-Shows f.values.group f.positions.group available f.offsets.group pos

large_enough : (height width : ℕ) → too_small height width ≡ false → (8 < height) × (24 ≤ width)
unfolding too_small
large_enough height width h = ground arith

-- A painted cursor: on the screen.
abbrev pub OnScreen : ℕ → ℕ → Option (ℕ × ℕ) → Type 0
OnScreen height width none = ⊥
OnScreen height width (some (row, col)) = (row < height) × (col < width)

-- Painting a form whose active field is one of the three, on any screen with a row and a column,
-- leaves the cursor on the screen, and changes nothing of the form but how far its fields are scrolled.
pub render-OnScreen :
    (height width : ℕ) (f : Form)
    → f.active < 3
    → 0 < height
    → 0 < width
    → OnScreen height width (render height width f).0.cursor
      × ((render height width f).1 ≡ record f { offsets = (render height width f).1.offsets })
unfolding render paint
render-OnScreen height width f active tall broad = elim (Bool-cases (too_small height width)) [
  | inl small ↦ rw small ((tall, omega arith), refl)
  | inr large ↦
      (let big : (8 < height) × (24 ≤ width) = large_enough height width large in
        let shows = at-Shows f.active (width - 14) f (omega (arith, big.1)) in
        rw large ((omega (arith, big.0), omega (arith, big.1, shows.1)), refl))
]
