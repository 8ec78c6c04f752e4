-- ===== src/Client/Paint.antt =====
-- The painting of the form (tx-client/src/editor.rs): `Draw`, `Frame` and `Form::render`. The
-- escape codes of a style are not modelled.
pub mod Cursor
use tx_ide_rs.Prelude.{
  ℕ, zero, suc, ◌+◌, ◌-◌, ◌*◌, min, Bool, true, false, not, ◌&&◌, List, [], ◌∷◌, ◌++◌, Option, none,
  some, Text, codes, ltb, leb, ◌==◌, if◌then◌else◌, length, take, drop, any,
}
use tx_ide_rs.Client.Chars.{is_whitespace, char_width, text_width}
use tx_ide_rs.Client.Form.{Three, at, Form, Mode, normal, insert, hint_row, too_small}

pub data Style : Type 0 where
  plain accent muted selected automatic automatic_selected warning : Style

pub record Draw : Type 0 where
  pub row : ℕ
  pub col : ℕ
  pub text : Text
  pub style : Style

pub record Frame : Type 0 where
  pub draws : List Draw
  pub cursor : Option (ℕ × ℕ)

-- `Frame::add` and `Frame::addn`
abbrev pub add : ℕ → ℕ → Text → Style → Draw
add row col text style = record { row = row; col = col; text = text; style = style }

abbrev pub addn : ℕ → ℕ → Text → ℕ → Style → Draw
addn row col text n style = add row col (take n text) style

abbrev pub field_column : ℕ
field_column = 12

-- The part of a text from one position up to another.
abbrev pub part : Text → ℕ → ℕ → Text
part v i j = take (j - i) (drop i v)

-- The loop that moves the offset on until the cursor is visible; at the cursor itself no column is
-- taken, which ends it.
unfoldable pub scroll_from : Text → ℕ → ℕ → ℕ → ℕ → ℕ
unfolding text_width
scroll_from v position available zero offset = offset
scroll_from v position available (suc room) offset =
    let further = scroll_from v position available room (offset + 1) in
    if leb available (text_width (part v offset position)) then further else offset

unfoldable pub scroll : Text → ℕ → ℕ → ℕ → ℕ
unfolding scroll_from
scroll v position available offset =
    let start = min offset position in scroll_from v position available (position - start) start

-- The characters that fit.
unfoldable pub visible_from : ℕ → ℕ → Text → Text
unfolding char_width
visible_from available used [] = []
visible_from available used (c ∷ text) =
    let more = c ∷ visible_from available (used + char_width c) text in
    if ltb available (used + char_width c) then [] else more

unfoldable pub group_is_explicit : Form → Bool
unfolding is_whitespace
group_is_explicit f = any (λ c. not (is_whitespace c)) f.values.group

abbrev pub spaces : ℕ → Text
spaces zero = []
spaces (suc n) = 0x20 ∷ spaces n

abbrev pub label : ℕ → Text
label zero = codes "Name"
label (suc zero) = codes "Tags"
label (suc (suc i)) = codes "Group"

-- The value of a field, or the group that is derived where the group field is empty.
abbrev pub draw_value : ℕ → Bool → Text → Text → Text → ℕ → Draw
draw_value index active value visible automatic_group available =
    let row = index * 2 + 1 in
    if index == 2 && length value == 0
    then addn row field_column automatic_group available
        (if active then automatic_selected else automatic)
    else add row field_column visible (if active then selected else plain)

unfoldable pub draw_field : Form → ℕ → ℕ → ℕ → List Draw
unfolding visible_from
draw_field f available index offset =
    let value = at index f.values in
    let active = index == f.active in
    let row = index * 2 + 1 in
    let marker = if active then 0x203a else 0x20 in
    let visible = visible_from available 0 (drop offset value) in
    add row 2 (marker ∷ 0x20 ∷ (label index ++ codes ":")) (if active then accent else muted)
    ∷ add row (field_column - 1) (spaces (available + 2)) (if active then selected else plain)
    ∷ draw_value index active value visible f.automatic_group available
    ∷ []

abbrev pub tags_help : Text
tags_help = codes "Comma-separated · empty clears tags"

abbrev pub group_help : Bool → Text
group_help true = codes "Explicit · empty restores automatic"
group_help false = codes "Automatic · type to override"

abbrev pub message : Bool → Mode → Text
message true mode = codes "Name cannot be empty."
message false normal = codes "NORMAL  hjkl move   i a A type   Enter save   Esc cancel"
message false insert = codes "INSERT  Esc normal   Enter save"

abbrev pub too_small_text : Text
too_small_text = codes "Resize to edit"

unfoldable pub scroll_fields : ℕ → Form → Three ℕ
unfolding scroll
scroll_fields available f = record {
  name = scroll f.values.name f.positions.name available f.offsets.name;
  tags = scroll f.values.tags f.positions.tags available f.offsets.tags;
  group = scroll f.values.group f.positions.group available f.offsets.group;
}

unfoldable pub paint : Form → ℕ → Frame
unfolding draw_field group_is_explicit text_width
paint f width =
    let available = width - 14 in
    let offset = at f.active f.offsets in
    let position = at f.active f.positions in
    record {
      draws =
          draw_field f available 0 f.offsets.name
          ++ (draw_field f available 1 f.offsets.tags
              ++ (draw_field f available 2 f.offsets.group
                  ++ addn 4 field_column tags_help (width - 14) muted
                    ∷ addn 6 field_column (group_help (group_is_explicit f)) (width - 14) muted
                    ∷ addn hint_row 2 (message f.error f.mode) (width - 4)
                        (if f.error then warning else muted)
                    ∷ []));
      cursor = some (
        f.active * 2 + 1,
        field_column + text_width (part (at f.active f.values) offset position),
      );
    }

unfoldable pub render : ℕ → ℕ → Form → Frame × Form
unfolding too_small scroll_fields paint
render height width f =
    let g = record f { offsets = scroll_fields (width - 14) f } in
    let small : Frame = record {
      draws = addn 0 0 too_small_text (width - 1) plain ∷ [];
      cursor = some (0, min (length too_small_text) (width - 1));
    } in
    if too_small height width then (small, f) else (paint g width, g)
