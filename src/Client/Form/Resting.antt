-- ===== src/Client/Form/Resting.antt =====
-- Where the cursor rests in normal mode.
use tx_ide_rs.Prelude.{
  ℕ, ◌-◌, ◌≡◌, refl, false, List, [], ◌∷◌, Option, none, some, Text, length, min, ◌∙◌,
}
use tx_ide_rs.Client.Form.{
  Key, char, down, up, normal, insert, Form, new_form, value, position, too_small, handle,
}

-- The form after some keys, none of which finishes it.
abbrev pub press : ℕ → ℕ → List Key → Form → Option Form
press height width [] f = some f
press height width (key ∷ keys) f = elim (handle key height width f) [
  | some (none, g) ↦ press height width keys g
  | _ ↦ none
]

press-cons :
    (height width : ℕ) (key : Key) (keys : List Key) (f g : Form)
    → handle key height width f ≡ some (none, g)
    → press height width (key ∷ keys) f ≡ press height width keys g
press-cons height width key keys f g h = rw (h, press)

-- On a screen that is large enough, the keys `A`, Down, Esc and Up leave every new form in normal
-- mode with the cursor of the name past its last character, on no character at all.
pub press-past_end :
    (name tags group automatic : Text) (height width : ℕ)
    → too_small height width ≡ false
    → (f : Form) × (press height width
          (char b'A' ∷ down ∷ char 0x1b ∷ up ∷ [])
          (new_form name tags group automatic)
        ≡ some f)
      × (f.mode ≡ normal)
      × (f.active ≡ 0)
      × (position f ≡ length name)
      × (value f ≡ name)
unfolding handle new_form too_small
press-past_end name tags group automatic height width large =
    let f = new_form name tags group automatic in
    let typing = record f {
      mode = insert;
      positions = record f.positions { name = length name };
    } in
    let lower = record typing { active = 1 } in
    let back = min (length tags - 1 - 1) (length tags - 1) in
    let rested = record lower {
      mode = normal;
      positions = record lower.positions { tags = back };
    } in
    let past = record rested { active = 0 } in
    let typed : handle (char b'A') height width f ≡ some (none, typing) = rw large in
    let lowered : handle down height width typing ≡ some (none, lower) = rw large in
    let left : handle (char 0x1b) height width lower ≡ some (none, rested) = refl in
    let raised : handle up height width rested ≡ some (none, past) = rw large in
    (
      past,
      (press-cons height width (char b'A') (down ∷ char 0x1b ∷ up ∷ []) f typing typed
          ∙ press-cons height width down (char 0x1b ∷ up ∷ []) typing lower lowered
          ∙ press-cons height width (char 0x1b) (up ∷ []) lower rested left
          ∙ press-cons height width up [] rested past raised),
      refl,
      refl,
      refl,
      refl,
    )
