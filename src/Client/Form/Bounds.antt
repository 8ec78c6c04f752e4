-- ===== src/Client/Form/Bounds.antt =====
-- No key makes the form panic: the cursor of every field stays within its text.
use mathlib.Core.Option
use tx_ide_rs.Prelude.{
  ℕ, suc, ◌+◌, ◌-◌, ◌≤◌, ◌<◌, ◌≡◌, refl, min, Bool, true, false, ◌&&◌, ◌||◌, ◌∷◌, ◌++◌, Option,
  none, some, Text, ltb, leb, ◌==◌, if◌then◌else◌, length, take, drop, all, length-append, arith,
  Bool-cases, inl, inr, ◌⊎◌,
}
use tx_ide_rs.Client.Chars.{is_whitespace, is_printable}
use tx_ide_rs.Client.Form.{
  Key, char, alt, up, down, left, right, home, end, delete, back_tab, enter, resize, other, Mode,
  normal, insert, Outcome, cancel, Form, new_form, value, position, move_to, set_value,
  clamp_to_text, too_small, vec_remove, vec_insert, drain_to, insert_char, delete_char, insert_key,
  next_field, previous_field, start_insert, normal_char, normal_key, clamp_if_normal, is_char,
  handle_normal, is_enter, is_down, is_up, escape, press_enter, edit, handle,
}
use tx_ide_rs.Client.Form.Within.{
  IsInText, at-Within, move-Within, change-Within, set-Within, clamp-Within, length-take,
}

-- The operation does not panic and leaves the cursors within the texts.
abbrev Keeps : Option Form → Type 0
Keeps o = (g : Form) × (o ≡ some g) × IsInText g

if-Keeps :
    (t : Bool) (x y : Option Form)
    → (t ≡ true → Keeps x)
    → (t ≡ false → Keeps y)
    → Keeps (if t then x else y)
if-Keeps true x y h h' = h refl
if-Keeps false x y h h' = h' refl

keep : (f : Form) → IsInText f → Keeps (some f)
keep f h = (f, refl, h)

move : (p : ℕ) (f : Form) → IsInText f → p ≤ length (value f) → Keeps (some (move_to p f))
move p f h b = keep (move_to p f) (move-Within f.active p f.values f.positions h b)

in_text : (f : Form) → IsInText f → position f ≤ length (value f)
in_text f h = at-Within f.active f.values f.positions h

delete_char-Keeps : (f : Form) → IsInText f → Keeps (delete_char f)
unfolding delete_char
delete_char-Keeps f h =
    if-Keeps (ltb (position f) (length (value f))) _ _
      (λ inside.
        let v = take (position f) (value f) ++ drop (suc (position f)) (value f) in
        let long : position f ≤ length v = omega (
          arith,
          in_text f h,
          length-append (take (position f) (value f)) (drop (suc (position f)) (value f)),
          length-take (position f) (value f) (in_text f h),
        ) in
        (set_value v f, rw inside, set-Within f.active v f.values f.positions h long))
      (λ _. keep f h)

backspace-Keeps :
    (f : Form)
    → IsInText f
    → 0 < position f
    → Keeps (
        Option.map
          (λ v. move_to (position f - 1) (set_value v f))
          (vec_remove (position f - 1) (value f)))
backspace-Keeps f h pos =
    let inside : ltb (position f - 1) (length (value f)) ≡ true = ground (arith, in_text f h) in
    let v = take (position f - 1) (value f) ++ drop (suc (position f - 1)) (value f) in
    let long : position f - 1 ≤ length v = omega (
      arith,
      in_text f h,
      length-append (take (position f - 1) (value f)) (drop (suc (position f - 1)) (value f)),
      length-take (position f - 1) (value f) (omega (arith, in_text f h)),
    ) in
    (
      move_to (position f - 1) (set_value v f),
      rw inside,
      change-Within f.active (position f - 1) v f.values f.positions h long,
    )

insert-Keeps :
    (f : Form) (c : ℕ)
    → IsInText f
    → Keeps (
        Option.map
          (λ v. move_to (position f + 1) (set_value v f))
          (vec_insert (position f) c (value f)))
insert-Keeps f c h =
    let inside : leb (position f) (length (value f)) ≡ true = ground (arith, in_text f h) in
    let v = take (position f) (value f) ++ c ∷ drop (position f) (value f) in
    let long : position f + 1 ≤ length v = omega (
      arith,
      in_text f h,
      length-append (take (position f) (value f)) (c ∷ drop (position f) (value f)),
      length-take (position f) (value f) (in_text f h),
    ) in
    (
      move_to (position f + 1) (set_value v f),
      rw inside,
      change-Within f.active (position f + 1) v f.values f.positions h long,
    )

drain-Keeps :
    (f : Form)
    → IsInText f
    → Keeps (Option.map (λ v. move_to 0 (set_value v f)) (drain_to (position f) (value f)))
drain-Keeps f h =
    let inside : leb (position f) (length (value f)) ≡ true = ground (arith, in_text f h) in
    (
      move_to 0 (set_value (drop (position f) (value f)) f),
      rw inside,
      change-Within f.active 0 _ f.values f.positions h (omega arith),
    )

insert_char-Keeps : (c : ℕ) (f : Form) → IsInText f → Keeps (insert_char c f)
unfolding insert_char
insert_char-Keeps c f h =
    if-Keeps (c == 0x02) _ _ (λ _. move _ f h (omega (arith, in_text f h)))
      λ _.
        if-Keeps (c == 0x06) _ _ (λ _. move _ f h (omega arith))
          λ _.
            if-Keeps (c == 0x01) _ _ (λ _. move _ f h (omega arith))
              λ _.
                if-Keeps (c == 0x05) _ _ (λ _. move _ f h (omega arith))
                  λ _.
                    if-Keeps ((c == 0x7f || c == 0x08) && ltb 0 (position f)) _ _
                      (λ back. backspace-Keeps f h (ground arith))
                      λ _.
                        if-Keeps (c == 0x15) _ _ (λ _. drain-Keeps f h)
                          λ _.
                            if-Keeps (c == 0x0b) _ _
                              (λ _. keep _ (
                                set-Within f.active _ f.values f.positions h (
                                  omega (
                                    arith,
                                    in_text f h,
                                    length-take (position f) (value f) (in_text f h),
                                  ))))
                              λ _.
                                if-Keeps (is_printable c) _ _ (λ _. insert-Keeps f c h)
                                  (λ _. keep f h)

insert_key-Keeps : (key : Key) (f : Form) → IsInText f → Keeps (insert_key key f)
unfolding insert_key
insert_key-Keeps left f h = move _ f h (omega (arith, in_text f h))
insert_key-Keeps right f h = move _ f h (omega arith)
insert_key-Keeps home f h = move _ f h (omega arith)
insert_key-Keeps end f h = move _ f h (omega arith)
insert_key-Keeps delete f h = delete_char-Keeps f h
insert_key-Keeps (char c) f h = insert_char-Keeps c f h
insert_key-Keeps (alt c) f h = keep f h
insert_key-Keeps up f h = keep f h
insert_key-Keeps down f h = keep f h
insert_key-Keeps back_tab f h = keep f h
insert_key-Keeps enter f h = keep f h
insert_key-Keeps resize f h = keep f h
insert_key-Keeps other f h = keep f h

Mode-cases : (m : Mode) → (m ≡ normal) ⊎ (m ≡ insert)
Mode-cases normal = inl refl
Mode-cases insert = inr refl

-- Before the clamp the cursor of the active field may stand outside.
clamp-IsInText : (p : ℕ) (f : Form) → IsInText f → IsInText (clamp_to_text (move_to p f))
unfolding clamp_to_text
clamp-IsInText p f h = clamp-Within f.active p f.values f.positions h

abbrev Clamps : Option Form → Type 0
Clamps o = (g : Form) × (o ≡ some g) × IsInText (clamp_if_normal g)

if-Clamps :
    (t : Bool) (x y : Option Form)
    → (t ≡ true → Clamps x)
    → (t ≡ false → Clamps y)
    → Clamps (if t then x else y)
if-Clamps true x y h h' = h refl
if-Clamps false x y h h' = h' refl

clamp_if_normal-IsInText : (f : Form) → IsInText f → IsInText (clamp_if_normal f)
unfolding clamp_if_normal clamp_to_text
clamp_if_normal-IsInText f h = elim (Mode-cases f.mode) [
  | inl at_rest ↦
      rw at_rest (move-Within f.active _ f.values f.positions h (omega (arith, in_text f h)))
  | inr typing ↦ rw typing h
]

within : (g : Form) → IsInText g → Clamps (some g)
within g h = (g, refl, clamp_if_normal-IsInText g h)

right-Clamps :
    (f : Form) → IsInText f → f.mode ≡ normal → Clamps (some (move_to (position f + 1) f))
unfolding clamp_if_normal
right-Clamps f h at_rest =
    (move_to (position f + 1) f, refl, rw at_rest (clamp-IsInText (position f + 1) f h))

Keeps-Clamps : (o : Option Form) → Keeps o → Clamps o
Keeps-Clamps o (g, e, h) = (g, e, clamp_if_normal-IsInText g h)

normal_char-Clamps : (c : ℕ) (f : Form) → IsInText f → f.mode ≡ normal → Clamps (normal_char c f)
unfolding normal_char
normal_char-Clamps c f h at_rest =
    let moves = λ (p : ℕ) (b : p ≤ length (value f)).
      within (move_to p f) (move-Within f.active p f.values f.positions h b) in
    let types = λ (p : ℕ) (b : p ≤ length (value f)).
      within (start_insert p f) (move-Within f.active p f.values f.positions h b) in
    if-Clamps (c == b'j') _ _ (λ _. within (next_field f) h)
      λ _.
        if-Clamps (c == b'k') _ _ (λ _. within (previous_field f) h)
          λ _.
            if-Clamps (c == b'h') _ _ (λ _. moves (position f - 1) (omega (arith, in_text f h)))
              λ _.
                if-Clamps (c == b'l') _ _ (λ _. right-Clamps f h at_rest)
                  λ _.
                    if-Clamps (c == b'0' || c == b'^') _ _ (λ _. moves 0 (omega arith))
                      λ _.
                        if-Clamps (c == b'$') _ _ (λ _. moves (length (value f)) (omega arith))
                          λ _.
                            if-Clamps (c == b'i') _ _ (λ _. within (record f { mode = insert }) h)
                              λ _.
                                if-Clamps (c == b'a') _ _
                                  (λ _.
                                    types (min (length (value f)) (position f + 1)) (omega arith))
                                  λ _.
                                    if-Clamps (c == b'A') _ _
                                      (λ _. types (length (value f)) (omega arith))
                                      λ _.
                                        if-Clamps (c == b'I') _ _ (λ _. types 0 (omega arith))
                                          λ _.
                                            if-Clamps (c == b'x') _ _
                                              (λ _.
                                                Keeps-Clamps (delete_char f)
                                                  (delete_char-Keeps f h))
                                              (λ _. within f h)

normal_key-Clamps :
    (key : Key) (f : Form) → IsInText f → f.mode ≡ normal → Clamps (normal_key key f)
unfolding normal_key
normal_key-Clamps left f h e =
    Keeps-Clamps _ (move (position f - 1) f h (omega (arith, in_text f h)))
normal_key-Clamps right f h e = right-Clamps f h e
normal_key-Clamps home f h e = Keeps-Clamps _ (move 0 f h (omega arith))
normal_key-Clamps end f h e = Keeps-Clamps _ (move (length (value f)) f h (omega arith))
normal_key-Clamps delete f h e = Keeps-Clamps _ (delete_char-Keeps f h)
normal_key-Clamps (char c) f h e = normal_char-Clamps c f h e
normal_key-Clamps (alt c) f h e = within f h
normal_key-Clamps up f h e = within f h
normal_key-Clamps down f h e = within f h
normal_key-Clamps back_tab f h e = within f h
normal_key-Clamps enter f h e = within f h
normal_key-Clamps resize f h e = within f h
normal_key-Clamps other f h e = within f h

-- A key is handled without a panic, and the cursors of the form that it leaves stand within the texts.
abbrev Handles : Option (Option Outcome × Form) → Type 0
Handles o = (r : Option Outcome × Form) × (o ≡ some r) × IsInText r.1

if-Handles :
    (t : Bool) (x y : Option (Option Outcome × Form))
    → (t ≡ true → Handles x)
    → (t ≡ false → Handles y)
    → Handles (if t then x else y)
if-Handles true x y h h' = h refl
if-Handles false x y h h' = h' refl

handle_normal-Handles :
    (key : Key) (f : Form) → IsInText f → f.mode ≡ normal → Handles (handle_normal key f)
unfolding handle_normal
handle_normal-Handles key f h e =
    let (g, done, clamped) = normal_key-Clamps key f h e in
    if-Handles (is_char b'q' key) _ _ (λ _. ((some cancel, f), refl, h))
      (λ _. ((none, clamp_if_normal g), rw done, clamped))

edit-Handles : (key : Key) (f : Form) → IsInText f → Handles (edit key f)
unfolding edit
edit-Handles key f h = elim (Mode-cases f.mode) [
  | inl at_rest ↦ rw at_rest (handle_normal-Handles key (record f { mode = normal }) h refl)
  | inr typing ↦
      (let (g, done, inside) = insert_key-Keeps key (record f { mode = insert }) h in
        rw typing ((none, g), rw done, inside))
]

escape-IsInText : (f : Form) → IsInText f → IsInText (escape f).1
unfolding escape
escape-IsInText f h = elim (Mode-cases f.mode) [
  | inl at_rest ↦ rw at_rest h
  | inr typing ↦
      rw typing (clamp-IsInText (position f - 1) (record f { mode = normal; error = false }) h)
]

press_enter-IsInText : (f : Form) → IsInText f → IsInText (press_enter f).1
unfolding press_enter
press_enter-IsInText f h = elim (Bool-cases (all is_whitespace f.values.name)) [
  | inl blank ↦ rw blank h
  | inr named ↦ rw named h
]

-- A new form has its cursors within its texts.
pub new_form-IsInText :
    (name tags group automatic : Text) → IsInText (new_form name tags group automatic)
unfolding new_form
new_form-IsInText name tags group automatic = omega arith

-- On a form whose cursors stand within their texts, every key is handled without a panic, on a screen
-- of any size, and the cursors stand within the texts again.
pub handle-IsInText :
    (key : Key) (height width : ℕ) (f : Form)
    → IsInText f
    → (r : Option Outcome × Form) × (handle key height width f ≡ some r) × IsInText r.1
unfolding handle
handle-IsInText key height width f h =
    if-Handles (is_char 0x03 key) _ _ (λ _. ((some cancel, f), refl, h))
      λ _.
        if-Handles (is_char 0x1b key) _ _ (λ _. (escape f, refl, escape-IsInText f h))
          λ _.
            if-Handles (too_small height width) _ _ (λ _. ((none, f), refl, h))
              λ _.
                if-Handles (is_enter key) _ _ (λ _. (press_enter f, refl, press_enter-IsInText f h))
                  λ _.
                    if-Handles (is_down key) _ _
                      (λ _. ((none, next_field (record f { error = false })), refl, h))
                      λ _.
                        if-Handles (is_up key) _ _
                          (λ _. ((none, previous_field (record f { error = false })), refl, h))
                          (λ _. edit-Handles key (record f { error = false }) h)
