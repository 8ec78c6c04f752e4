-- ===== src/Client/Form.antt =====
-- The form (tx-client/src/editor.rs): its state and its keys. `none` stands for a panic, which a
-- vector raises at an index out of range.
pub mod Within
pub mod Bounds
pub mod Resting
use mathlib.Core.Option
use tx_ide_rs.Prelude.{
  ℕ, zero, suc, ◌+◌, ◌-◌, ◌%◌, min, Bool, true, false, ◌&&◌, ◌||◌, List, [], ◌∷◌, ◌++◌, Option,
  none, some, Text, ltb, leb, ◌==◌, if◌then◌else◌, length, take, drop, all,
}
use tx_ide_rs.Client.Chars.{is_whitespace, is_printable}

pub data Key : Type 0 where
  char alt : ℕ → Key
  up down left right home end delete back_tab enter resize other : Key

pub data Mode : Type 0 where
  normal insert : Mode

pub data Outcome : Type 0 where
  cancel : Outcome
  save : Text → Text → Text → Outcome

-- `[T; 3]`, with the index out of range at the last.
pub record Three (A : Type 0) : Type 0 where
  pub name : A
  pub tags : A
  pub group : A

module _ {A : Type 0} where
  abbrev pub at : ℕ → Three A → A
  at zero xs = xs.name
  at (suc zero) xs = xs.tags
  at (suc (suc i)) xs = xs.group

  abbrev pub put : ℕ → A → Three A → Three A
  put zero x xs = record xs { name = x }
  put (suc zero) x xs = record xs { tags = x }
  put (suc (suc i)) x xs = record xs { group = x }

pub record Form : Type 0 where
  pub values : Three Text
  pub positions : Three ℕ
  pub offsets : Three ℕ
  pub active : ℕ
  pub mode : Mode
  pub error : Bool
  pub automatic_group : Text

-- `Form::new`
unfoldable pub new_form : Text → Text → Text → Text → Form
new_form name tags group automatic_group = record {
  values = record { name = name; tags = tags; group = group };
  positions = record { name = length name - 1; tags = length tags - 1; group = length group - 1 };
  offsets = record { name = 0; tags = 0; group = 0 };
  active = 0;
  mode = normal;
  error = false;
  automatic_group = automatic_group;
}

-- The value, its length and the position in the active field.
abbrev pub value : Form → Text
value f = at f.active f.values

abbrev pub position : Form → ℕ
position f = at f.active f.positions

abbrev pub move_to : ℕ → Form → Form
move_to p f = record f { positions = put f.active p f.positions }

abbrev pub set_value : Text → Form → Form
set_value v f = record f { values = put f.active v f.values }

unfoldable pub clamp_to_text : Form → Form
clamp_to_text f = move_to (min (position f) (length (value f) - 1)) f

abbrev pub hint_row : ℕ
hint_row = 8

unfoldable pub too_small : ℕ → ℕ → Bool
too_small height width = leb height hint_row || ltb width 24

-- `Vec::remove`, `Vec::insert`, and `Vec::drain` of what stands before an index.
abbrev pub vec_remove : ℕ → Text → Option Text
vec_remove i xs = if ltb i (length xs) then some (take i xs ++ drop (suc i) xs) else none

abbrev pub vec_insert : ℕ → ℕ → Text → Option Text
vec_insert i c xs = if leb i (length xs) then some (take i xs ++ c ∷ drop i xs) else none

abbrev pub drain_to : ℕ → Text → Option Text
drain_to i xs = if leb i (length xs) then some (drop i xs) else none

-- A key of insert mode that is a character.
unfoldable pub insert_char : ℕ → Form → Option Form
insert_char c f =
    if c == 0x02
    then some (move_to (position f - 1) f)
    else (if c == 0x06
        then some (move_to (min (length (value f)) (position f + 1)) f)
        else (if c == 0x01
            then some (move_to 0 f)
            else (if c == 0x05
                then some (move_to (length (value f)) f)
                else (if (c == 0x7f || c == 0x08) && ltb 0 (position f)
                    then Option.map (λ v. move_to (position f - 1) (set_value v f))
                        (vec_remove (position f - 1) (value f))
                    else (if c == 0x15
                        then Option.map (λ v. move_to 0 (set_value v f))
                            (drain_to (position f) (value f))
                        else (if c == 0x0b
                            then some (set_value (take (position f) (value f)) f)
                            else (if is_printable c
                                then Option.map (λ v. move_to (position f + 1) (set_value v f))
                                    (vec_insert (position f) c (value f))
                                else some f)))))))

unfoldable pub delete_char : Form → Option Form
delete_char f =
    if ltb (position f) (length (value f))
    then Option.map (λ v. set_value v f) (vec_remove (position f) (value f))
    else some f

unfoldable pub insert_key : Key → Form → Option Form
unfolding insert_char delete_char
insert_key left f = some (move_to (position f - 1) f)
insert_key right f = some (move_to (min (length (value f)) (position f + 1)) f)
insert_key home f = some (move_to 0 f)
insert_key end f = some (move_to (length (value f)) f)
insert_key delete f = delete_char f
insert_key (char c) f = insert_char c f
insert_key _ f = some f

-- `(self.active + 1) % 3` and `(self.active + 2) % 3`
abbrev pub next_field : Form → Form
next_field f = record f { active = (f.active + 1) % 3 }

abbrev pub previous_field : Form → Form
previous_field f = record f { active = (f.active + 3 - 1) % 3 }

abbrev pub start_insert : ℕ → Form → Form
start_insert p f = record f { mode = insert; positions = put f.active p f.positions }

-- A key of normal mode that is a character, other than `q`.
unfoldable pub normal_char : ℕ → Form → Option Form
unfolding delete_char
normal_char c f =
    if c == b'j'
    then some (next_field f)
    else (if c == b'k'
        then some (previous_field f)
        else (if c == b'h'
            then some (move_to (position f - 1) f)
            else (if c == b'l'
                then some (move_to (position f + 1) f)
                else (if c == b'0' || c == b'^'
                    then some (move_to 0 f)
                    else (if c == b'$'
                        then some (move_to (length (value f)) f)
                        else (if c == b'i'
                            then some (record f { mode = insert })
                            else (if c == b'a'
                                then some (start_insert (min (length (value f)) (position f + 1)) f)
                                else (if c == b'A'
                                    then some (start_insert (length (value f)) f)
                                    else (if c == b'I'
                                        then some (start_insert 0 f)
                                        else (if c == b'x' then delete_char f else some f))))))))))

unfoldable pub normal_key : Key → Form → Option Form
unfolding normal_char delete_char
normal_key left f = some (move_to (position f - 1) f)
normal_key right f = some (move_to (position f + 1) f)
normal_key home f = some (move_to 0 f)
normal_key end f = some (move_to (length (value f)) f)
normal_key delete f = delete_char f
normal_key (char c) f = normal_char c f
normal_key _ f = some f

-- `if self.mode == Mode::Normal { self.clamp_to_text() }`
unfoldable pub clamp_if_normal : Form → Form
unfolding clamp_to_text
clamp_if_normal f = by_mode f.mode
  where
    by_mode : Mode → Form
    by_mode normal = clamp_to_text f
    by_mode insert = f

abbrev pub is_char : ℕ → Key → Bool
is_char c (char d) = d == c
is_char c _ = false

unfoldable pub handle_normal : Key → Form → Option (Option Outcome × Form)
unfolding normal_key clamp_if_normal
handle_normal key f =
    if is_char b'q' key
    then some (some cancel, f)
    else Option.map (λ g. (none, clamp_if_normal g)) (normal_key key f)

abbrev pub is_enter : Key → Bool
is_enter enter = true
is_enter (char c) = c == 0x0a || c == 0x0d
is_enter _ = false

abbrev pub is_down : Key → Bool
is_down down = true
is_down (char c) = c == 0x09
is_down _ = false

abbrev pub is_up : Key → Bool
is_up up = true
is_up back_tab = true
is_up _ = false

-- `Esc`
unfoldable pub escape : Form → Option Outcome × Form
unfolding clamp_to_text
escape f = by_mode f.mode
  where
    by_mode : Mode → Option Outcome × Form
    by_mode normal = (some cancel, f)
    by_mode insert =
        (none, clamp_to_text (move_to (position f - 1) (record f { mode = normal; error = false })))

unfoldable pub press_enter : Form → Option Outcome × Form
unfolding is_whitespace
press_enter f =
    if all is_whitespace f.values.name
    then (none, record f { error = true; active = 0 })
    else (some (save f.values.name f.values.tags f.values.group), f)

unfoldable pub edit : Key → Form → Option (Option Outcome × Form)
unfolding insert_key handle_normal
edit key f = by_mode f.mode
  where
    by_mode : Mode → Option (Option Outcome × Form)
    by_mode normal = handle_normal key f
    by_mode insert = Option.map (λ g. (none, g)) (insert_key key f)

unfoldable pub handle : Key → ℕ → ℕ → Form → Option (Option Outcome × Form)
unfolding escape press_enter edit too_small
handle key height width f =
    if is_char 0x03 key
    then some (some cancel, f)
    else (if is_char 0x1b key
        then some (escape f)
        else (if too_small height width
            then some (none, f)
            else (if is_enter key
                then some (press_enter f)
                else (if is_down key
                    then some (none, next_field (record f { error = false }))
                    else (if is_up key
                        then some (none, previous_field (record f { error = false }))
                        else edit key (record f { error = false }))))))
