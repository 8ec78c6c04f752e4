-- ===== src/Artifacts/Lines.antt =====
-- `splitlines_keepends` (plugins/artifacts/src/difflib.rs), on the code points of a text.
use mathlib.Core.Path.{subst}
use tx_ide_rs.Prelude.{
  ◌⊎◌, arith, ℕ, ◌≡◌, refl, sym, ap, ◌∙◌, Bool, true, false, ◌||◌, List, [], ◌∷◌, ◌++◌, Text, ◌==◌,
  if◌then◌else◌, Bool-cases, inl, inr, All, All-append, ==_iff,
}
use mathlib.Core.List.{append_assoc, append-nil}

-- A line boundary other than a carriage return.
unfoldable pub is_boundary : ℕ → Bool
is_boundary c =
    c == 0x0a
    || (c == 0x0b
        || (c == 0x0c
            || (c == 0x1c
                || (c == 0x1d || (c == 0x1e || (c == 0x85 || (c == 0x2028 || c == 0x2029)))))))

-- The last line is kept if anything is in it.
abbrev pub last_line : Text → List Text
last_line [] = []
last_line (c ∷ line) = (c ∷ line) ∷ []

-- `line` is what has been read of the line; a carriage return takes the line feed after it along.
unfoldable pub split_from : Text → Text → List Text
unfolding is_boundary
split_from line [] = last_line line
split_from line (c ∷ []) =
    if c == 0x0d || is_boundary c then (line ++ c ∷ []) ∷ [] else last_line (line ++ c ∷ [])
split_from line (c ∷ d ∷ text) =
    let pair = (line ++ c ∷ d ∷ []) ∷ split_from [] text in
    let single = (line ++ c ∷ []) ∷ split_from [] (d ∷ text) in
    let more = split_from (line ++ c ∷ []) (d ∷ text) in
    if c == 0x0d
    then (if d == 0x0a then pair else single)
    else (if is_boundary c then single else more)

unfoldable pub splitlines_keepends : Text → List Text
unfolding split_from
splitlines_keepends text = split_from [] text

abbrev pub join : List Text → Text
join [] = []
join (line ∷ lines) = line ++ join lines

last_line-join : (line : Text) → join (last_line line) ≡ line
last_line-join [] = refl
last_line-join (c ∷ line) = append-nil (c ∷ line)

split_from-join : (line text : Text) → join (split_from line text) ≡ line ++ text
unfolding split_from
split_from-join line [] = last_line-join line ∙ sym (append-nil line)
split_from-join line (c ∷ []) = elim (Bool-cases (c == 0x0d || is_boundary c)) [
  | inl ends ↦ rw ends (append-nil (line ++ c ∷ []))
  | inr other ↦ rw other (last_line-join (line ++ c ∷ []))
]
split_from-join line (c ∷ d ∷ text) = elim (Bool-cases (c == 0x0d)) [
  | inl return ↦ elim (Bool-cases (d == 0x0a)) [
    | inl feed ↦
        rw (return, feed)
          (ap (λ t. (line ++ c ∷ d ∷ []) ++ t) (split_from-join [] text)
            ∙ append_assoc line (c ∷ d ∷ []) text)
    | inr alone ↦ rw (return, alone) (single_line line c (d ∷ text) (split_from-join [] (d ∷ text)))
  ]
  | inr other ↦ elim (Bool-cases (is_boundary c)) [
    | inl ends ↦ rw (other, ends) (single_line line c (d ∷ text) (split_from-join [] (d ∷ text)))
    | inr inside ↦
        rw (other, inside)
          (split_from-join (line ++ c ∷ []) (d ∷ text) ∙ append_assoc line (c ∷ []) (d ∷ text))
  ]
]
  where
    single_line :
        (line : Text) (c : ℕ) (rest : Text)
        → join (split_from [] rest) ≡ rest
        → (line ++ c ∷ []) ++ join (split_from [] rest) ≡ line ++ c ∷ rest
    single_line line c rest h = ap (λ t. (line ++ c ∷ []) ++ t) h ∙ append_assoc line (c ∷ []) rest

abbrev pub In : ℕ → List ℕ → Type 0
In c [] = ⊥
In c (x ∷ xs) = (c ≡ x) ⊎ In c xs

-- Where a line of a Python text ends: carriage return, line feed, vertical tab, form feed, the file,
-- group and record separators, next line, and the line and paragraph separators.
abbrev pub line_ends : List ℕ
line_ends = b'\r' ∷ b'\n' ∷ 0x0b ∷ 0x0c ∷ 0x1c ∷ 0x1d ∷ 0x1e ∷ 0x85 ∷ 0x2028 ∷ 0x2029 ∷ []

abbrev pub Plain : ℕ → Type 0
Plain c = In c line_ends → ⊥

abbrev pub StartsWithFeed : Text → Type 0
StartsWithFeed [] = ⊥
StartsWithFeed (c ∷ text) = c ≡ b'\n'

-- How a text falls into lines. A line runs up to its first end, which it keeps, and a carriage
-- return with a line feed behind it is one end; what is behind the last end is a line if it is not
-- empty.
pub data FallsInto : Text → List Text → Type 0 where
  nothing : FallsInto [] []
  unended : (c : ℕ) (body : Text) → All Plain (c ∷ body) → FallsInto (c ∷ body) ((c ∷ body) ∷ [])
  ended :
      (body : Text) (c : ℕ) (rest : Text) (lines : List Text)
      → All Plain body
      → In c line_ends
      → (c ≡ b'\r' → StartsWithFeed rest → ⊥)
      → FallsInto rest lines
      → FallsInto (body ++ c ∷ rest) ((body ++ c ∷ []) ∷ lines)
  ended_by_both :
      (body rest : Text) (lines : List Text)
      → All Plain body
      → FallsInto rest lines
      → FallsInto (body ++ b'\r' ∷ b'\n' ∷ rest) ((body ++ b'\r' ∷ b'\n' ∷ []) ∷ lines)

has_char : ℕ → List ℕ → Bool
has_char c [] = false
has_char c (x ∷ []) = c == x
has_char c (x ∷ y ∷ xs) = c == x || has_char c (y ∷ xs)

has_char-In : (c : ℕ) (xs : List ℕ) → has_char c xs ≡ true → In c xs
unfolding has_char
has_char-In c [] h = cc
has_char-In c (x ∷ []) h = inl ((==_iff c x).0 h)
has_char-In c (x ∷ y ∷ xs) h = elim (Bool-cases (c == x)) [
  | inl same ↦ inl ((==_iff c x).0 same)
  | inr other ↦ inr (has_char-In c (y ∷ xs) (rw other at h))
]

has_char-Out : (c : ℕ) (xs : List ℕ) → has_char c xs ≡ false → In c xs → ⊥
unfolding has_char
has_char-Out c [] h i = elim i [ ]
has_char-Out c (x ∷ []) h (inl e) = absurd (ground (arith, e))
has_char-Out c (x ∷ []) h (inr i) = elim i [ ]
has_char-Out c (x ∷ y ∷ xs) h (inl e) = absurd (ground (arith, e))
has_char-Out c (x ∷ y ∷ xs) h (inr i) =
    let other : has_char c (y ∷ xs) ≡ false = ground arith in has_char-Out c (y ∷ xs) other i

is_boundary-has_char : (c : ℕ) → (c == 0x0d || is_boundary c) ≡ has_char c line_ends
unfolding is_boundary has_char
is_boundary-has_char c = refl

is_boundary-In : (c : ℕ) → (c == 0x0d || is_boundary c) ≡ true → In c line_ends
is_boundary-In c h = has_char-In c line_ends (sym (is_boundary-has_char c) ∙ h)

is_boundary-Plain : (c : ℕ) → (c == 0x0d || is_boundary c) ≡ false → Plain c
is_boundary-Plain c h = has_char-Out c line_ends (sym (is_boundary-has_char c) ∙ h)

last_line-FallsInto : (line : Text) → All Plain line → FallsInto line (last_line line)
last_line-FallsInto [] h = nothing
last_line-FallsInto (c ∷ line) h = unended c line h

longer-Plain : (line : Text) (c : ℕ) → All Plain line → Plain c → All Plain (line ++ c ∷ [])
longer-Plain line c h plain = All-append Plain line (c ∷ []) h (plain, tt)

no_feed : (d : ℕ) → (d == 0x0a) ≡ false → d ≡ b'\n' → ⊥
no_feed d h e = absurd (ground (arith, e))

no_return : (c : ℕ) (t : Text) → (c == 0x0d) ≡ false → c ≡ b'\r' → StartsWithFeed t → ⊥
no_return c t h e _ = absurd (ground (arith, e))

both-FallsInto :
    (line : Text) (c d : ℕ) (rest : Text) (lines : List Text)
    → c ≡ b'\r'
    → d ≡ b'\n'
    → All Plain line
    → FallsInto rest lines
    → FallsInto (line ++ c ∷ d ∷ rest) ((line ++ c ∷ d ∷ []) ∷ lines)
both-FallsInto line c d rest lines e e' h k = rw (e, e') (ended_by_both line rest lines h k)

split_from-FallsInto :
    (line text : Text) → All Plain line → FallsInto (line ++ text) (split_from line text)
unfolding split_from
split_from-FallsInto line [] h =
    subst (λ t. FallsInto t (last_line line)) (sym (append-nil line)) (last_line-FallsInto line h)
split_from-FallsInto line (c ∷ []) h = elim (Bool-cases (c == 0x0d || is_boundary c)) [
  | inl ends ↦ rw ends (ended line c [] [] h (is_boundary-In c ends) (λ _ feed. feed) nothing)
  | inr plain ↦
      rw plain
        (last_line-FallsInto (line ++ c ∷ []) (longer-Plain line c h (is_boundary-Plain c plain)))
]
split_from-FallsInto line (c ∷ d ∷ text) h = elim (Bool-cases (c == 0x0d)) [
  | inl return ↦ elim (Bool-cases (d == 0x0a)) [
    | inl feed ↦
        rw (return, feed)
          (both-FallsInto line c d text _ ((==_iff c 0x0d).0 return) ((==_iff d 0x0a).0 feed) h
            (split_from-FallsInto [] text tt))
    | inr alone ↦
        rw (return, alone)
          (ended line c (d ∷ text) _ h (inl ((==_iff c 0x0d).0 return)) (λ _. no_feed d alone)
            (split_from-FallsInto [] (d ∷ text) tt))
  ]
  | inr other ↦ elim (Bool-cases (is_boundary c)) [
    | inl ends ↦
        rw (other, ends)
          (ended line c (d ∷ text) _ h (is_boundary-In c (rw (other, ends)))
            (no_return c (d ∷ text) other) (split_from-FallsInto [] (d ∷ text) tt))
    | inr inside ↦
        rw (other, inside)
          (subst (λ t. FallsInto t (split_from (line ++ c ∷ []) (d ∷ text)))
            (append_assoc line (c ∷ []) (d ∷ text))
            (split_from-FallsInto (line ++ c ∷ []) (d ∷ text)
              (longer-Plain line c h (is_boundary-Plain c (rw (other, inside))))))
  ]
]

-- The lines of a text, joined, are the text, and they are the ones that the text falls into: each
-- runs up to the first line end and keeps it, a carriage return and the line feed behind it being one
-- end, and only the last may have none.
pub splitlines_keepends-lines :
    (text : Text)
    → (join (splitlines_keepends text) ≡ text) × FallsInto text (splitlines_keepends text)
unfolding splitlines_keepends
splitlines_keepends-lines text = (split_from-join [] text, split_from-FallsInto [] text tt)
