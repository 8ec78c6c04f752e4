-- ===== src/Tmux/Typing.antt =====
-- tmux gets the text that was meant, whatever semicolons it ends in.
use mathlib.Core.List.{append_assoc}
use tx_ide_rs.Prelude.{
  ℕ, zero, suc, ◌+◌, ◌-◌, ◌≡◌, refl, sym, ap, ◌∙◌, ◌⊎◌, inl, inr, true, false, List, [], ◌∷◌, ◌++◌,
  Option, none, some, Text, arith, ◌==◌, ==_iff, length, length-append, map, Bool-cases,
}
use tx_ide_rs.Tmux.{
  trim_end_matches, repeat, escaped_semicolon, literal_chunks, strip_last,
  escape_trailing_semicolon,
}

-- The text ends in the byte.
abbrev pub EndsIn : ℕ → Text → Type 0
EndsIn c t = (s : Text) × (t ≡ s ++ c ∷ [])

-- The arguments one behind the other.
pub concat : List Text → Text
concat [] = []
concat (t ∷ ts) = t ++ concat ts

length-zero : (rest : Text) → (length rest == 0) ≡ true → rest ≡ []
length-zero [] h = refl
length-zero (x ∷ rest) h = absurd (ground arith)

-- What is cut off is a run of the byte.
trim-splits : (c : ℕ) (t : Text) → (n : ℕ) × (t ≡ trim_end_matches c t ++ repeat n c)
unfolding trim_end_matches repeat
trim-splits c [] = (0, refl)
trim-splits c (b ∷ t) =
    let (n, e) = trim-splits c t in
    by_rest n e (Bool-cases (length (trim_end_matches c t) == 0)) (Bool-cases (b == c))
  where
    by_rest :
        (n : ℕ)
        → t ≡ trim_end_matches c t ++ repeat n c
        → ((length (trim_end_matches c t) == 0) ≡ true)
          ⊎ ((length (trim_end_matches c t) == 0) ≡ false)
        → ((b == c) ≡ true) ⊎ ((b == c) ≡ false)
        → (m : ℕ) × (b ∷ t ≡ trim_end_matches c (b ∷ t) ++ repeat m c)
    by_rest n e (inr more) same = (n, rw more (ap (λ r. b ∷ r) e))
    by_rest n e (inl none_left) (inl same) =
        let empty = length-zero (trim_end_matches c t) none_left in
        let byte = (==_iff b c).0 same in (suc n, rw (none_left, same) (cc))
    by_rest n e (inl none_left) (inr other) =
        let empty = length-zero (trim_end_matches c t) none_left in (n, rw (none_left, other) (cc))

-- What is left does not end in the byte.
trim-EndsIn : (c : ℕ) (t : Text) → EndsIn c (trim_end_matches c t) → ⊥
unfolding trim_end_matches
trim-EndsIn c [] ([], e) = cc
trim-EndsIn c [] (x ∷ s, e) = cc
trim-EndsIn c (b ∷ t) h =
    by_rest (λ h'. trim-EndsIn c t h') h (Bool-cases (length (trim_end_matches c t) == 0))
      (Bool-cases (b == c))
  where
    ends :
        (EndsIn c (trim_end_matches c t) → ⊥)
        → (r : Text) → (r ≡ trim_end_matches c t)
        → ((length r == 0) ≡ false)
        → EndsIn c (b ∷ r)
        → ⊥
    ends ih [] q more e = absurd (ground arith)
    ends ih (x ∷ r) q more ([], e) = cc
    ends ih (x ∷ r) q more (y ∷ s, e) = ih (s, cc)

    single : (b == c) ≡ false → EndsIn c (b ∷ []) → ⊥
    single other ([], e) = absurd (ground (arith, ==_iff b c))
    single other (y ∷ [], e) = cc
    single other (y ∷ z ∷ s, e) = cc

    nothing : EndsIn c [] → ⊥
    nothing ([], e) = cc
    nothing (y ∷ s, e) = cc

    by_rest :
        (EndsIn c (trim_end_matches c t) → ⊥)
        → EndsIn c (trim_end_matches c (b ∷ t))
        → ((length (trim_end_matches c t) == 0) ≡ true)
          ⊎ ((length (trim_end_matches c t) == 0) ≡ false)
        → ((b == c) ≡ true) ⊎ ((b == c) ≡ false)
        → ⊥
    by_rest ih h (inr more) same = ends ih (trim_end_matches c t) refl more (rw more at h)
    by_rest ih h (inl none_left) (inl same) = nothing (rw (none_left, same) at h)
    by_rest ih h (inl none_left) (inr other) = single other (rw (none_left, other) at h)

length-repeat : {A : Type 0} (n : ℕ) (a : A) → length (repeat n a) ≡ n
unfolding repeat
length-repeat zero a = refl
length-repeat (suc n) a = omega (arith, length-repeat n a)

cut_length :
    (c n : ℕ) (t : Text)
    → t ≡ trim_end_matches c t ++ repeat n c
    → length t - length (trim_end_matches c t) ≡ n
cut_length c n t e =
    let both = ap (λ (x : Text). length x) e ∙ length-append (trim_end_matches c t) (repeat n c) in
    omega (arith, both, length-repeat n c)

module _ (typed : Text → Text) (plain : (t : Text) → (EndsIn b';' t → ⊥) → typed t ≡ t)
    (escaped : typed escaped_semicolon ≡ b';' ∷ []) where
  typed_repeat : (n : ℕ) → concat (map typed (repeat n escaped_semicolon)) ≡ repeat n b';'
  unfolding repeat concat
  typed_repeat zero = refl
  typed_repeat (suc n) = rw (escaped, typed_repeat n)

  -- Where tmux types an argument as it is unless it ends in a semicolon, and `\;` as a semicolon,
  -- the arguments that `literal_chunks` makes of a text are typed as that text.
  pub literal_chunks-typed : (text : Text) → concat (map typed (literal_chunks text)) ≡ text
  unfolding literal_chunks concat
  literal_chunks-typed text =
      let (n, e) = trim-splits b';' text in
      by_head n e (cut_length b';' n text e) (Bool-cases (length (trim_end_matches b';' text) == 0))
    where
      by_head :
          (n : ℕ)
          → text ≡ trim_end_matches b';' text ++ repeat n b';'
          → length text - length (trim_end_matches b';' text) ≡ n
          → ((length (trim_end_matches b';' text) == 0) ≡ true)
            ⊎ ((length (trim_end_matches b';' text) == 0) ≡ false)
          → concat (map typed (literal_chunks text)) ≡ text
      by_head n e l (inl empty) =
          let none_left = length-zero (trim_end_matches b';' text) empty in
          rw (empty, l) (typed_repeat n ∙ cc)
      by_head n e l (inr more) =
          rw (more, l, plain (trim_end_matches b';' text) (trim-EndsIn b';' text), typed_repeat n)
            (sym e)

pub strip_last-some : (c : ℕ) (t rest : Text) → strip_last c t ≡ some rest → t ≡ rest ++ c ∷ []
unfolding strip_last
strip_last-some c [] rest h = cc
strip_last-some c (b ∷ []) rest h = elim (Bool-cases (b == c)) [
  | inl same ↦
      let byte = (==_iff b c).0 same in let found : some [] ≡ some rest = rw same at h in cc
  | inr other ↦ absurd (ground arith)
]
strip_last-some c (b ∷ d ∷ t) rest h =
    by_tail (strip_last c (d ∷ t)) refl (λ r q. strip_last-some c (d ∷ t) r q) h
  where
    by_tail :
        (o : Option Text)
        → strip_last c (d ∷ t) ≡ o
        → ((r : Text) → strip_last c (d ∷ t) ≡ some r → d ∷ t ≡ r ++ c ∷ [])
        → ◌≡◌ {A = Option Text} (elim o [ none ↦ none | some r ↦ some (b ∷ r) ]) (some rest)
        → b ∷ d ∷ t ≡ rest ++ c ∷ []
    by_tail none q ih e = cc
    by_tail (some r) q ih e = let same : b ∷ r ≡ rest = cc in rw (← same) (ap (λ u. b ∷ u) (ih r q))

pub strip_last-append : (c : ℕ) (s : Text) → strip_last c (s ++ c ∷ []) ≡ some s
unfolding strip_last
strip_last-append c [] = ground (arith, ==_iff c c)
strip_last-append c (x ∷ []) = rw (strip_last, strip_last-append c [])
strip_last-append c (x ∷ y ∷ s) = rw (strip_last, strip_last-append c (y ∷ s))

strip_last-none : (c : ℕ) (t : Text) → strip_last c t ≡ none → EndsIn c t → ⊥
strip_last-none c t h (s, e) =
    let found : none ≡ some s = sym h ∙ ap (strip_last c) e ∙ strip_last-append c s in
    absurd (ground arith)

repeat-last : (n c : ℕ) → repeat (n + 1) c ≡ repeat n c ++ c ∷ []
unfolding repeat
repeat-last n c = let next : n + 1 ≡ suc n = omega arith in ap (λ m. repeat m c) next ∙ grown n
  where
    grown : (m : ℕ) → repeat (suc m) c ≡ repeat m c ++ c ∷ []
    grown zero = refl
    grown (suc m) = ap (λ r. c ∷ r) (grown m)

module _ (given : Text → Text) (plain : (t : Text) → (EndsIn b';' t → ⊥) → given t ≡ t)
    (unescaped : (t : Text) → given (t ++ escaped_semicolon) ≡ t ++ b';' ∷ []) where
  -- Where tmux takes an argument as it is unless it ends in a semicolon, and drops the backslash
  -- before a semicolon at the end, it takes an escaped argument as the one that was meant.
  escape_trailing_semicolon-given : (arg : Text) → given (escape_trailing_semicolon arg) ≡ arg
  unfolding escape_trailing_semicolon
  escape_trailing_semicolon-given arg = by_last (strip_last b';' arg) refl
    where
      escaped_of :
          (head : Text)
          → arg ≡ head ++ b';' ∷ []
          → given (
              trim_end_matches b'\\' head
              ++ (repeat (length head - length (trim_end_matches b'\\' head) + 1) b'\\'
                  ++ b';' ∷ []))
            ≡ arg
      escaped_of head e =
          let (n, splits) = trim-splits b'\\' head in
          let stem = trim_end_matches b'\\' head in
          let again : stem ++ ((repeat n b'\\' ++ b'\\' ∷ []) ++ b';' ∷ [])
              ≡ head ++ escaped_semicolon =
            ap (λ u. stem ++ u) (append_assoc (repeat n b'\\') (b'\\' ∷ []) (b';' ∷ []))
            ∙ sym (append_assoc stem (repeat n b'\\') escaped_semicolon)
            ∙ ap (λ u. u ++ escaped_semicolon) (sym splits) in
          rw (cut_length b'\\' n head splits, repeat-last n b'\\', again, unescaped head) (sym e)

      by_last :
          (o : Option Text) → strip_last b';' arg ≡ o → given (escape_trailing_semicolon arg) ≡ arg
      by_last none q = rw (escape_trailing_semicolon, q) (plain arg (strip_last-none b';' arg q))
      by_last (some head) q =
          rw (escape_trailing_semicolon, q) (escaped_of head (strip_last-some b';' arg head q))
