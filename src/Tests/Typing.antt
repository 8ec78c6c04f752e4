-- ===== src/Tests/Typing.antt =====
-- An argument parser as tmux documents it, and the theorems on the arguments for it.
use mathlib.Core.List.{append_assoc}
use tx_ide_rs.Prelude.{
  ◌≡◌, sym, ap, ◌∙◌, ◌⊎◌, inl, inr, [], ◌∷◌, ◌++◌, map, Option, none, some, Text, codes,
  Option-cases,
}
use tx_ide_rs.Tmux.{strip_last, escaped_semicolon, literal_chunks}
use tx_ide_rs.Tmux.Typing.{EndsIn, concat, strip_last-some, strip_last-append, literal_chunks-typed}

-- Without the semicolon at the end, unless a backslash stands before it.
after_semicolon : Text → Option Text → Text
after_semicolon head none = head
after_semicolon head (some stem) = stem ++ b';' ∷ []

at_end : Text → Option Text → Text
at_end arg none = arg
at_end arg (some head) = after_semicolon head (strip_last b'\\' head)

sample_tmux : Text → Text
sample_tmux arg = at_end arg (strip_last b';' arg)

sample_tmux-plain : (t : Text) → (EndsIn b';' t → ⊥) → sample_tmux t ≡ t
unfolding sample_tmux at_end
sample_tmux-plain t h = by_last (Option-cases (strip_last b';' t))
  where
    by_last :
        (strip_last b';' t ≡ none) ⊎ ((s : Text) × (strip_last b';' t ≡ some s)) → sample_tmux t ≡ t
    by_last (inl e) = ap (at_end t) e
    by_last (inr (s, e)) = absurd (h (s, strip_last-some b';' t s e))

sample_tmux-unescaped : (t : Text) → sample_tmux (t ++ escaped_semicolon) ≡ t ++ b';' ∷ []
unfolding sample_tmux at_end after_semicolon
sample_tmux-unescaped t =
    let apart : (t ++ b'\\' ∷ []) ++ b';' ∷ [] ≡ t ++ escaped_semicolon =
      append_assoc t (b'\\' ∷ []) (b';' ∷ []) in
    ap sample_tmux (sym apart)
    ∙ ap (at_end ((t ++ b'\\' ∷ []) ++ b';' ∷ [])) (strip_last-append b';' (t ++ b'\\' ∷ []))
    ∙ ap (after_semicolon (t ++ b'\\' ∷ [])) (strip_last-append b'\\' t)

literal_chunks-typed_example :
    concat (map sample_tmux (literal_chunks (codes "a;b;;"))) ≡ codes "a;b;;"
literal_chunks-typed_example =
    literal_chunks-typed sample_tmux sample_tmux-plain (sample_tmux-unescaped []) (codes "a;b;;")
