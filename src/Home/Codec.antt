-- ===== src/Home/Codec.antt =====
-- The choice file: what `decode` reads of the line that `encode` writes.
use tx_ide_rs.Prelude.{ℕ, ◌≡◌, refl, sym, ap, ◌∙◌, false, [], ◌∷◌, ◌++◌, some, Text, codes, text_eq}
use mathlib.Core.Path.{subst}
use tx_ide_rs.Client.Chars.{is_whitespace}
use tx_ide_rs.Home.{Action, attach, resume, new, stop, ask, artifacts, timeline, tutor, warm}
use tx_ide_rs.Home.Keys.{trim, trim_start, trim_end, trim_cons}
use tx_ide_rs.Home.Choice.{encode, split_verb, by_argument, decode}

-- A text that is not empty, with no white space at its ends.
pub record IsTrimmed (text : Text) : Type 0 where
  pub first : ℕ
  pub rest : Text
  pub parts : text ≡ first ∷ rest
  pub starts : is_whitespace first ≡ false
  pub ends : trim_end text ≡ text

-- What the action carries can stand on a line of the choice file.
unfoldable pub IsPlain : Action → Type 0
IsPlain (attach text) = IsTrimmed text
IsPlain (resume text) = IsTrimmed text
IsPlain (new text) = IsTrimmed text
IsPlain (stop text) = IsTrimmed text
IsPlain (ask text) = IsTrimmed text
IsPlain (artifacts text) = IsTrimmed text
IsPlain timeline = Unit
IsPlain tutor = Unit
IsPlain warm = Unit

-- A text that is not empty, with no white space at its end.
record HasEnd (text : Text) : Type 0 where
  pub first : ℕ
  pub rest : Text
  pub parts : text ≡ first ∷ rest
  pub ends : trim_end text ≡ text

cons-HasEnd : (c : ℕ) (text : Text) → HasEnd text → HasEnd (c ∷ text)
unfolding trim_end
cons-HasEnd c text t = record {
  first = c;
  rest = text;
  parts = refl;
  ends = ap (trim_cons c) (t.ends ∙ t.parts) ∙ ap (λ (x : Text). c ∷ x) (sym t.parts);
}

append-HasEnd : (start text : Text) → HasEnd text → HasEnd (start ++ text)
append-HasEnd [] text t = t
append-HasEnd (c ∷ start) text t = cons-HasEnd c (start ++ text) (append-HasEnd start text t)

trim-HasEnd :
    (c : ℕ) (text : Text) → is_whitespace c ≡ false → HasEnd (c ∷ text) → trim (c ∷ text) ≡ c ∷ text
unfolding trim trim_start
trim-HasEnd c text starts t = rw starts t.ends

IsTrimmed-HasEnd : (text : Text) → IsTrimmed text → HasEnd text
IsTrimmed-HasEnd text t = record { first = t.first; rest = t.rest; parts = t.parts; ends = t.ends }

trim-IsTrimmed : (text : Text) → IsTrimmed text → trim text ≡ text
trim-IsTrimmed text t =
    let whole : HasEnd (t.first ∷ t.rest) = subst HasEnd t.parts (IsTrimmed-HasEnd text t) in
    ap trim t.parts ∙ trim-HasEnd t.first t.rest t.starts whole ∙ sym t.parts

-- A line of a verb and an argument.
decode-line :
    (c : ℕ) (verb text : Text) (action : Text → Action)
    → is_whitespace c ≡ false
    → split_verb ((c ∷ verb) ++ b' ' ∷ text) ≡ (c ∷ verb, text)
    → ((d : ℕ) (rest : Text) → by_argument (c ∷ verb) (d ∷ rest) ≡ some (action (d ∷ rest)))
    → IsTrimmed text
    → decode ((c ∷ verb) ++ b' ' ∷ text) ≡ some (action text)
unfolding decode
decode-line c verb text action starts splits acts t =
    let line = (c ∷ verb) ++ b' ' ∷ text in
    let whole =
      append-HasEnd (c ∷ verb) (b' ' ∷ text) (cons-HasEnd b' ' text (IsTrimmed-HasEnd text t)) in
    let trimmed : trim line ≡ line = trim-HasEnd c (verb ++ b' ' ∷ text) starts whole in
    let parts : split_verb (trim line) ≡ (c ∷ verb, text) = ap split_verb trimmed ∙ splits in
    ap (λ (p : Text × Text). by_argument p.0 (trim p.1)) parts
    ∙ ap (by_argument (c ∷ verb)) (trim-IsTrimmed text t ∙ t.parts)
    ∙ acts t.first t.rest
    ∙ ap (λ (x : Text). some (action x)) (sym t.parts)

decode-timeline : decode (encode timeline) ≡ some timeline
unfolding decode encode split_verb trim trim_start trim_end is_whitespace text_eq
decode-timeline = refl

decode-tutor : decode (encode tutor) ≡ some tutor
unfolding decode encode split_verb trim trim_start trim_end is_whitespace text_eq
decode-tutor = refl

decode-warm : decode (encode warm) ≡ some warm
unfolding decode encode split_verb trim trim_start trim_end is_whitespace text_eq
decode-warm = refl

-- An action whose text is not empty and has no white space at its ends is read back from the
-- line that it is written as.
pub decode-encode : (a : Action) → IsPlain a → decode (encode a) ≡ some a
unfolding encode split_verb text_eq is_whitespace IsPlain
decode-encode (attach text) t =
    decode-line b'a' (codes "ttach") text attach refl refl (λ d rest. refl) t
decode-encode (resume text) t =
    decode-line b'r' (codes "esume") text resume refl refl (λ d rest. refl) t
decode-encode (new text) t = decode-line b'n' (codes "ew") text new refl refl (λ d rest. refl) t
decode-encode (stop text) t = decode-line b's' (codes "top") text stop refl refl (λ d rest. refl) t
decode-encode (ask text) t = decode-line b'a' (codes "sk") text ask refl refl (λ d rest. refl) t
decode-encode (artifacts text) t =
    decode-line b'a' (codes "rtifacts") text artifacts refl refl (λ d rest. refl) t
decode-encode timeline t = decode-timeline
decode-encode tutor t = decode-tutor
decode-encode warm t = decode-warm
