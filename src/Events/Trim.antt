-- ===== src/Events/Trim.antt =====
-- A logged line fits one atomic write (`encode` of tx-core/src/events.rs).
use mathlib.Core.List.{append-nil}
use tx_ide_rs.Prelude.{
  ℕ, ◌+◌, ◌-◌, ◌≤◌, ◌<◌, ◌≡◌, refl, ◌∙◌, ◌⊎◌, inl, inr, List, [], ◌∷◌, ◌++◌, arith, Text, leb, ltb,
  length, Bool-cases, ap, sym,
}
use tx_ide_rs.Events.{escaped_len, trim, encode, pipe_buf}
use tx_ide_rs.Events.Escapes.{json_text, length-append, length-json_text, escaped_len-json_escape}

-- The bytes of a message inside the JSON string.
abbrev size : List ℕ → ℕ
size msg = length (json_text msg)

size-nil : size [] ≡ 0
unfolding json_text
size-nil = refl

size-cons : (c : ℕ) (cs : List ℕ) → size (c ∷ cs) ≡ escaped_len c + size cs
size-cons c cs = omega (arith, length-json_text c cs, escaped_len-json_escape c)

trim-le : (budget : ℕ) (msg : List ℕ) → size (trim budget msg) ≤ budget
unfolding trim
trim-le budget [] = omega (arith, size-nil)
trim-le budget (c ∷ cs) =
    let rest = trim (budget - escaped_len c) cs in
    elim (Bool-cases (ltb budget (escaped_len c))) [
      | inl over ↦ rw over (omega (arith, size-nil))
      | inr enough ↦
          let room : escaped_len c ≤ budget = ground arith in
          rw enough (omega (arith, size-cons c rest, trim-le (budget - escaped_len c) cs))
    ]

-- What serde_json promises of the line: the message stands in it as a JSON string, and what is
-- before and after it does not depend on the message.
abbrev pub Encodes : (List ℕ → Text) → Type 0
Encodes line =
    (before after : Text) × ((msg : List ℕ) → line msg ≡ before ++ (json_text msg ++ after))

length-line :
    (line : List ℕ → Text) (msg : List ℕ)
    → Encodes line
    → length (line msg) ≡ length (line []) + size msg
length-line line msg (before, after, written) = omega (arith, parts msg, parts [], size-nil)
  where
    parts : (m : List ℕ) → length (line m) ≡ length before + (size m + length after)
    parts m =
        ap length (written m)
        ∙ length-append before (json_text m ++ after)
        ∙ ap (λ n. length before + n) (length-append (json_text m) after)

-- A line is never longer than `PIPE_BUF`, whatever the message, when the encoder writes the message
-- as a JSON string between parts that do not depend on it and these leave room for it.
pub encode-le-pipe_buf :
    (line : List ℕ → Text) (msg : List ℕ)
    → Encodes line
    → length (line []) ≤ pipe_buf
    → length (encode line msg) ≤ pipe_buf
unfolding encode
encode-le-pipe_buf line msg encodes room =
    let budget = pipe_buf - length (line []) in
    ground (arith, length-line line (trim budget msg) encodes, trim-le budget msg)

-- What is kept of a message: all of it if it fits as a JSON string, else a prefix that fits, and
-- with the next character of the message it would not have fitted.
pub record Keeps (room : ℕ) (msg kept : List ℕ) : Type 0 where
  pub cut : List ℕ
  pub splits : msg ≡ kept ++ cut
  pub fits : length (json_text kept) ≤ room
  pub full :
      (cut ≡ [])
      ⊎ ((c : ℕ) × (cs : List ℕ) × (cut ≡ c ∷ cs) × (room < length (json_text (kept ++ c ∷ []))))

trim-Keeps : (room : ℕ) (msg : List ℕ) → Keeps room msg (trim room msg)
unfolding trim
trim-Keeps room [] = record {
  cut = [];
  splits = refl;
  fits = omega (arith, size-nil);
  full = inl refl;
}
trim-Keeps room (c ∷ cs) = elim (Bool-cases (ltb room (escaped_len c))) [
  | inl over ↦ rw over (record {
    cut = c ∷ cs;
    splits = refl;
    fits = omega (arith, size-nil);
    full = inr (c, cs, refl, ground (arith, size-cons c [], size-nil));
  })
  | inr enough ↦
      let rest = trim (room - escaped_len c) cs in
      let k = trim-Keeps (room - escaped_len c) cs in
      let fits_first : escaped_len c ≤ room = ground arith in
      rw enough (record {
        cut = k.cut;
        splits = ap (λ t. c ∷ t) k.splits;
        fits = omega (arith, size-cons c rest, k.fits, fits_first);
        full = elim k.full [
          | inl none_cut ↦ inl none_cut
          | inr (d, ds, e, more) ↦
              inr (d, ds, e, omega (arith, more, size-cons c (rest ++ d ∷ []), fits_first))
        ];
      })
]

-- When the encoder writes the message as a JSON string between parts that do not depend on it and
-- these leave room in `PIPE_BUF`, `encode` logs a prefix of the message that fits the room: all of
-- it, or whole characters up to one with which it would not have fitted.
pub encode-Keeps :
    (line : List ℕ → Text) (msg : List ℕ)
    → Encodes line
    → length (line []) ≤ pipe_buf
    → (kept : List ℕ) × (encode line msg ≡ line kept) × Keeps (pipe_buf - length (line [])) msg kept
unfolding encode
encode-Keeps line msg encodes room = elim (Bool-cases (leb (length (line msg)) pipe_buf)) [
  | inl whole ↦ (
    msg,
    rw whole,
    record {
      cut = [];
      splits = sym (append-nil msg);
      fits = ground (arith, length-line line msg encodes);
      full = inl refl;
    },
  )
  | inr long ↦ (
    trim (pipe_buf - length (line [])) msg,
    rw long,
    trim-Keeps (pipe_buf - length (line [])) msg,
  )
]
