-- ===== src/Client/Form/Within.antt =====
-- The cursors of a form within its texts, and what moving them and changing a text keeps.
use tx_ide_rs.Prelude.{
  ℕ, zero, suc, ◌-◌, ◌≤◌, ◌≡◌, refl, ap, min, List, [], ◌∷◌, Text, length, take, arith,
}
use tx_ide_rs.Client.Form.{Three, at, put, Form}

-- The positions lie within the texts.
abbrev Within : Three Text → Three ℕ → Type 0
Within vs ps =
    (ps.name ≤ length vs.name) × (ps.tags ≤ length vs.tags) × (ps.group ≤ length vs.group)

abbrev pub IsInText : Form → Type 0
IsInText f = Within f.values f.positions

pub at-Within : (i : ℕ) (vs : Three Text) (ps : Three ℕ) → Within vs ps → at i ps ≤ length (at i vs)
at-Within zero vs ps h = h.0
at-Within (suc zero) vs ps h = h.1
at-Within (suc (suc i)) vs ps h = h.2

pub move-Within :
    (i p : ℕ) (vs : Three Text) (ps : Three ℕ)
    → Within vs ps
    → p ≤ length (at i vs)
    → Within vs (put i p ps)
move-Within zero p vs ps h b = (b, h.1, h.2)
move-Within (suc zero) p vs ps h b = (h.0, b, h.2)
move-Within (suc (suc i)) p vs ps h b = (h.0, h.1, b)

pub change-Within :
    (i p : ℕ) (v : Text) (vs : Three Text) (ps : Three ℕ)
    → Within vs ps
    → p ≤ length v
    → Within (put i v vs) (put i p ps)
change-Within zero p v vs ps h b = (b, h.1, h.2)
change-Within (suc zero) p v vs ps h b = (h.0, b, h.2)
change-Within (suc (suc i)) p v vs ps h b = (h.0, h.1, b)

pub set-Within :
    (i : ℕ) (v : Text) (vs : Three Text) (ps : Three ℕ)
    → Within vs ps
    → at i ps ≤ length v
    → Within (put i v vs) ps
set-Within zero v vs ps h b = (b, h.1, h.2)
set-Within (suc zero) v vs ps h b = (h.0, b, h.2)
set-Within (suc (suc i)) v vs ps h b = (h.0, h.1, b)

-- Wherever the cursor of the active field has gone, clamping brings it back.
pub clamp-Within :
    (i p : ℕ) (vs : Three Text) (ps : Three ℕ)
    → Within vs ps
    → Within vs (put i (min (at i (put i p ps)) (length (at i vs) - 1)) (put i p ps))
clamp-Within zero p vs ps h = (omega arith, h.1, h.2)
clamp-Within (suc zero) p vs ps h = (h.0, omega arith, h.2)
clamp-Within (suc (suc i)) p vs ps h = (h.0, h.1, omega arith)

pub length-take {ℓ} : {A : Type ℓ} (n : ℕ) (xs : List A) → n ≤ length xs → length (take n xs) ≡ n
length-take zero xs h = refl
length-take (suc n) [] h = absurd (omega arith)
length-take (suc n) (x ∷ xs) h = ap suc (length-take n xs (omega arith))
