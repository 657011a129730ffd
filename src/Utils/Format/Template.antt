-- ===== src/Utils/Format/Template.antt =====
-- What Format of base/utils/utils.go makes of a text of plain parts and holes.
use debug_bootstrap.Prelude.{
  ℕ, ◌≡◌, ◌≢◌, refl, ◌∙◌, ap, false, Option, none, some, List, [], ◌∷◌, ◌++◌, append_assoc,
  append-nil, Bytes, bytes_equal, nat_beq, IsFreeOf, All, Option-cases, inl, inr,
}
use debug_bootstrap.Utils.Format.{trim_left_brace, replaced, format_from, format}

-- A plain text, or a key in braces
pub data Part : Type 0 where
  plain hole : Bytes → Part

abbrev pub show_part : Part → Bytes
show_part (plain w) = w
show_part (hole key) = b'{' ∷ key ++ b'}' ∷ []

abbrev pub show : List Part → Bytes
show [] = []
show (p ∷ parts) = show_part p ++ show parts

-- A plain text has no opening brace, and a key no brace, and it is not empty.
abbrev pub IsPart : Part → Type 0
IsPart (plain w) = IsFreeOf b'{' w
IsPart (hole key) = (key ≢ []) × IsFreeOf b'{' key × IsFreeOf b'}' key

-- The value of the key, or the hole itself
abbrev pub fill_key : Bytes → Option Bytes → Bytes
fill_key key none = b'{' ∷ key ++ b'}' ∷ []
fill_key key (some value) = value

abbrev pub fill : (Bytes → Option Bytes) → List Part → Bytes
fill values [] = []
fill values (plain w ∷ parts) = w ++ fill values parts
fill values (hole key ∷ parts) = fill_key key (values key) ++ fill values parts

module _ (values : Bytes → Option Bytes) where
  format-plain : (w s : Bytes) → IsFreeOf b'{' w → format values (w ++ s) ≡ w ++ format values s
  unfolding format format_from
  format-plain [] s free = refl
  format-plain (c ∷ w) s (no_brace, free) = rw (no_brace) (ap (◌∷◌ c) (format-plain w s free))

  format_from-inner :
      (i : ℕ) (inner key s : Bytes)
      → IsFreeOf b'}' key
      → format_from values (some (i ∷ inner)) (key ++ b'}' ∷ s)
        ≡ replaced values (i ∷ inner ++ key) ++ format values s
  unfolding format format_from
  format_from-inner i inner [] s free = rw append-nil refl
  format_from-inner i inner (c ∷ key) s (no_brace, free) =
      rw no_brace (
        format_from-inner i (inner ++ c ∷ []) key s free
        ∙ rw (append_assoc inner (c ∷ []) key) refl)

  replaced-fill :
      (i : ℕ) (key : Bytes)
      → nat_beq i b'{' ≡ false
      → replaced values (i ∷ key) ≡ fill_key (i ∷ key) (values (i ∷ key))
  unfolding replaced trim_left_brace
  replaced-fill i key no_brace =
      let trimmed : trim_left_brace (i ∷ key) ≡ i ∷ key = rw (trim_left_brace, no_brace) refl in
      elim (Option-cases (values (i ∷ key))) [
        | inl gone ↦ rw (replaced, trimmed, gone) refl
        | inr (value, found) ↦ rw (replaced, trimmed, found) refl
      ]

  format-hole :
      (key s : Bytes)
      → IsPart (hole key)
      → format values (b'{' ∷ key ++ b'}' ∷ s) ≡ fill_key key (values key) ++ format values s
  unfolding format format_from
  format-hole [] s (filled, opening, closing) = absurd (filled refl)
  format-hole (c ∷ key) s (filled, opening, closing) =
      rw closing.0
        (format_from-inner c [] key s closing.1 ∙ rw (replaced-fill c key opening.0) refl)

  -- A text of plain parts without an opening brace and of keys in braces, none of them empty or
  -- with a brace, is formatted to the plain parts and the values of the keys, where a key without
  -- a value stays as it is with its braces.
  pub format-fill :
      (parts : List Part) → All IsPart parts → format values (show parts) ≡ fill values parts
  unfolding format format_from
  format-fill [] all = refl
  format-fill (plain w ∷ parts) (free, all) =
      format-plain w (show parts) free ∙ ap (λ t. w ++ t) (format-fill parts all)
  format-fill (hole key ∷ parts) (is, all) =
      ap (format values) (ap (◌∷◌ b'{') (append_assoc key (b'}' ∷ []) (show parts)))
      ∙ format-hole key (show parts) is
      ∙ ap (λ t. fill_key key (values key) ++ t) (format-fill parts all)
