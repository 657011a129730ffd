-- ===== src/Settings/Condition/Hang.antt =====
-- Conditions that end within their arguments (base/settings/condition.go).
use debug_bootstrap.Prelude.{
  ℕ, zero, suc, ◌≡◌, refl, sym, ap, subst, ◌∙◌, true, false, some, [], ◌∷◌, ◌++◌, Bytes, nat_beq,
  length, drop, get_elem?, arith, length-append, append_assoc, ◌<◌, lt→ltb, le→ltb, lt→leb,
  if◌then◌else◌,
}
use native.Mathlib.Nat.{zero-add}
use debug_bootstrap.Settings.Condition.{
  Arguments, no_arguments, snoc, Parsed, parsed, out_of_fuel, fine, one, loop, get_one,
  argument_read, argument_end, after_argument, index_nonspace, is_word, opens, built, build,
  diverges, get_expression, checked,
}
use debug_bootstrap.Settings.Condition.Words.{
  drop-length_append, get_elem?-length, IsWord, get_one-loop, loop-comma, one-word, unfinished,
}

after_argument-stays :
    (n : ℕ) (s r : Bytes) (c : ℕ)
    → drop n s ≡ c ∷ r
    → nat_beq c b' ' ≡ false
    → after_argument n s ≡ n
unfolding after_argument index_nonspace
after_argument-stays n s r c e h = rw (e, after_argument) (rw h (rw zero-add))

module _ (x y : ℕ) (v w : Bytes) (hv : IsWord (x ∷ v)) (hw : IsWord (y ∷ w)) where
  -- The text up to the parenthesis, and up to the comma.
  abbrev opening : Bytes
  opening = (x ∷ v) ++ b'(' ∷ []

  abbrev body : Bytes
  body = opening ++ (y ∷ w)

  abbrev text : Bytes
  text = unfinished (x ∷ v) (y ∷ w)

  at_opening : text ≡ opening ++ ((y ∷ w) ++ b',' ∷ [])
  at_opening = sym (append_assoc (x ∷ v) (b'(' ∷ []) ((y ∷ w) ++ b',' ∷ []))

  at_comma : text ≡ body ++ b',' ∷ []
  at_comma = at_opening ∙ sym (append_assoc opening (y ∷ w) (b',' ∷ []))

  size-text : length text ≡ suc (length body)
  size-text = ap length at_comma ∙ omega (arith, length-append body (b',' ∷ []))

  opens-first : opens text (length (x ∷ v)) ≡ true
  unfolding opens
  opens-first =
      let room : suc (length (x ∷ v)) < length text =
        omega
          (arith, size-text, length-append opening (y ∷ w), length-append (x ∷ v) (b'(' ∷ [])) in
      let paren : get_elem? text (length (x ∷ v)) ≡ some b'(' =
        get_elem?-length (x ∷ v) ((y ∷ w) ++ b',' ∷ []) b'(' in
      rw (lt→ltb (suc (length (x ∷ v))) (length text) room) (rw (paren, opens) refl)

  opens-second : opens text (length body) ≡ false
  unfolding opens
  opens-second = rw (le→ltb (suc (length body)) (length text) (omega (arith, size-text)))

  first :
      (fuel : ℕ)
      → get_one (suc fuel) text (one 0)
        ≡ get_one fuel text (loop (x ∷ v) (length (x ∷ v)) no_arguments)
  unfolding is_word
  first fuel = one-word fuel [] v ((y ∷ w) ++ b',' ∷ []) b'(' x hv refl refl ∙ rw opens-first

  second :
      (fuel : ℕ)
      → get_one (suc fuel) text (one (suc (length (x ∷ v))))
        ≡ built text (y ∷ w) no_arguments (length body)
  unfolding is_word
  second fuel =
      let size : length opening ≡ suc (length (x ∷ v)) =
        omega (arith, length-append (x ∷ v) (b'(' ∷ [])) in
      subst (λ n. get_one (suc fuel) text (one n) ≡ built text (y ∷ w) no_arguments (length body))
        size
        (subst
            (λ s. get_one (suc fuel) s (one (length opening)) ≡ (
              if opens s (length body)
              then get_one fuel s (loop (y ∷ w) (length body) no_arguments)
              else built s (y ∷ w) no_arguments (length body)))
            (sym at_opening) (one-word fuel opening w [] b',' y hw refl refl)
          ∙ rw opens-second)

  built-fine :
      built text (y ∷ w) no_arguments (length body)
      ≡ parsed (some (build (y ∷ w) no_arguments)) (length body) fine
  unfolding built
  built-fine = rw (lt→leb (length text) (length body) (omega (arith, size-text)))

  -- The argument is read, and the loop stands at the comma.
  second_round :
      (token : Bytes) (ts : Arguments) (more : ℕ → Arguments → Parsed)
      → argument_read text token ts more (built text (y ∷ w) no_arguments (length body))
        ≡ more (length body) (snoc ts (some (build (y ∷ w) no_arguments)))
  unfolding argument_read
  second_round token ts more =
      let behind : drop (length body) text ≡ b',' ∷ [] =
        ap (drop (length body)) at_comma ∙ drop-length_append body (b',' ∷ []) in
      let comma : get_elem? text (length body) ≡ some b',' =
        ap (λ s. get_elem? s (length body)) at_comma ∙ get_elem?-length body [] b',' in
      ap (argument_read text token ts more) built-fine
      ∙ rw (after_argument-stays (length body) text [] b',' behind refl)
          (rw (comma, argument_end) refl)

  never : (fuel : ℕ) → get_one fuel text (one 0) ≡ out_of_fuel
  never zero = unfold get_one in refl
  never (suc zero) = first 0 ∙ unfold get_one in refl
  never (suc (suc zero)) =
      first 1 ∙ get_one-loop 0 text (x ∷ v) _ no_arguments ∙ unfold get_one argument_read in refl
  never (suc (suc (suc fuel))) =
      first (suc (suc fuel))
      ∙ get_one-loop (suc fuel) text (x ∷ v) (length (x ∷ v)) no_arguments
      ∙ ap
          (argument_read text (x ∷ v) no_arguments
            (λ n us. get_one (suc fuel) text (loop (x ∷ v) n us)))
          (second fuel)
      ∙ second_round (x ∷ v) no_arguments (λ n us. get_one (suc fuel) text (loop (x ∷ v) n us))
      ∙ subst
          (λ s.
            get_one (suc fuel) s
              (loop (x ∷ v) (length body) (snoc no_arguments (some (build (y ∷ w) no_arguments))))
            ≡ out_of_fuel)
          (sym at_comma) (loop-comma (suc fuel) body (x ∷ v) _)

-- GetExpression never returns on a text of the form "v(w,", for any two words v and w: however many
-- nested calls and rounds it is given, it needs more.
pub get_expression-unfinished :
    (fuel x y : ℕ) (v w : Bytes)
    → IsWord (x ∷ v)
    → IsWord (y ∷ w)
    → get_expression fuel (unfinished (x ∷ v) (y ∷ w)) ≡ diverges
unfolding get_expression checked
get_expression-unfinished fuel x y v w hv hw =
    ap (checked (unfinished (x ∷ v) (y ∷ w))) (never x y v w hv hw fuel)
