-- ===== src/Settings/Condition/Words.antt =====
-- Where words end, and what GetExpression makes of one word (base/settings/condition.go).
use debug_bootstrap.Prelude.{
  ℕ, zero, suc, ◌+◌, ◌-◌, ◌≡◌, refl, sym, ap, subst, ◌∙◌, true, false, none, some, [], ◌∷◌, ◌++◌,
  Bytes, nat_beq, length, drop, get_elem?, arith, length-append, All, append_assoc, if◌then◌else◌,
}
use native.Mathlib.Nat.{zero-add}
use debug_bootstrap.Settings.Condition.{
  Call, Arguments, no_arguments, snoc, Parsed, parsed, out_of_fuel, fine, one, loop, get_one,
  get_token, argument_read, after_argument, index_nonspace, forward, is_word, word, opens, built,
}

pub drop-length_append : (p s : Bytes) → drop (length p) (p ++ s) ≡ s
drop-length_append [] s = refl
drop-length_append (c ∷ p) s = drop-length_append p s

pub get_elem?-length : (p s : Bytes) (c : ℕ) → get_elem? (p ++ c ∷ s) (length p) ≡ some c
get_elem?-length [] s c = refl
get_elem?-length (x ∷ p) s c = get_elem?-length p s c

pub drop_all : (s : Bytes) → drop (length s) s ≡ []
drop_all [] = refl
drop_all (c ∷ s) = drop_all s

-- A position that stands at no space is where `forward` stays.
pub forward-stays :
    (n : ℕ) (s r : Bytes) (c : ℕ) → drop n s ≡ c ∷ r → nat_beq c b' ' ≡ false → forward n s ≡ n
unfolding forward index_nonspace
forward-stays n s r c e h = rw (e, forward) (rw h (rw zero-add))

pub forward-end : (n : ℕ) (s : Bytes) → drop n s ≡ [] → forward n s ≡ n
unfolding forward index_nonspace
forward-end n s e = rw (e, forward)

-- Every byte is one of [\w-].
abbrev pub IsWord : Bytes → Type 0
IsWord w = All (λ c. is_word c ≡ true) w

pub word-append : (w r : Bytes) (c : ℕ) → IsWord w → is_word c ≡ false → word (w ++ c ∷ r) ≡ w
unfolding word
word-append [] r c h n = rw n
word-append (x ∷ w) r c h n = rw h.0 (ap (◌∷◌ x) (word-append w r c h.1 n))

-- No word begins at the end.
pub one-end :
    (fuel : ℕ) (s : Bytes) → get_one (suc fuel) s (one (length s)) ≡ parsed none (length s) fine
unfolding get_one word
one-end fuel s = rw (forward-end (length s) s (drop_all s), drop_all s)

pub get_one-loop :
    (fuel : ℕ) (s token : Bytes) (next : ℕ) (ts : Arguments)
    → get_one (suc fuel) s (loop token next ts)
      ≡ argument_read s token ts
          (λ n us. get_one fuel s (loop token n us))
          (get_one fuel s (one (suc next)))
unfolding get_one
get_one-loop fuel s token next ts = refl

pub after_argument-end : (s : Bytes) → after_argument (length s) s ≡ length s - 1
unfolding after_argument index_nonspace
after_argument-end s = rw (drop_all s, after_argument)

-- A round that reads nothing behind a comma at the end of the text goes round again.
pub comma_round :
    (p token : Bytes) (ts : Arguments) (more : ℕ → Arguments → Parsed)
    → argument_read (p ++ b',' ∷ []) token ts more (parsed none (length (p ++ b',' ∷ [])) fine)
      ≡ more (length p) (snoc ts none)
unfolding argument_read
comma_round p token ts more =
    let s = p ++ b',' ∷ [] in
    let back : after_argument (length s) s ≡ length p =
      after_argument-end s ∙ omega (arith, length-append p (b',' ∷ [])) in
    rw (back, get_elem?-length p [] b',') refl

-- Once the loop stands at a comma that ends the text, each round adds a nil argument and leaves it
-- there: no fuel is enough.
pub loop-comma :
    (fuel : ℕ) (p token : Bytes) (ts : Arguments)
    → get_one fuel (p ++ b',' ∷ []) (loop token (length p) ts) ≡ out_of_fuel
loop-comma zero p token ts = unfold get_one in refl
loop-comma (suc zero) p token ts = unfold get_one argument_read in refl
loop-comma (suc (suc fuel)) p token ts =
    let s = p ++ b',' ∷ [] in
    let size : length s ≡ suc (length p) = omega (arith, length-append p (b',' ∷ [])) in
    let nothing : get_one (suc fuel) s (one (suc (length p))) ≡ parsed none (length s) fine =
      subst (λ n. get_one (suc fuel) s (one n) ≡ parsed none (length s) fine) size
        (one-end fuel s) in
    get_one-loop (suc fuel) s token (length p) ts
    ∙ ap (argument_read s token ts (λ n us. get_one (suc fuel) s (loop token n us))) nothing
    ∙ comma_round p token ts (λ n us. get_one (suc fuel) s (loop token n us))
    ∙ loop-comma (suc fuel) p token (snoc ts none)

pub word_no_space : (x : ℕ) → is_word x ≡ true → nat_beq x b' ' ≡ false
unfolding is_word
word_no_space x h = ground arith

pub get_one-one :
    (fuel : ℕ) (s t : Bytes) (n : ℕ)
    → forward n s ≡ n
    → word (drop n s) ≡ t
    → get_one (suc fuel) s (one n) ≡ get_token s (λ call. get_one fuel s call) n t
unfolding get_one
get_one-one fuel s t n e h = rw (e, h)

pub get_token-word :
    (s : Bytes) (call : Call → Parsed) (n m c : ℕ) (t : Bytes)
    → forward (suc (length t) + n) s ≡ m
    → get_token s call n (c ∷ t)
      ≡ (if opens s m then call (loop (c ∷ t) m no_arguments) else built s (c ∷ t) no_arguments m)
unfolding get_token
get_token-word s call n m c t e = rw e

-- A word at a position, with a byte behind it that is neither a word's nor a space.
pub one-word :
    (fuel : ℕ) (p w r : Bytes) (c x : ℕ)
    → IsWord (x ∷ w)
    → is_word c ≡ false
    → nat_beq c b' ' ≡ false
    → let s = p ++ ((x ∷ w) ++ c ∷ r) in
      let m = length (p ++ x ∷ w) in
      get_one (suc fuel) s (one (length p)) ≡ (
        if opens s m
        then get_one fuel s (loop (x ∷ w) m no_arguments)
        else built s (x ∷ w) no_arguments m)
one-word fuel p w r c x h n sp =
    let s = p ++ ((x ∷ w) ++ c ∷ r) in
    let here : drop (length p) s ≡ (x ∷ w) ++ c ∷ r = drop-length_append p ((x ∷ w) ++ c ∷ r) in
    let token : word (drop (length p) s) ≡ x ∷ w = ap word here ∙ word-append (x ∷ w) r c h n in
    let size : suc (length w) + length p ≡ length (p ++ x ∷ w) =
      omega (arith, length-append p (x ∷ w)) in
    let behind : drop (length (p ++ x ∷ w)) s ≡ c ∷ r =
      ap (drop (length (p ++ x ∷ w))) (sym (append_assoc p (x ∷ w) (c ∷ r)))
      ∙ drop-length_append (p ++ x ∷ w) (c ∷ r) in
    get_one-one fuel s (x ∷ w) (length p)
      (forward-stays (length p) s (w ++ c ∷ r) x here (word_no_space x h.0)) token
    ∙ get_token-word s (λ call. get_one fuel s call) (length p) (length (p ++ x ∷ w)) x w
        (ap (λ k. forward k s) size ∙ forward-stays (length (p ++ x ∷ w)) s r c behind sp)

-- "v(w,": a word, its parenthesis, one argument, and a comma.
abbrev pub unfinished : Bytes → Bytes → Bytes
unfinished v w = v ++ b'(' ∷ (w ++ b',' ∷ [])
