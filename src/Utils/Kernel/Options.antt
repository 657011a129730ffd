-- ===== src/Utils/Kernel/Options.antt =====
-- base/utils/cmdline.go: the options, key by key.
use debug_bootstrap.Prelude.{
  Option, none, some, List, [], ◌∷◌, ◌++◌, Bytes, ◌≡◌, refl, ap, ◌∙◌, split_two, bytes_equal,
  bytes_eq_iff, ◌==◌, if◌then◌else◌, Bool-cases, inl, inr,
}
use debug_bootstrap.Prelude.Dict.{lookup, lookup-insert}
use debug_bootstrap.Utils.Kernel.{
  KernelOptions, values_or_nil, add_option, parse_words, parse_kernel_options,
}

-- What the words of one key give, in their order: a value, or nothing for the key alone.
unfoldable pub given : Bytes → List Bytes → List (Option Bytes)
unfolding split_two
given key [] = []
given key (word ∷ words) =
    let (k, value) = split_two b'=' word in
    let rest = given key words in if k == key then value ∷ rest else rest

-- The values behind the last time that the key stands alone, if it does
unfoldable pub values_since : List Bytes → List (Option Bytes) → List Bytes
values_since vs [] = vs
values_since vs (none ∷ os) = values_since [] os
values_since vs (some v ∷ os) = values_since (vs ++ v ∷ []) os

abbrev pub option_of : Option (List Bytes) → List (Option Bytes) → Option (List Bytes)
option_of old [] = old
option_of old (o ∷ os) = some (values_since (values_or_nil old) (o ∷ os))

add_option-lookup :
    (k key : Bytes) (value : Option Bytes) (options : KernelOptions)
    → lookup key (add_option k value options)
      ≡ (if k == key then option_of (lookup k options) (value ∷ []) else lookup key options)
unfolding add_option values_since
add_option-lookup k key none options = lookup-insert k key [] options
add_option-lookup k key (some v) options =
    lookup-insert k key (values_or_nil (lookup k options) ++ v ∷ []) options

option_of-cons :
    (old : Option (List Bytes)) (o : Option Bytes) (os : List (Option Bytes))
    → option_of (option_of old (o ∷ [])) os ≡ option_of old (o ∷ os)
unfolding values_since values_or_nil
option_of-cons old o [] = refl
option_of-cons old none (p ∷ os) = refl
option_of-cons old (some v) (p ∷ os) = refl

parse_words-lookup :
    (key : Bytes) (words : List Bytes) (options : KernelOptions)
    → lookup key (parse_words words options) ≡ option_of (lookup key options) (given key words)
unfolding parse_words given
parse_words-lookup key [] options = refl
parse_words-lookup key (word ∷ words) options =
    let k = (split_two b'=' word).0 in
    let value = (split_two b'=' word).1 in
    let next = add_option k value options in
    parse_words-lookup key words next ∙ elim (Bool-cases (k == key)) [
      | inr e ↦
          let other : lookup key next ≡ lookup key options =
            add_option-lookup k key value options ∙ rw e refl in
          rw (other, e) refl
      | inl e ↦
          let same : k ≡ key = (bytes_eq_iff k key).0 e in
          let added : lookup key next ≡ option_of (lookup key options) (value ∷ []) =
            add_option-lookup k key value options
            ∙ rw e (ap (λ j. option_of (lookup j options) (value ∷ [])) same) in
          rw (added, e) (option_of-cons (lookup key options) value (given key words))
    ]

-- However the line is split into words, a key is among the options exactly when some word has it in
-- front of its first equality sign, or is it; then the option has, in their order, the values of the
-- words with that key, of those behind the last word that is the key alone, if there is one.
pub parse_kernel_options-lookup :
    (shlex : Bytes → List Bytes) (content key : Bytes)
    → lookup key (parse_kernel_options shlex content) ≡ option_of none (given key (shlex content))
unfolding parse_kernel_options
parse_kernel_options-lookup shlex content key = parse_words-lookup key (shlex content) []
