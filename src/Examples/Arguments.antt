-- ===== src/Examples/Arguments.antt =====
-- The arguments of startup services at concrete inputs.
use debug_bootstrap.Prelude.{
  ℕ, ◌≡◌, refl, true, false, Option, none, some, List, [], ◌∷◌, Bytes, codes, split, split_two,
  bytes_equal, nat_equal, ◌==◌, if◌then◌else◌, arith, contains, All,
}
use debug_bootstrap.Utils.Levels.{expand}
use debug_bootstrap.Utils.Levels.Ascending.{IsAscending, AllValid, expand-IsLevels}
use debug_bootstrap.Mgr.Stats.{trim, trim_right, trim_left}
use debug_bootstrap.Utils.Format.{format}
use debug_bootstrap.Utils.Format.Template.{Part, IsPart, plain, hole, format-fill}
use debug_bootstrap.Settings.Condition.{
  user_exp, condition, get_expression, get_one, forward, index_nonspace, is_word, build, examine,
  word,
}
use debug_bootstrap.Mgr.Arguments.{
  text, other, Args, no_args, arg, find, drop_key, processed, has_value, process_args, startup_args,
}
use debug_bootstrap.Mgr.Arguments.Plain.{formatted, is_flat, IsPlain, process_args-formatted}
use debug_bootstrap.Mgr.Arguments.Twice.{startup_args-hidden}

abbrev values : Bytes → Option Bytes
values key = if key == codes "id" then some (codes "7") else none

abbrev template : List Part
template = plain (codes "a ") ∷ hole (codes "id") ∷ plain (codes "} ") ∷ hole (codes "no") ∷ []

template-IsPart : All IsPart template
template-IsPart = (
  (refl, (refl, tt)),
  (
    (λ e. absurd cc, (refl, (refl, tt)), (refl, (refl, tt))),
    ((refl, (refl, tt)), ((λ e. absurd cc, (refl, (refl, tt)), (refl, (refl, tt))), tt)),
  ),
)

format-fill_example : format values (codes "a {id}} {no}") ≡ codes "a 7} {no}"
format-fill_example = format-fill values template template-IsPart

abbrev same_text : Bytes → Bytes
same_text s = s

abbrev keys : Args → List Bytes
keys no_args = []
keys (arg k v args) = k ∷ keys args

abbrev bridge : Args
bridge = arg (codes "name") (text (codes "br{id}")) (arg (codes "mtu") other no_args)

bridge-flat : (k : Bytes) → is_flat (find k bridge) ≡ true
unfolding find
bridge-flat k = ground arith

bridge-IsPlain : IsPlain (keys bridge)
bridge-IsPlain = ((refl, (refl, (refl, (refl, tt)))), refl, ((refl, (refl, (refl, tt))), refl, tt))

process_args-formatted_example :
    (after : Args) × (process_args same_text keys 1 values bridge ≡ processed after)
    × ((k : Bytes)
        → find k after
          ≡ (if contains (keys bridge) k then formatted values (find k bridge) else find k bridge))
process_args-formatted_example =
    process_args-formatted same_text keys values 0 bridge bridge-IsPlain bridge-flat

-- Under a condition that holds, a text is kept under its name, and a number is lost.
process_args-conditional :
    (process_args same_text keys 9 values (arg (codes "id|name") (text (codes "x")) no_args)
      ≡ processed (arg (codes "name") (text (codes "x")) no_args))
    × (process_args same_text keys 9 values (arg (codes "id|port") other no_args)
        ≡ processed no_args)
unfolding process_args split_two get_expression get_one word forward index_nonspace is_word examine
    build find drop_key format
process_args-conditional = (refl, refl)

read-id : get_expression 9 (codes "id") ≡ condition (user_exp (codes "id"))
unfolding get_expression get_one word forward index_nonspace is_word build
read-id = refl

unmet-id : examine (has_value (λ key. none)) (user_exp (codes "id")) ≡ some false
unfolding examine has_value
unmet-id = refl

startup_args-hidden_example :
    startup_args same_text keys 9
      (λ key. none)
      values
      (arg (codes "id|name") (text (codes "x")) no_args)
    ≡ processed no_args
startup_args-hidden_example =
    startup_args-hidden same_text keys 8 (λ key. none) values (codes "id") (codes "name")
      (text (codes "x")) (user_exp (codes "id")) refl refl (refl, (refl, tt)) read-id unmet-id

-- The numbers of one and two digits
abbrev small_int : Bytes → Option ℕ
small_int s =
    if s == codes "2"
    then some 2
    else if s == codes "4"
    then some 4
    else if s == codes "30"
    then some 30
    else none

expand-ranges : expand same_text small_int (codes "30,2-4") ≡ some (2 ∷ 3 ∷ 4 ∷ 30 ∷ [])
unfolding expand split trim trim_right trim_left
expand-ranges = refl

expand-IsLevels_example : IsAscending 0 (2 ∷ 3 ∷ 4 ∷ 30 ∷ []) × AllValid (2 ∷ 3 ∷ 4 ∷ 30 ∷ [])
expand-IsLevels_example =
    expand-IsLevels same_text small_int (codes "30,2-4") (2 ∷ 3 ∷ 4 ∷ 30 ∷ []) expand-ranges
