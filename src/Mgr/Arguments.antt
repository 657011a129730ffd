-- ===== src/Mgr/Arguments.antt =====
-- processArgs and osEnvironAsMap of base/mgr/pm.go: the arguments of a startup service, some of them
-- under a condition. The order in which Go walks a map, and strings.TrimSpace, are arguments.
pub mod Plain
pub mod Twice
use debug_bootstrap.Prelude.{
  ℕ, zero, suc, Bool, true, false, Option, none, some, List, [], ◌∷◌, ◌++◌, map, Bytes, bytes_equal,
  ◌==◌, if◌then◌else◌, split_two,
}
use debug_bootstrap.Prelude.Dict.{Dict, insert}
use debug_bootstrap.Utils.Format.{format}
use debug_bootstrap.Settings.Condition.{
  Expression, Condition, condition, garbage, syntax_error, panicked, diverges, get_expression,
  examine,
}

-- map[string]interface{}, and what stands in it
mutual
  pub data ArgValue : Type 0 where
    text : Bytes → ArgValue
    texts : List Bytes → ArgValue
    items : ArgItems → ArgValue
    table : Args → ArgValue
    other : ArgValue

  -- []interface{}
  pub data ArgItems : Type 0 where
    no_items : ArgItems
    item : ArgValue → ArgItems → ArgItems

  pub data Args : Type 0 where
    no_args : Args
    arg : Bytes → ArgValue → Args → Args

-- args[key]; a key that is not there gives nil
unfoldable pub find : Bytes → Args → ArgValue
find key no_args = other
find key (arg k v args) = if k == key then v else find key args

-- args[key] = value
unfoldable pub put : Bytes → ArgValue → Args → Args
put key value no_args = arg key value no_args
put key value (arg k v args) = if k == key then arg key value args else arg k v (put key value args)

-- delete(args, key)
unfoldable pub drop_key : Bytes → Args → Args
drop_key key no_args = no_args
drop_key key (arg k v args) =
    let rest = drop_key key args in if k == key then rest else arg k v rest

-- Processing ends, or an Examine panics; fuel is the model's own.
pub data Processed : Type 0 where
  processed : Args → Processed
  crashed out_of_fuel : Processed

unfoldable pub then_args : Processed → (Args → Processed) → Processed
then_args (processed args) k = k args
then_args crashed k = crashed
then_args out_of_fuel k = out_of_fuel

unfoldable pub format_items : (Bytes → Option Bytes) → ArgItems → ArgItems
format_items values no_items = no_items
format_items values (item (text s) rest) = item (text (format values s)) (format_items values rest)
format_items values (item (texts l) rest) = item (texts l) (format_items values rest)
format_items values (item (items l) rest) = item (items l) (format_items values rest)
format_items values (item (table t) rest) = item (table t) (format_items values rest)
format_items values (item other rest) = item other (format_items values rest)

-- The input of a condition: which keys there are
unfoldable pub has_value : (Bytes → Option Bytes) → Bytes → Bool
has_value values key = elim (values key) [ none ↦ false | some v ↦ true ]

-- The switch over the type of the value: what is none of these is not stored. `nested` is
-- processArgs for a map in the map.
unfoldable pub store_value :
    (Bytes → Option Bytes) → (Args → Processed) → Bytes → ArgValue → Args → Processed
unfolding format_items put then_args
store_value values nested key (text s) args = processed (put key (text (format values s)) args)
store_value values nested key (texts l) args =
    processed (put key (texts (map (format values) l)) args)
store_value values nested key (items l) args =
    processed (put key (items (format_items values l)) args)
store_value values nested key (table t) args =
    then_args (nested t) (λ u. processed (put key (table u) args))
store_value values nested key other args = processed args

-- A key under a condition: it is taken out, and its value stored under the second part, if the
-- condition holds. `value` is what the switch does, for a key and the arguments.
unfoldable pub examined : Bytes → (Args → Processed) → Args → Option Bool → Processed
examined key store args none = crashed
examined key store args (some false) = processed (drop_key key args)
examined key store args (some true) = store (drop_key key args)

unfoldable pub conditional :
    (Bytes → Option Bytes) → Bytes → (Args → Processed) → Args → Condition → Processed
unfolding examined has_value
conditional values key store args (condition e) =
    examined key store args (examine (has_value values) e)
conditional values key store args garbage = processed args
conditional values key store args syntax_error = processed args
conditional values key store args panicked = crashed
conditional values key store args diverges = out_of_fuel

-- strings.SplitN(l, "=", 2) for the lines of the environment
unfoldable pub environ : List Bytes → Dict Bytes Bytes → Dict Bytes Bytes
environ [] r = r
environ (l ∷ ls) r =
    let (name, value) = split_two b'=' l in
    elim value [ none ↦ environ ls r | some v ↦ environ ls (insert name v r) ]

module _ (trim_space : Bytes → Bytes) (walk : Args → List Bytes) where
  -- One turn of the loop over the keys
  unfoldable pub process_key :
      ℕ → (Bytes → Option Bytes) → (Args → Processed) → Bytes → Args → Processed
  unfolding conditional store_value
  process_key fuel values nested key args =
      let (first, second) = split_two b'|' key in
      elim second [
        | none ↦ store_value values nested key (find key args) args
        | some target ↦
            conditional values key (store_value values nested (trim_space target) (find key args))
              args (get_expression fuel (trim_space first))
      ]

  unfoldable pub process_keys :
      ℕ → (Bytes → Option Bytes) → (Args → Processed) → List Bytes → Args → Processed
  unfolding process_key then_args
  process_keys fuel values nested [] args = processed args
  process_keys fuel values nested (key ∷ keys) args =
      then_args (process_key fuel values nested key args) (process_keys fuel values nested keys)

  -- func processArgs: the fuel is for the depth of the maps and for each condition
  unfoldable pub process_args : ℕ → (Bytes → Option Bytes) → Args → Processed
  unfolding process_keys
  process_args zero values args = out_of_fuel
  process_args (suc fuel) values args =
      process_keys (suc fuel) values (process_args fuel values) (walk args) args

  -- The two calls of RunSlice: with the environment, and with the options of the kernel
  unfoldable pub startup_args :
      ℕ → (Bytes → Option Bytes) → (Bytes → Option Bytes) → Args → Processed
  unfolding process_args then_args
  startup_args fuel environment cmdline args =
      then_args (process_args fuel environment args) (process_args fuel cmdline)
