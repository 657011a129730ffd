-- ===== src/Mgr/Arguments/Plain.antt =====
-- processArgs of base/mgr/pm.go for arguments without conditions and without maps in them.
use debug_bootstrap.Prelude.{
  ℕ, suc, ◌≡◌, refl, ◌∙◌, ap, subst, Bool, true, false, Option, none, List, [], ◌∷◌, map, Bytes,
  bytes_equal, ◌==◌, bytes_eq_iff, if◌then◌else◌, contains, split_two, IsFreeOf, Bool-cases, inl,
  inr, arith,
}
use debug_bootstrap.Utils.Format.{format}
use debug_bootstrap.Mgr.Arguments.{
  ArgValue, text, texts, items, table, other, Args, no_args, arg, ArgItems, no_items, item, find,
  put, Processed, processed, then_args, format_items, store_value, process_key, process_keys,
  process_args,
}

-- One item with its text formatted, and each item in its place
abbrev pub formatted_item : (Bytes → Option Bytes) → ArgValue → ArgValue
formatted_item values (text s) = text (format values s)
formatted_item values (texts l) = texts l
formatted_item values (items l) = items l
formatted_item values (table t) = table t
formatted_item values other = other

abbrev pub each_formatted : (Bytes → Option Bytes) → ArgItems → ArgItems
each_formatted values no_items = no_items
each_formatted values (item v rest) = item (formatted_item values v) (each_formatted values rest)

-- A value with its texts formatted
abbrev pub formatted : (Bytes → Option Bytes) → ArgValue → ArgValue
formatted values (text s) = text (format values s)
formatted values (texts l) = texts (map (format values) l)
formatted values (items l) = items (each_formatted values l)
formatted values (table t) = table t
formatted values other = other

abbrev pub is_flat : ArgValue → Bool
is_flat (text s) = true
is_flat (texts l) = true
is_flat (items l) = true
is_flat (table t) = false
is_flat other = true

-- Each key stands in the list once, and has no bar.
abbrev pub IsPlain : List Bytes → Type 0
IsPlain [] = Unit
IsPlain (k ∷ keys) = IsFreeOf b'|' k × (contains keys k ≡ false) × IsPlain keys

format_items-each :
    (values : Bytes → Option Bytes) (l : ArgItems) → format_items values l ≡ each_formatted values l
unfolding format_items
format_items-each values no_items = refl
format_items-each values (item (text s) rest) =
    ap (item (text (format values s))) (format_items-each values rest)
format_items-each values (item (texts l) rest) = ap (item (texts l)) (format_items-each values rest)
format_items-each values (item (items l) rest) = ap (item (items l)) (format_items-each values rest)
format_items-each values (item (table t) rest) = ap (item (table t)) (format_items-each values rest)
format_items-each values (item other rest) = ap (item other) (format_items-each values rest)

find-put :
    (k j : Bytes) (v : ArgValue) (args : Args)
    → find j (put k v args) ≡ (if k == j then v else find j args)
unfolding find put
find-put k j v no_args = ground arith
find-put k j v (arg i w args) = ground (
  arith,
  bytes_equal.sound k j,
  bytes_equal.sound i k,
  bytes_equal.sound i j,
  find-put k j v args,
)

split_two-free : (sep : ℕ) (w : Bytes) → IsFreeOf sep w → split_two sep w ≡ (w, none)
unfolding split_two
split_two-free sep [] free = refl
split_two-free sep (c ∷ w) (no_sep, free) = rw (no_sep, split_two-free sep w free) refl

flat-formatted :
    (values : Bytes → Option Bytes) (v : ArgValue)
    → is_flat v ≡ true
    → is_flat (formatted values v) ≡ true
flat-formatted values (text s) e = refl
flat-formatted values (texts l) e = refl
flat-formatted values (items l) e = refl
flat-formatted values (table t) e = absurd cc
flat-formatted values other e = refl

module _ (trim_space : Bytes → Bytes) (walk : Args → List Bytes)
    (values : Bytes → Option Bytes) where
  -- The key has the value, and the others have theirs.
  Stored : Bytes → ArgValue → Args → Args → Type 0
  Stored key v args after =
      (j : Bytes) → find j after ≡ (if key == j then formatted values v else find j args)

  store_value-Stored :
      (nested : Args → Processed) (key : Bytes) (v : ArgValue) (args : Args)
      → is_flat v ≡ true
      → find key args ≡ v
      → (after : Args) × (store_value values nested key v args ≡ processed after)
        × Stored key v args after
  unfolding store_value Stored
  store_value-Stored nested key (text s) args flat e =
      (put key _ args, refl, λ j. find-put key j _ args)
  store_value-Stored nested key (texts l) args flat e =
      (put key _ args, refl, λ j. find-put key j _ args)
  store_value-Stored nested key (items l) args flat e = (
    put key _ args,
    ap (λ l. processed (put key (items l) args)) (format_items-each values l),
    λ j. find-put key j _ args,
  )
  store_value-Stored nested key (table t) args flat e = absurd cc
  store_value-Stored nested key other args flat e = (
    args,
    refl,
    λ j. elim (Bool-cases (key == j)) [
      | inl same ↦ rw same (subst (λ i. find i args ≡ other) ((bytes_eq_iff key j).0 same) e)
      | inr differs ↦ rw differs refl
    ],
  )

  process_keys-formatted :
      (fuel : ℕ) (nested : Args → Processed) (keys : List Bytes) (args : Args)
      → IsPlain keys
      → ((k : Bytes) → is_flat (find k args) ≡ true)
      → (after : Args) × (process_keys trim_space walk fuel values nested keys args
          ≡ processed after)
        × ((k : Bytes)
            → find k after
              ≡ (if contains keys k then formatted values (find k args) else find k args))
  unfolding process_keys process_key then_args Stored
  process_keys-formatted fuel nested [] args plain flat = (args, refl, λ k. refl)
  process_keys-formatted fuel nested (key ∷ keys) args (free, once, plain) flat =
      let (first, e, stored) = store_value-Stored nested key (find key args) args (flat key) refl in
      let here : process_key trim_space walk fuel values nested key args ≡ processed first =
        rw (process_key, split_two-free b'|' key free) e in
      let flat' : (k : Bytes) → is_flat (find k first) ≡ true = λ k. elim (Bool-cases (key == k)) [
        | inl same ↦
            let at : find k first ≡ formatted values (find key args) = stored k ∙ rw same refl in
            rw at (flat-formatted values (find key args) (flat key))
        | inr differs ↦
            let at : find k first ≡ find k args = stored k ∙ rw differs refl in rw at (flat k)
      ] in
      let (last, e', rest) = process_keys-formatted fuel nested keys first plain flat' in
      (
        last,
        rw (process_keys, here) e',
        λ k. elim (Bool-cases (key == k)) [
          | inl same ↦
              let equal : key ≡ k = (bytes_eq_iff key k).0 same in
              let absent : contains keys k ≡ false =
                subst (λ i. contains keys i ≡ false) equal once in
              let old : find key args ≡ find k args = ap (λ i. find i args) equal in
              let at : find k first ≡ formatted values (find key args) = stored k ∙ rw same refl in
              let now : find k last ≡ find k first = rest k ∙ rw absent refl in
              now ∙ at ∙ rw (old, same) refl
          | inr differs ↦
              let at : find k first ≡ find k args = stored k ∙ rw differs refl in
              rest k ∙ rw (at, differs) refl
        ],
      )

  -- Arguments without maps in them, walked in an order that has each key once, none of them with a
  -- bar, and fuel for one map: processArgs ends, and what stands at a key that is walked is what
  -- stood there with its texts formatted, and at every other key what stood there.
  pub process_args-formatted :
      (fuel : ℕ) (args : Args)
      → IsPlain (walk args)
      → ((k : Bytes) → is_flat (find k args) ≡ true)
      → (after : Args) × (process_args trim_space walk (suc fuel) values args ≡ processed after)
        × ((k : Bytes)
            → find k after
              ≡ (if contains (walk args) k then formatted values (find k args) else find k args))
  unfolding process_args
  process_args-formatted fuel args plain flat =
      process_keys-formatted (suc fuel) (process_args trim_space walk fuel values) (walk args) args
        plain flat
