-- ===== src/Plugins/Store.antt =====
-- apps/core0/plugin/store.go, and Store of api.go: the stores of the plugins, one for each scope.
-- A store is a shared object: its operations are on the entry of the scope.
use debug_bootstrap.Prelude.{
  ◌≡◌, refl, sym, ◌∙◌, subst, Option, none, some, [], Bytes, bytes_equal, ◌==◌, if◌then◌else◌,
  arith, ◌&&◌, Bool-cases, Option-cases, inl, inr, bytes_eq_iff,
}
use debug_bootstrap.Prelude.Dict.{Dict, lookup, insert, remove, lookup-insert, lookup-remove}

abbrev pub Stores : Type 0
Stores = Dict Bytes (Dict Bytes Bytes)

-- m.Store(scope): the store of the scope, a new one if there is none
unfoldable pub store : Bytes → Stores → Stores × Dict Bytes Bytes
store scope stores = elim (lookup scope stores) [
  | some data_of ↦ (stores, data_of)
  | none ↦ (insert scope [] stores, [])
]

-- Set, Del, Get and List of a store that Store gave
unfoldable pub set : Bytes → Bytes → Bytes → Stores → Stores
unfolding store
set scope key value stores =
    let (stores', data_of) = store scope stores in insert scope (insert key value data_of) stores'

unfoldable pub del : Bytes → Bytes → Stores → Stores
unfolding store
del scope key stores =
    let (stores', data_of) = store scope stores in insert scope (remove key data_of) stores'

unfoldable pub get : Bytes → Bytes → Stores → Option Bytes
unfolding store
get scope key stores = lookup key (store scope stores).1

unfoldable pub list : Bytes → Stores → Dict Bytes Bytes
unfolding store
list scope stores = (store scope stores).1

-- The data of a scope: none, if there is no store
contents : Option (Dict Bytes Bytes) → Dict Bytes Bytes
contents none = []
contents (some data_of) = data_of

get-contents :
    (scope key : Bytes) (stores : Stores)
    → get scope key stores ≡ lookup key (contents (lookup scope stores))
unfolding get store contents
get-contents scope key stores = elim (Option-cases (lookup scope stores)) [
  | inl e ↦ rw (get, store, e) refl
  | inr (d, e) ↦ rw (get, store, e) refl
]

-- What stands under a scope after its data are replaced
lookup-replace :
    (scope scope' : Bytes) (f : Dict Bytes Bytes → Dict Bytes Bytes) (stores : Stores)
    → lookup scope'
        (let (stores', data_of) = store scope stores in insert scope (f data_of) stores')
      ≡ (if scope == scope'
          then some (f (contents (lookup scope stores)))
          else lookup scope' stores)
unfolding store contents
lookup-replace scope scope' f stores = elim (Option-cases (lookup scope stores)) [
  | inl e ↦
      rw (store, e)
        (lookup-insert scope scope' (f []) (insert scope [] stores)
          ∙ ground (arith, lookup-insert scope scope' [] stores))
  | inr (d, e) ↦ rw (store, e) (lookup-insert scope scope' (f d) stores)
]

-- What Get gives after a change of the data of a scope
get-replace :
    (scope scope' key : Bytes) (f : Dict Bytes Bytes → Dict Bytes Bytes) (stores : Stores)
    → get scope' key
        (let (stores', data_of) = store scope stores in insert scope (f data_of) stores')
      ≡ (if scope == scope'
          then lookup key (f (contents (lookup scope stores)))
          else get scope' key stores)
unfolding contents
get-replace scope scope' key f stores =
    let after = (let (stores', data_of) = store scope stores in insert scope (f data_of) stores') in
    let now = get-contents scope' key after in
    let entry = lookup-replace scope scope' f stores in
    elim (Bool-cases (scope == scope')) [
      | inl same ↦
          let here : lookup scope' after ≡ some (f (contents (lookup scope stores))) =
            entry ∙ rw same refl in
          now ∙ rw (here, same) refl
      | inr other ↦
          let kept : lookup scope' after ≡ lookup scope' stores = entry ∙ rw other refl in
          now ∙ rw (kept, other) (sym (get-contents scope' key stores))
    ]

-- Set and Del change what Get gives for their scope and key, to the value and to nothing, and for
-- no other scope and key.
pub get-set_del :
    (scope key value scope' key' : Bytes) (stores : Stores)
    → (get scope' key' (set scope key value stores)
        ≡ (if scope == scope' && key == key' then some value else get scope' key' stores))
      × (get scope' key' (del scope key stores)
          ≡ (if scope == scope' && key == key' then none else get scope' key' stores))
unfolding set del
get-set_del scope key value scope' key' stores =
    let before = get-contents scope key' stores in
    let replaced = get-replace scope scope' key' in
    elim (Bool-cases (scope == scope')) [
      | inl same ↦
          let at : scope ≡ scope' = (bytes_eq_iff scope scope').0 same in
          let old : get scope' key' stores ≡ lookup key' (contents (lookup scope stores)) =
            subst (λ s. get s key' stores ≡ lookup key' (contents (lookup scope stores))) at
              before in
          (
            replaced (insert key value) stores
                ∙ rw (same, old) (lookup-insert key key' value (contents (lookup scope stores))),
            replaced (remove key) stores
                ∙ rw (same, old) (lookup-remove key key' (contents (lookup scope stores))),
          )
      | inr other ↦ (
        replaced (insert key value) stores ∙ rw other refl,
        replaced (remove key) stores ∙ rw other refl,
      )
    ]
