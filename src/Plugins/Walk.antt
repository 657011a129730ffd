-- ===== src/Plugins/Walk.antt =====
-- The loop of Load in apps/core0/plugin/manager.go over the plugins, and what it deletes then.
use debug_bootstrap.Prelude.{
  ℕ, ◌<◌, ◌≡◌, ◌≢◌, refl, sym, ◌∙◌, ap, subst, Bool, true, Option, none, some, List, [], ◌∷◌, ◌++◌,
  Bytes, bytes_equal, ◌==◌, if◌then◌else◌, bytes_eq_iff, All, Names, here, there, All-Names,
  Names-split, Bool-cases, Option-cases, inl, inr, ◌⊎◌, arith, contains,
}
use debug_bootstrap.Prelude.Dict.{Dict, lookup, remove, lookup-remove}
use mathlib.Core.Option.{some-injective}
use debug_bootstrap.Plugins.{
  Api, Plugin, PluginManager, Opening, opened, missing_dep, open_failed, out_of_fuel,
  open_recursive, open_each, failed, handles, delete_each,
}
use debug_bootstrap.Plugins.Opened.{
  Shape, shape, shape_of, IsOpened, Grows, Holds, open_recursive-Keeps,
}
use debug_bootstrap.Plugins.Rank.{IsRanked, Dead, broken, missing, needs, Ends, open_recursive-Ends}

-- What one turn of the loop adds to the names that failed
failed-Ends :
    (works : Bytes → Bool) (sig : Bytes → Option Shape) (name : Bytes) (o : Opening)
    → Ends (Dead (λ calls. works) sig name) o
    → ((o ≡ opened) × (failed name o ≡ []))
      ⊎ ((failed name o ≡ name ∷ []) × Dead (λ calls. works) sig name)
failed-Ends works sig name opened e = inl (refl, refl)
failed-Ends works sig name (missing_dep pl req) (inl e) = absurd cc
failed-Ends works sig name (missing_dep pl req) (inr (e, u, d)) = inr (refl, d)
failed-Ends works sig name (open_failed pl) (inl e) = absurd cc
failed-Ends works sig name (open_failed pl) (inr (e, u, d)) = inr (refl, d)
failed-Ends works sig name out_of_fuel (inl e) = absurd cc
failed-Ends works sig name out_of_fuel (inr (e, u, d)) = absurd (u refl)

-- What stands in the table after names are deleted
pub lookup-delete_each :
    {A : Type 0} (k : Bytes) (errored : List Bytes) (t : Dict Bytes (Plugin A))
    → lookup k (delete_each errored t) ≡ (if contains errored k then none else lookup k t)
unfolding delete_each
lookup-delete_each k [] t = refl
lookup-delete_each k (bad ∷ errored) t =
    ground (arith, lookup-delete_each k errored (remove bad t), lookup-remove bad k t)

pub contains-Names : (names : List Bytes) (k : Bytes) → contains names k ≡ true → Names k names
contains-Names [] k e = absurd cc
contains-Names (x ∷ names) k e = elim (Bool-cases (x == k)) [
  | inl same ↦ subst (λ i. Names i (x ∷ names)) ((bytes_eq_iff x k).0 same) here
  | inr other ↦ there (contains-Names names k (rw other at e))
]

pub names-contains : (names : List Bytes) (k : Bytes) → Names k names → contains names k ≡ true
names-contains [] k at = elim at [ ]
names-contains (x ∷ names) k at =
    Names-split (λ i. contains (x ∷ names) i ≡ true) (rw ((bytes_eq_iff x x).1 refl) refl)
      (λ later. ground (arith, names-contains names k later)) at

module _ {A : Type 0} (works : List Bytes → Bytes → Bool) where
  open_each-missing :
      (fuel : ℕ) (name : Bytes) (names : List Bytes) (m : PluginManager A)
      → lookup name m.plugins ≡ none
      → open_each works fuel (name ∷ names) m ≡ open_each works fuel names m
  unfolding open_each
  open_each-missing fuel name names m e = rw (open_each, e) refl

  open_each-found :
      (fuel : ℕ) (name : Bytes) (names : List Bytes) (m : PluginManager A) (pl : Plugin A)
      → lookup name m.plugins ≡ some pl
      → let (m', outcome) = open_recursive works fuel name pl m in
        let (last, errored, registered) = open_each works fuel names m' in
        open_each works fuel (name ∷ names) m
        ≡ (last, failed name outcome ++ errored, handles name pl.api outcome ++ registered)
  unfolding open_each
  open_each-found fuel name names m pl e = rw (open_each, e) refl

module _ {A : Type 0} (works : Bytes → Bool) (sig : Bytes → Option Shape) where
  -- A plugin that cannot be opened is not open.
  pub Dead-shut :
      (t : Dict Bytes (Plugin A)) (k : Bytes)
      → Holds (λ calls. works) sig t
      → Dead (λ calls. works) sig k
      → IsOpened t k
      → ⊥
  Dead-shut t k (conforms, sound) (broken s calls at has fails) (pl, found, is) =
      let same : shape pl ≡ s = some-injective _ _ (ap shape_of (sym found) ∙ conforms k ∙ at) in
      let (all, fine) = sound k pl found is in let (c, ok) = fine (ap (λ x. x.1) same ∙ has) in cc
  Dead-shut t k (conforms, sound) (missing s r at named gone) (pl, found, is) =
      let same : shape pl ≡ s = some-injective _ _ (ap shape_of (sym found) ∙ conforms k ∙ at) in
      let (all, fine) = sound k pl found is in
      let (p, there_is, o) =
        All-Names (IsOpened t) s.0 (subst (λ x. All (IsOpened t) x.0) same all) named in
      let clash : some (shape p) ≡ none = ap shape_of (sym there_is) ∙ conforms r ∙ gone in cc
  Dead-shut t k (conforms, sound) (needs s r at named d) (pl, found, is) =
      let same : shape pl ≡ s = some-injective _ _ (ap shape_of (sym found) ∙ conforms k ∙ at) in
      let (all, fine) = sound k pl found is in
      Dead-shut t r (conforms, sound) d
        (All-Names (IsOpened t) s.0 (subst (λ x. All (IsOpened t) x.0) same all) named)

  -- The table after the loop, and the names that failed in it: a name of the table is open or has
  -- failed, and what has failed cannot be opened.
  unfoldable pub Walked :
      List Bytes → PluginManager A → PluginManager A × List Bytes × List Bytes → Type 0
  Walked names m (m', errored, registered) =
      Holds (λ calls. works) sig m'.plugins
      × Grows m.plugins m'.plugins
      × ((k : Bytes) → Names k names → sig k ≢ none → IsOpened m'.plugins k ⊎ Names k errored)
      × ((k : Bytes) → Names k errored → Dead (λ calls. works) sig k)

  Walked-first :
      (name : Bytes) (names : List Bytes) (m n : PluginManager A) (o : Opening) (api : Api)
      (r : PluginManager A × List Bytes × List Bytes)
      → Grows m.plugins n.plugins
      → (o ≡ opened → IsOpened n.plugins name)
      → Ends (Dead (λ calls. works) sig name) o
      → Walked names n r
      → Walked (name ∷ names) m (r.0, failed name o ++ r.1, handles name api o ++ r.2)
  unfolding Walked
  Walked-first name names m n o api (m', errored, registered) g is ends (h, g', w, d) =
      elim (failed-Ends works sig name o ends) [
        | inl (fine, none_there) ↦ rw none_there (
          h,
          λ k e. g' k (g k e),
          λ k.
              Names-split (λ i. sig i ≢ none → IsOpened m'.plugins i ⊎ Names i errored)
                (λ ne. inl (g' name (is fine))) (λ later. w k later),
          d,
        )
        | inr (one, dead) ↦ rw one (
          h,
          λ k e. g' k (g k e),
          λ k.
              Names-split (λ i. sig i ≢ none → IsOpened m'.plugins i ⊎ Names i (name ∷ errored))
                (λ ne. inr here)
                (λ later ne. elim (w k later ne) [ inl e ↦ inl e | inr e ↦ inr (there e) ]),
          λ k. Names-split (Dead (λ calls. works) sig) dead (d k),
        )
      ]

  pub open_each-Walked :
      (rank : Bytes → ℕ)
      → IsRanked rank sig
      → (fuel : ℕ) → ((k : Bytes) → rank k < fuel)
      → (names : List Bytes) (m : PluginManager A) → Holds (λ calls. works) sig m.plugins
      → Walked names m (open_each (λ calls. works) fuel names m)
  unfolding open_each Walked
  open_each-Walked rank ranked fuel enough [] m h =
      (h, λ k o. o, λ k at. elim at [ ], λ k at. elim at [ ])
  open_each-Walked rank ranked fuel enough (name ∷ names) m h =
      elim (Option-cases (lookup name m.plugins)) [
        | inl gone ↦
            let last = open_each (λ calls. works) fuel names m in
            let (h', g, w, d) = open_each-Walked rank ranked fuel enough names m h in
            subst (Walked (name ∷ names) m)
              (sym (open_each-missing (λ calls. works) fuel name names m gone))
              (
                h',
                g,
                λ k.
                    Names-split (λ i. sig i ≢ none → IsOpened last.0.plugins i ⊎ Names i last.1)
                      (λ ne. absurd (ne (sym (h.0 name) ∙ ap shape_of gone))) (w k),
                d,
              )
        | inr (pl, found) ↦
            let first = open_recursive (λ calls. works) fuel name pl m in
            let (h', g, is) = open_recursive-Keeps (λ calls. works) sig fuel name pl m h found in
            subst (Walked (name ∷ names) m)
              (sym (open_each-found (λ calls. works) fuel name names m pl found))
              (Walked-first name names m first.0 first.1 pl.api
                (open_each (λ calls. works) fuel names first.0) g is
                (open_recursive-Ends (λ calls. works) sig rank ranked fuel name pl m h found
                  (enough name))
                (open_each-Walked rank ranked fuel enough names first.0 h'))
      ]
