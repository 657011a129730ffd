-- ===== src/Plugins/Loaded.antt =====
-- What Load of apps/core0/plugin/manager.go leaves in the table of plugins.
use debug_bootstrap.Prelude.{
  ℕ, ◌<◌, ◌≡◌, refl, sym, ◌∙◌, subst, Bool, true, false, Option, none, some, List, Bytes,
  bytes_equal, All, Names, Bool-cases, Option-cases, inl, inr, ◌⊎◌, contains,
}
use debug_bootstrap.Prelude.Dict.{lookup}
use mathlib.Core.Option.{some-injective}
use debug_bootstrap.Plugins.{Plugin, PluginManager, open_each, delete_each, open_plugins}
use debug_bootstrap.Plugins.Opened.{Shape, shape_of, IsOpened, Holds, All-map}
use debug_bootstrap.Plugins.Rank.{IsRanked, Dead}
use debug_bootstrap.Plugins.Walk.{
  lookup-delete_each, contains-Names, names-contains, Dead-shut, Walked, open_each-Walked,
}

-- What is left in the table after Load, and what was taken out of it
open_plugins-left :
    {A : Type 0} (works : Bytes → Bool) (rank : Bytes → ℕ) (fuel : ℕ) (names : List Bytes)
    (m : PluginManager A)
    → ((k : Bytes) (pl : Plugin A)
        → lookup k m.plugins ≡ some pl
        → Names k names × (pl.is_open ≡ false))
    → IsRanked rank (λ k. shape_of (lookup k m.plugins))
    → ((k : Bytes) → rank k < fuel)
    → let t = (open_plugins (λ calls. works) fuel names m).0.plugins in
      ((k : Bytes) (pl : Plugin A)
        → lookup k t ≡ some pl
        → (pl.is_open ≡ true) × All (IsOpened t) pl.requires)
      × ((k : Bytes) (pl : Plugin A)
          → lookup k m.plugins ≡ some pl
          → Dead (λ calls. works) (λ j. shape_of (lookup j m.plugins)) k ⊎ IsOpened t k)
unfolding open_plugins Walked
open_plugins-left {A = A} works rank fuel names m fresh ranked enough =
    let sig : Bytes → Option Shape = λ k. shape_of (lookup k m.plugins) in
    let (m', errored, registered) = open_each (λ calls. works) fuel names m in
    let start : Holds (λ calls. works) sig m.plugins =
      (λ k. refl, λ k pl found is. absurd (cc ((fresh k pl found).1))) in
    let (h, g, w, d) = open_each-Walked works sig rank ranked fuel enough names m start in
    let t = delete_each errored m'.plugins in
    let stays : (k : Bytes) → IsOpened m'.plugins k → IsOpened t k = λ k is.
      elim (Bool-cases (contains errored k)) [
        | inl gone ↦
            absurd (Dead-shut works sig m'.plugins k h (d k (contains-Names errored k gone)) is)
        | inr left ↦ (is.0, lookup-delete_each k errored m'.plugins ∙ rw left is.1, is.2)
      ] in
    let left_open : (k : Bytes) (pl : Plugin A)
        → contains errored k ≡ false
        → lookup k m'.plugins ≡ some pl
        → (q : IsOpened m'.plugins k) × (q.0 ≡ pl) =
      λ k pl left found. elim (Option-cases (lookup k m.plugins)) [
        | inl gone ↦ absurd (cc (h.0 k, found, gone))
        | inr (p, there_is) ↦ elim (w k (fresh k p there_is).0 (λ e. cc (there_is, e))) [
          | inl is ↦ (is, some-injective _ _ (sym is.1 ∙ found))
          | inr bad ↦ absurd (cc (names-contains errored k bad, left))
        ]
      ] in
    (
      λ k pl found. elim (Bool-cases (contains errored k)) [
        | inl gone ↦
            (let no : lookup k t ≡ none = lookup-delete_each k errored m'.plugins ∙ rw gone refl in
              absurd (cc (no, found)))
        | inr left ↦
            let same_entry : lookup k t ≡ lookup k m'.plugins =
              lookup-delete_each k errored m'.plugins ∙ rw left refl in
            let found' : lookup k m'.plugins ≡ some pl = sym same_entry ∙ found in
            let (is, same) = left_open k pl left found' in
            let o : pl.is_open ≡ true = subst (λ p. p.is_open ≡ true) same is.2 in
            (o, All-map stays pl.requires (h.1 k pl found' o).0)
      ],
      λ k pl found. elim (w k (fresh k pl found).0 (λ e. cc (found, e))) [
        | inl is ↦ inr (stays k is)
        | inr bad ↦ inl (d k bad)
      ],
    )

-- Plugins without a cycle, none of them open, whose Open always has an error or never; names that
-- are all those of the table, in any order, and fuel above every rank. After Load a name either
-- stands for no plugin, and there was none or it cannot be opened; or it stands for a plugin that
-- is open, and so are all the plugins that it requires.
pub open_plugins-opened :
    {A : Type 0} (works : Bytes → Bool) (rank : Bytes → ℕ) (fuel : ℕ) (names : List Bytes)
    (m : PluginManager A)
    → ((k : Bytes) (pl : Plugin A)
        → lookup k m.plugins ≡ some pl
        → Names k names × (pl.is_open ≡ false))
    → IsRanked rank (λ k. shape_of (lookup k m.plugins))
    → ((k : Bytes) → rank k < fuel)
    → (k : Bytes)
    → let t = (open_plugins (λ calls. works) fuel names m).0.plugins in
      ((lookup k t ≡ none)
        × ((lookup k m.plugins ≡ none)
            ⊎ Dead (λ calls. works) (λ j. shape_of (lookup j m.plugins)) k))
      ⊎ ((pl : Plugin A) × (lookup k t ≡ some pl)
          × (pl.is_open ≡ true)
          × All (IsOpened t) pl.requires)
open_plugins-opened {A = A} works rank fuel names m fresh ranked enough k =
    let t = (open_plugins (λ calls. works) fuel names m).0.plugins in
    let (left, original) = open_plugins-left works rank fuel names m fresh ranked enough in
    elim (Option-cases (lookup k t)) [
      | inl gone ↦ elim (Option-cases (lookup k m.plugins)) [
        | inl never ↦ inl (gone, inl never)
        | inr (pl, found) ↦ elim (original k pl found) [
          | inl dead ↦ inl (gone, inr dead)
          | inr is ↦ absurd (cc (gone, is.1))
        ]
      ]
      | inr (pl, found) ↦ let (is, deps) = left k pl found in inr (pl, found, is, deps)
    ]
