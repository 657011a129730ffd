-- ===== src/Plugins/Opened.antt =====
-- What openRecursive of apps/core0/plugin/manager.go keeps true of the table of plugins. `sig` is
-- what never changes of it: what each plugin requires, and whether it has an Open.
use mathlib.Core.Option.{some-injective}
use debug_bootstrap.Prelude.{
  ℕ, zero, suc, ◌≡◌, refl, sym, ◌∙◌, ap, subst, Bool, true, false, Option, none, some, List, [],
  ◌∷◌, Bytes, bytes_equal, ◌==◌, All, Bool-cases, Option-cases, inl, inr, ◌⊎◌, bytes_eq_iff,
}
use debug_bootstrap.Prelude.Dict.{Dict, lookup, insert, lookup-insert}
use debug_bootstrap.Plugins.{
  Plugin, PluginManager, Opening, opened, missing_dep, open_failed, out_of_fuel, and_then,
  mark_open, open_all, run_open, safe_open, open_recursive,
}

-- What a plugin requires, and whether it has an Open
abbrev pub Shape : Type 0
Shape = List Bytes × Bool

pub All-map :
    {A : Type 0} {P Q : A → Type 0} → ((a : A) → P a → Q a) → (xs : List A) → All P xs → All Q xs
All-map f [] all = tt
All-map f (x ∷ xs) (p, all) = (f x p, All-map f xs all)

-- The Open of a plugin has no error, after some calls.
abbrev pub Works : (List Bytes → Bytes → Bool) → Bytes → Bool → Type 0
Works works k has_open = has_open ≡ true → (calls : List Bytes) × (works calls k ≡ true)

module _ {A : Type 0} where
  abbrev pub shape : Plugin A → Shape
  shape pl = (pl.requires, pl.has_open)

  abbrev pub shape_of : Option (Plugin A) → Option Shape
  shape_of none = none
  shape_of (some pl) = some (shape pl)

  pub open_all-missing :
      (opens : Bytes → Plugin A → PluginManager A → PluginManager A × Opening) (name req : Bytes)
      (reqs : List Bytes) (m : PluginManager A)
      → lookup req m.plugins ≡ none
      → open_all opens name (req ∷ reqs) m ≡ (m, missing_dep name req)
  unfolding open_all
  open_all-missing opens name req reqs m e = rw (open_all, e) refl

  pub open_all-found :
      (opens : Bytes → Plugin A → PluginManager A → PluginManager A × Opening) (name req : Bytes)
      (reqs : List Bytes) (m : PluginManager A) {dep : Plugin A}
      → lookup req m.plugins ≡ some dep
      → open_all opens name (req ∷ reqs) m ≡ and_then (opens req dep m) (open_all opens name reqs)
  unfolding open_all
  open_all-found opens name req reqs m e = rw (open_all, e) refl

  -- The plugin is in the table, and open.
  abbrev pub IsOpened : Dict Bytes (Plugin A) → Bytes → Type 0
  IsOpened t k = (pl : Plugin A) × (lookup k t ≡ some pl) × (pl.is_open ≡ true)

  abbrev pub Grows : Dict Bytes (Plugin A) → Dict Bytes (Plugin A) → Type 0
  Grows t u = (k : Bytes) → IsOpened t k → IsOpened u k

  module _ (works : List Bytes → Bytes → Bool) (sig : Bytes → Option Shape) where
    abbrev pub Conforms : Dict Bytes (Plugin A) → Type 0
    Conforms t = (k : Bytes) → shape_of (lookup k t) ≡ sig k

    -- What a plugin that is open requires is in the table and open, and its Open had no error.
    abbrev pub Sound : Dict Bytes (Plugin A) → Type 0
    Sound t =
        (k : Bytes) (pl : Plugin A)
        → lookup k t ≡ some pl
        → pl.is_open ≡ true
        → All (IsOpened t) pl.requires × Works works k pl.has_open

    abbrev pub Holds : Dict Bytes (Plugin A) → Type 0
    Holds t = Conforms t × Sound t

    -- What a call keeps, whatever it returns, and what holds of the table if it gave no error
    abbrev pub Keeps :
        PluginManager A → (Dict Bytes (Plugin A) → Type 0) → PluginManager A × Opening → Type 0
    Keeps m Q (m', o) = Holds m'.plugins × Grows m.plugins m'.plugins × (o ≡ opened → Q m'.plugins)

    and_then-Keeps :
        (P Q : Dict Bytes (Plugin A) → Type 0) (m : PluginManager A) (r : PluginManager A × Opening)
        (k : PluginManager A → PluginManager A × Opening)
        → Keeps m P r
        → ((n : PluginManager A) → Holds n.plugins → P n.plugins → Keeps n Q (k n))
        → Keeps m Q (and_then r k)
    and_then-Keeps P Q m (n, opened) k (h, g, p) step =
        let (h', g', q) = step n h (p refl) in (h', λ j o. g' j (g j o), q)
    and_then-Keeps P Q m (n, missing_dep a b) k (h, g, p) step = (h, g, λ e. absurd cc)
    and_then-Keeps P Q m (n, open_failed a) k (h, g, p) step = (h, g, λ e. absurd cc)
    and_then-Keeps P Q m (n, out_of_fuel) k (h, g, p) step = (h, g, λ e. absurd cc)

    -- What a lookup gives after the plugin is marked as open
    lookup-mark :
        (name k : Bytes) (pl : Plugin A) (t : Dict Bytes (Plugin A))
        → let u = insert name (record pl { is_open = true }) t in
          ((name ≡ k) × (lookup k u ≡ some (record pl { is_open = true })))
          ⊎ (lookup k u ≡ lookup k t)
    lookup-mark name k pl t = elim (Bool-cases (name == k)) [
      | inl same ↦ inl ((bytes_eq_iff name k).0 same, lookup-insert name k _ t ∙ rw same refl)
      | inr other ↦ inr (lookup-insert name k _ t ∙ rw other refl)
    ]

    mark-Grows :
        (name : Bytes) (pl : Plugin A) (t : Dict Bytes (Plugin A))
        → Grows t (insert name (record pl { is_open = true }) t)
    mark-Grows name pl t k (old, at, is) = elim (lookup-mark name k pl t) [
      | inl (same, found) ↦ (record pl { is_open = true }, found, refl)
      | inr kept ↦ (old, kept ∙ at, is)
    ]

    mark-Holds :
        (name : Bytes) (pl : Plugin A) (t : Dict Bytes (Plugin A))
        → Holds t
        → sig name ≡ some (shape pl)
        → All (IsOpened t) pl.requires
        → Works works name pl.has_open
        → Holds (insert name (record pl { is_open = true }) t)
    mark-Holds name pl t (conforms, sound) at all fine =
        let u = insert name (record pl { is_open = true }) t in
        (
          λ k. elim (lookup-mark name k pl t) [
            | inl (same, found) ↦ ap shape_of found ∙ sym at ∙ ap sig same
            | inr kept ↦ ap shape_of kept ∙ conforms k
          ],
          λ k p e o. elim (lookup-mark name k pl t) [
            | inl (same, found) ↦
                subst (λ x. All (IsOpened u) x.requires × Works works k x.has_open)
                  (some-injective _ _ (sym found ∙ e))
                  (
                    All-map (mark-Grows name pl t) pl.requires all,
                    subst (λ i. Works works i pl.has_open) same fine,
                  )
            | inr kept ↦
                let (deps, done) = sound k p (sym kept ∙ e) o in
                (All-map (mark-Grows name pl t) p.requires deps, done)
          ],
        )

    marked :
        (name : Bytes) (pl : Plugin A) (t : Dict Bytes (Plugin A))
        → Holds t
        → sig name ≡ some (shape pl)
        → All (IsOpened t) pl.requires
        → Works works name pl.has_open
        → let u = insert name (record pl { is_open = true }) t in
          Holds u × Grows t u × (opened ≡ opened → IsOpened u name)
    marked name pl t h at all fine = (
      mark-Holds name pl t h at all fine,
      mark-Grows name pl t,
      λ e. (
        record pl { is_open = true },
        lookup-insert name name _ t ∙ rw ((bytes_eq_iff name name).1 refl) refl,
        refl,
      ),
    )

    -- The loop over what is required, when each call keeps the table
    pub open_all-Keeps :
        (opens : Bytes → Plugin A → PluginManager A → PluginManager A × Opening)
        → ((req : Bytes) (dep : Plugin A) (m : PluginManager A)
            → Holds m.plugins
            → lookup req m.plugins ≡ some dep
            → Keeps m (λ t. IsOpened t req) (opens req dep m))
        → (name : Bytes) (reqs : List Bytes) (m : PluginManager A) → Holds m.plugins
        → Keeps m (λ t. All (IsOpened t) reqs) (open_all opens name reqs m)
    unfolding open_all
    open_all-Keeps opens step name [] m h = (h, λ k o. o, λ e. tt)
    open_all-Keeps opens step name (req ∷ reqs) m h = elim (Option-cases (lookup req m.plugins)) [
      | inl missing ↦
          rw (open_all-missing opens name req reqs m missing) (h, λ k o. o, λ e. absurd cc)
      | inr (dep, found) ↦
          subst (Keeps m (λ t. All (IsOpened t) (req ∷ reqs)))
            (sym (open_all-found opens name req reqs m found))
            (and_then-Keeps (λ t. IsOpened t req) (λ t. All (IsOpened t) (req ∷ reqs)) m
              (opens req dep m) (open_all opens name reqs) (step req dep m h found)
              (λ n held is.
                let (h', g, all) = open_all-Keeps opens step name reqs n held in
                (h', g, λ e. (g req is, all e))))
    ]

    run_open-Keeps :
        (has fine : Bool) (name : Bytes) (pl : Plugin A) (m : PluginManager A)
        → pl.has_open ≡ has
        → works m.calls name ≡ fine
        → Holds m.plugins
        → sig name ≡ some (shape pl)
        → All (IsOpened m.plugins) pl.requires
        → Keeps m (λ t. IsOpened t name) (run_open has fine name pl m)
    unfolding run_open mark_open
    run_open-Keeps false fine name pl m none_there e h at all =
        marked name pl m.plugins h at all (λ has. absurd cc)
    run_open-Keeps true true name pl m has e h at all =
        marked name pl m.plugins h at all (λ x. (m.calls, e))
    run_open-Keeps true false name pl m has e h at all = (h, λ k o. o, λ e. absurd cc)

    -- openRecursive, for a plugin of the table
    pub open_recursive-Keeps :
        (fuel : ℕ) (name : Bytes) (pl : Plugin A) (m : PluginManager A)
        → Holds m.plugins
        → lookup name m.plugins ≡ some pl
        → Keeps m (λ t. IsOpened t name) (open_recursive works fuel name pl m)
    unfolding open_recursive safe_open
    open_recursive-Keeps zero name pl m h found = (h, λ k o. o, λ e. absurd cc)
    open_recursive-Keeps (suc fuel) name pl m h found = elim (Bool-cases pl.is_open) [
      | inl is ↦ rw (open_recursive, is) (h, λ k o. o, λ e. (pl, found, is))
      | inr shut ↦
          rw (open_recursive, shut)
            (and_then-Keeps (λ t. All (IsOpened t) pl.requires) (λ t. IsOpened t name) m
              (open_all (open_recursive works fuel) name pl.requires m) (safe_open works name pl)
              (open_all-Keeps (open_recursive works fuel)
                (λ req dep n held at. open_recursive-Keeps fuel req dep n held at) name pl.requires
                m h)
              (λ n held all.
                run_open-Keeps pl.has_open (works n.calls name) name pl n refl refl held
                  (sym (h.0 name) ∙ ap shape_of found) all))
    ]
