-- ===== src/Plugins/Rank.antt =====
-- Plugins without a cycle: a plugin requires only plugins of a lower rank. How openRecursive of
-- apps/core0/plugin/manager.go then ends, and what is wrong with a plugin that it does not open.
use debug_bootstrap.Prelude.{
  ℕ, zero, suc, ◌<◌, ◌≡◌, ◌≢◌, refl, sym, ◌∙◌, ap, subst, Bool, true, false, Option, none, some,
  List, [], ◌∷◌, Bytes, bytes_equal, All, Names, here, there, Bool-cases, Option-cases, inl, inr,
  ◌⊎◌, arith,
}
use debug_bootstrap.Prelude.Dict.{Dict, lookup}
use debug_bootstrap.Plugins.{
  Plugin, PluginManager, Opening, opened, missing_dep, open_failed, out_of_fuel, and_then, open_all,
  run_open, safe_open, open_recursive,
}
use debug_bootstrap.Plugins.Opened.{
  Shape, shape, shape_of, IsOpened, Holds, Keeps, open_recursive-Keeps, open_all-Keeps,
  open_all-missing, open_all-found,
}

-- The plugins that a plugin requires have a rank below its own.
abbrev pub IsRanked : (Bytes → ℕ) → (Bytes → Option Shape) → Type 0
IsRanked rank sig = (k : Bytes) (s : Shape) → sig k ≡ some s → All (λ r. rank r < rank k) s.0

-- A plugin that cannot be opened: it requires one that is not there or cannot be opened, or its
-- Open has an error.
pub data Dead (works : List Bytes → Bytes → Bool) (sig : Bytes → Option Shape)
    : Bytes → Type 0 where
  broken :
      {k : Bytes} (s : Shape) (calls : List Bytes)
      → sig k ≡ some s
      → s.1 ≡ true
      → works calls k ≡ false
      → Dead works sig k
  missing :
      {k : Bytes} (s : Shape) (r : Bytes)
      → sig k ≡ some s
      → Names r s.0
      → sig r ≡ none
      → Dead works sig k
  needs :
      {k : Bytes} (s : Shape) (r : Bytes)
      → sig k ≡ some s
      → Names r s.0
      → Dead works sig r
      → Dead works sig k

-- No error, or one and a reason for it
abbrev pub Ends : Type 0 → Opening → Type 0
Ends D o = (o ≡ opened) ⊎ ((o ≢ opened) × (o ≢ out_of_fuel) × D)

module _ (works : List Bytes → Bytes → Bool) (sig : Bytes → Option Shape) where
  -- One of the names is not there or cannot be opened.
  Blocked : List Bytes → Type 0
  Blocked reqs = (r : Bytes) × Names r reqs × ((sig r ≡ none) ⊎ Dead works sig r)

  later : (r : Bytes) (reqs : List Bytes) → Blocked reqs → Blocked (r ∷ reqs)
  unfolding Blocked
  later q reqs (r, at, why) = (r, there at, why)

  Blocked-Dead : (k : Bytes) (s : Shape) → sig k ≡ some s → Blocked s.0 → Dead works sig k
  unfolding Blocked
  Blocked-Dead k s at (r, named, inl gone) = missing s r at named gone
  Blocked-Dead k s at (r, named, inr d) = needs s r at named d

module _ {A : Type 0} (works : List Bytes → Bytes → Bool) (sig : Bytes → Option Shape) where
  and_then-Ends :
      (P : Dict Bytes (Plugin A) → Type 0) {D E : Type 0} (m : PluginManager A)
      (r : PluginManager A × Opening) (k : PluginManager A → PluginManager A × Opening)
      → Keeps works sig m P r
      → (D → E)
      → Ends D r.1
      → ((n : PluginManager A) → Holds works sig n.plugins → Ends E (k n).1)
      → Ends E (and_then r k).1
  and_then-Ends P m (n, opened) k h f e step = step n h.0
  and_then-Ends P m (n, missing_dep a b) k h f (inl e) step = absurd cc
  and_then-Ends P m (n, missing_dep a b) k h f (inr (e, u, d)) step = inr (e, u, f d)
  and_then-Ends P m (n, open_failed a) k h f (inl e) step = absurd cc
  and_then-Ends P m (n, open_failed a) k h f (inr (e, u, d)) step = inr (e, u, f d)
  and_then-Ends P m (n, out_of_fuel) k h f (inl e) step = absurd cc
  and_then-Ends P m (n, out_of_fuel) k h f (inr (e, u, d)) step = absurd (u refl)

  run_open-Ends :
      (has fine : Bool) (name : Bytes) (pl : Plugin A) (m : PluginManager A)
      → pl.has_open ≡ has
      → works m.calls name ≡ fine
      → sig name ≡ some (shape pl)
      → Ends (Dead works sig name) (run_open has fine name pl m).1
  unfolding run_open
  run_open-Ends false fine name pl m has w at = inl refl
  run_open-Ends true true name pl m has w at = inl refl
  run_open-Ends true false name pl m has w at =
      inr (λ e. absurd cc, λ e. absurd cc, broken (shape pl) m.calls at has w)

  open_all-Ends :
      (opens : Bytes → Plugin A → PluginManager A → PluginManager A × Opening)
      (bound : Bytes → Type 0)
      → ((req : Bytes) (dep : Plugin A) (m : PluginManager A)
          → Holds works sig m.plugins
          → lookup req m.plugins ≡ some dep
          → bound req
          → Keeps works sig m (λ t. IsOpened t req) (opens req dep m)
            × Ends (Dead works sig req) (opens req dep m).1)
      → (name : Bytes) (reqs : List Bytes) (m : PluginManager A) → Holds works sig m.plugins
      → All bound reqs
      → Ends (Blocked works sig reqs) (open_all opens name reqs m).1
  unfolding Blocked open_all
  open_all-Ends opens bound step name [] m h b = inl refl
  open_all-Ends opens bound step name (req ∷ reqs) m h (b, bs) =
      elim (Option-cases (lookup req m.plugins)) [
        | inl gone ↦
            subst (λ r. Ends (Blocked works sig (req ∷ reqs)) r.1)
              (sym (open_all-missing opens name req reqs m gone))
              (inr (
                λ e. absurd cc,
                λ e. absurd cc,
                (req, here, inl (sym (h.0 req) ∙ ap shape_of gone)),
              ))
        | inr (dep, found) ↦
            let (keeps, ends) = step req dep m h found b in
            subst (λ r. Ends (Blocked works sig (req ∷ reqs)) r.1)
              (sym (open_all-found opens name req reqs m found))
              (and_then-Ends (λ t. IsOpened t req) m (opens req dep m) (open_all opens name reqs)
                keeps (λ d. (req, here, inr d)) ends
                (λ n held. elim (open_all-Ends opens bound step name reqs n held bs) [
                  | inl e ↦ inl e
                  | inr (e, u, d) ↦ inr (e, u, later works sig req reqs d)
                ]))
      ]

  -- With fuel above the rank of the plugin, openRecursive does not run out of it, and a plugin
  -- that it does not open cannot be opened.
  pub open_recursive-Ends :
      (rank : Bytes → ℕ)
      → IsRanked rank sig
      → (fuel : ℕ) (name : Bytes) (pl : Plugin A) (m : PluginManager A) → Holds works sig m.plugins
      → lookup name m.plugins ≡ some pl
      → rank name < fuel
      → Ends (Dead works sig name) (open_recursive works fuel name pl m).1
  unfolding open_recursive safe_open
  open_recursive-Ends rank ranked zero name pl m h found lt = absurd (omega arith)
  open_recursive-Ends rank ranked (suc fuel) name pl m h found lt = elim (Bool-cases pl.is_open) [
    | inl is ↦ rw (open_recursive, is) (inl refl)
    | inr shut ↦
        let at : sig name ≡ some (shape pl) = sym (h.0 name) ∙ ap shape_of found in
        rw (open_recursive, shut)
          (and_then-Ends (λ t. All (IsOpened t) pl.requires) m
            (open_all (open_recursive works fuel) name pl.requires m) (safe_open works name pl)
            (open_all-Keeps works sig (open_recursive works fuel)
              (open_recursive-Keeps works sig fuel) name pl.requires m h)
            (Blocked-Dead works sig name (shape pl) at)
            (open_all-Ends (open_recursive works fuel) (λ r. rank r < rank name)
              (λ req dep n held there_is b. (
                open_recursive-Keeps works sig fuel req dep n held there_is,
                open_recursive-Ends rank ranked fuel req dep n held there_is (omega arith),
              ))
              name pl.requires m h (ranked name (shape pl) at))
            (λ n held. run_open-Ends pl.has_open (works n.calls name) name pl n refl refl at))
  ]
