-- ===== src/Plugins.antt =====
-- apps/core0/plugin/manager.go: the plugins of core0, and how they are opened. A plugin stands in
-- the table under its name, and an entry of the table is the plugin that the pointer there shows.
-- What a plugin's Open does is not read: `works` says whether it succeeds, a panic counting as an
-- error, from the names of the plugins whose Open was called before, the last one last.
pub mod Opened
pub mod Cycle
pub mod Rank
pub mod Walk
pub mod Loaded
pub mod Manage
pub mod Store
pub mod Router
use debug_bootstrap.Prelude.{
  ℕ, zero, suc, Bool, true, false, Option, none, some, List, [], ◌∷◌, ◌++◌, Bytes, codes, nat_beq,
  bytes_equal, split_two, ◌==◌, if◌then◌else◌,
}
use debug_bootstrap.Prelude.Dict.{Dict, lookup, insert, remove}

-- What the API of a plugin is: there may be none, or one that implements a handler interface.
pub data Api : Type 0 where
  no_api handler other : Api

-- type Plugin struct of base/plugin, and the wrapper with `IsOpen`
pub record Plugin (A : Type 0) : Type 0 where
  pub version : Bytes
  pub can_update : Bool
  pub requires : List Bytes
  pub has_open : Bool
  pub api : Api
  pub actions : Dict Bytes A
  pub is_open : Bool

-- type Manager struct, as far as it is about plugins, and the calls of Open so far
pub record PluginManager (A : Type 0) : Type 0 where
  pub plugins : Dict Bytes (Plugin A)
  pub calls : List Bytes

-- What openRecursive returns: no error, or one of its errors. `out_of_fuel` is the model's own.
pub data Opening : Type 0 where
  opened : Opening
  missing_dep : Bytes → Bytes → Opening
  open_failed : Bytes → Opening
  out_of_fuel : Opening

-- What one turn of the loop of Load adds: the name of a plugin that failed, or that of a plugin
-- that is registered as a handler.
abbrev pub failed : Bytes → Opening → List Bytes
failed name opened = []
failed name (missing_dep pl req) = name ∷ []
failed name (open_failed pl) = name ∷ []
failed name out_of_fuel = name ∷ []

abbrev pub handles : Bytes → Api → Opening → List Bytes
handles name handler opened = name ∷ []
handles name no_api outcome = []
handles name other outcome = []
handles name handler (missing_dep pl req) = []
handles name handler (open_failed pl) = []
handles name handler out_of_fuel = []

module _ {A : Type 0} where
  unfoldable pub new_manager : PluginManager A
  new_manager = record { plugins = []; calls = [] }

  -- What follows a call, if the call gave no error
  abbrev pub and_then :
      PluginManager A × Opening
      → (PluginManager A → PluginManager A × Opening)
      → PluginManager A × Opening
  and_then (m, opened) k = k m
  and_then (m, missing_dep name req) k = (m, missing_dep name req)
  and_then (m, open_failed name) k = (m, open_failed name)
  and_then (m, out_of_fuel) k = (m, out_of_fuel)

  -- pl.IsOpen = true
  unfoldable pub mark_open : Bytes → Plugin A → PluginManager A → PluginManager A
  mark_open name pl m = record m { plugins = insert name (record pl { is_open = true }) m.plugins }

  -- The loop over the plugins that are required
  unfoldable pub open_all :
      (Bytes → Plugin A → PluginManager A → PluginManager A × Opening)
      → Bytes
      → List Bytes
      → PluginManager A
      → PluginManager A × Opening
  open_all opens name [] m = (m, opened)
  open_all opens name (req ∷ reqs) m = elim (lookup req m.plugins) [
    | none ↦ (m, missing_dep name req)
    | some dep ↦ and_then (opens req dep m) (open_all opens name reqs)
  ]

  -- What safeOpen comes to, by whether the plugin has an Open and whether that has no error
  unfoldable pub run_open :
      Bool → Bool → Bytes → Plugin A → PluginManager A → PluginManager A × Opening
  unfolding mark_open
  run_open false fine name pl m = (mark_open name pl m, opened)
  run_open true true name pl m =
      (mark_open name pl (record m { calls = m.calls ++ name ∷ [] }), opened)
  run_open true false name pl m = (record m { calls = m.calls ++ name ∷ [] }, open_failed name)

  -- for _, bad := range errored { delete(m.plugins, bad) }
  unfoldable pub delete_each : List Bytes → Dict Bytes (Plugin A) → Dict Bytes (Plugin A)
  delete_each [] t = t
  delete_each (bad ∷ errored) t = delete_each errored (remove bad t)

module _ {A : Type 0} (works : List Bytes → Bytes → Bool) where
  -- safeOpen, where the plugin has an Open
  unfoldable pub safe_open : Bytes → Plugin A → PluginManager A → PluginManager A × Opening
  unfolding run_open
  safe_open name pl m = run_open pl.has_open (works m.calls name) name pl m

  unfoldable pub open_recursive : ℕ → Bytes → Plugin A → PluginManager A → PluginManager A × Opening
  unfolding open_all safe_open
  open_recursive zero name pl m = (m, out_of_fuel)
  open_recursive (suc fuel) name pl m = elim pl.is_open [
    | true ↦ (m, opened)
    | false ↦ and_then (open_all (open_recursive fuel) name pl.requires m) (safe_open name pl)
  ]

  -- The loop of Load over the names in the table: the manager, the names that failed, and the handlers
  unfoldable pub open_each :
      ℕ → List Bytes → PluginManager A → PluginManager A × List Bytes × List Bytes
  unfolding open_recursive
  open_each fuel [] m = (m, [], [])
  open_each fuel (name ∷ names) m = elim (lookup name m.plugins) [
    | none ↦ open_each fuel names m
    | some pl ↦
        let (m', outcome) = open_recursive fuel name pl m in
        let (last, errored, registered) = open_each fuel names m' in
        (last, failed name outcome ++ errored, handles name pl.api outcome ++ registered)
  ]

  -- What Load does after the paths are read: the names in the table are walked in an order that Go
  -- does not say. Also the names of the plugins that are registered as handlers.
  unfoldable pub open_plugins : ℕ → List Bytes → PluginManager A → PluginManager A × List Bytes
  unfolding open_each delete_each
  open_plugins fuel names m =
      let (m', errored, registered) = open_each fuel names m in
      (record m' { plugins = delete_each errored m'.plugins }, registered)
