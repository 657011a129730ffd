-- ===== src/Examples/Included.antt =====
-- Two files in an included directory that define the same extension.
use debug_bootstrap.Prelude.{false, none, some, List, [], ◌∷◌, codes, bytes_equal}
use debug_bootstrap.Prelude.Dict.{lookup}
use debug_bootstrap.Settings.Include.{
  Extension, IncludedSettings, File, Partial, get_included_settings,
}
use debug_bootstrap.Settings.Include.Kept.{IsIncluded, get_included_settings-IsIncluded}

abbrev ext : Extension
ext = record { binary = codes "sh"; cwd = []; env = []; args = []; key = [] }

abbrev loaded : IncludedSettings
loaded = record { extension = (codes "bash", ext) ∷ []; startup = [] }

abbrev files : List File
files =
    record { name = codes "a.toml"; is_dir = false; loaded = some loaded }
    ∷ record { name = codes "b.toml"; is_dir = false; loaded = some loaded }
    ∷ []

abbrev nothing : Partial
nothing = (record { extension = []; startup = [] }, [])

get_included_settings-IsIncluded_example :
    IsIncluded []
      (codes "bash")
      (lookup (codes "bash") (get_included_settings [] (some files ∷ none ∷ [])).0.extension)
get_included_settings-IsIncluded_example =
    get_included_settings-IsIncluded [] (some files ∷ none ∷ []) (codes "bash")
