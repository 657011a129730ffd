-- ===== src/Settings/Include.antt =====
-- base/settings/include.go: the settings in included directories. What ioutil.ReadDir and the TOML
-- loader return is an argument: a directory is a list of files, or `none` for an error.
pub mod Kept
use debug_bootstrap.Prelude.{
  ℕ, ◌-◌, Bool, true, false, ◌||◌, Option, none, some, List, [], ◌∷◌, ◌++◌, Bytes, codes, length,
  drop, leb, if◌then◌else◌, ◌==◌, bytes_equal,
}
use debug_bootstrap.Prelude.Dict.{Dict, lookup, insert}
use debug_bootstrap.Settings.Startup.{Startup}

-- type Extension struct
pub record Extension : Type 0 where
  pub binary : Bytes
  pub cwd : Bytes
  pub env : Dict Bytes Bytes
  pub args : List Bytes
  pub key : Bytes

-- type IncludedSettings struct
pub record IncludedSettings : Type 0 where
  pub extension : Dict Bytes Extension
  pub startup : Dict Bytes Startup

-- An entry of a directory; `loaded` is none where the file could not be loaded.
pub record File : Type 0 where
  pub name : Bytes
  pub is_dir : Bool
  pub loaded : Option IncludedSettings

pub data IncludeError : Type 0 where
  unreadable : IncludeError
  not_loaded : Bytes → IncludeError
  override : (file key : Bytes) → IncludeError

abbrev pub config_suffix : Bytes
config_suffix = codes ".toml"

unfoldable pub is_config : Bytes → Bool
is_config name =
    if leb (length name) (length config_suffix)
    then false
    else drop (length name - length config_suffix) name == config_suffix

abbrev pub is_there : {V : Type 0} → Option V → Bool
is_there none = false
is_there (some v) = true

-- The settings so far, and the errors.
abbrev pub Partial : Type 0
Partial = IncludedSettings × List IncludeError

-- `own` are the extensions of the main settings.
unfoldable pub merge_extension :
    Dict Bytes Extension → Bytes → Bytes → Extension → Partial → Partial
merge_extension own file key ext (s, errors) =
    if is_there (lookup key own) || is_there (lookup key s.extension)
    then (s, errors ++ override file key ∷ [])
    else (record s { extension = insert key (record ext { key = key }) s.extension }, errors)

unfoldable pub merge_extensions :
    Dict Bytes Extension → Bytes → Dict Bytes Extension → Partial → Partial
merge_extensions own file [] p = p
merge_extensions own file ((key, ext) ∷ rest) p =
    merge_extensions own file rest (merge_extension own file key ext p)

unfoldable pub merge_startups : Dict Bytes Startup → Partial → Partial
merge_startups [] p = p
merge_startups ((key, s) ∷ rest) p =
    merge_startups rest (record p.0 { startup = insert key s p.0.startup }, p.1)

unfoldable pub merge_file :
    Dict Bytes Extension → Bytes → Option IncludedSettings → Partial → Partial
merge_file own name none p = (p.0, p.1 ++ not_loaded name ∷ [])
merge_file own name (some s) p = merge_startups s.startup (merge_extensions own name s.extension p)

unfoldable pub include_files : Dict Bytes Extension → List File → Partial → Partial
include_files own [] p = p
include_files own (f ∷ fs) p =
    include_files own fs
      (if f.is_dir then p else if is_config f.name then merge_file own f.name f.loaded p else p)

unfoldable pub include : Dict Bytes Extension → Option (List File) → Partial → Partial
include own none p = (p.0, p.1 ++ unreadable ∷ [])
include own (some files) p = include_files own files p

unfoldable pub include_all : Dict Bytes Extension → List (Option (List File)) → Partial → Partial
include_all own [] p = p
include_all own (d ∷ ds) p = include_all own ds (include own d p)

unfoldable pub get_included_settings : Dict Bytes Extension → List (Option (List File)) → Partial
unfolding include_all
get_included_settings own dirs = include_all own dirs (record { extension = []; startup = [] }, [])
