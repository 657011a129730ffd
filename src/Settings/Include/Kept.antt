-- ===== src/Settings/Include/Kept.antt =====
-- The extensions that base/settings/include.go merges.
use debug_bootstrap.Prelude.{
  ◌≡◌, refl, sym, subst, ap, ◌∙◌, Bool, true, false, ◌||◌, Option, none, some, List, [], ◌∷◌, Bytes,
  bytes_equal, bytes_eq_iff, if◌then◌else◌, ◌==◌, arith, Bool-cases, inl, inr, ◌⊎◌,
}
use debug_bootstrap.Prelude.Dict.{Dict, lookup, insert, lookup-insert}
use debug_bootstrap.Settings.Startup.{Startup}
use debug_bootstrap.Settings.Include.{
  Extension, IncludedSettings, File, Partial, is_there, merge_extension, merge_extensions,
  merge_startups, merge_file, include_files, include, include_all, get_included_settings, is_config,
}

-- What may stand under a key: an extension that knows its key, and that the main settings do not
-- have.
abbrev pub IsIncluded : Dict Bytes Extension → Bytes → Option Extension → Type 0
IsIncluded own k none = Unit {0}
IsIncluded own k (some x) = (x.key ≡ k) × (lookup k own ≡ none)

-- From the settings `p` to those of `q`: an extension that is there stays, and one that is new may
-- stand there.
abbrev pub Extends : Dict Bytes Extension → Bytes → Partial → Partial → Type 0
Extends own k p q =
    (lookup k q.0.extension ≡ lookup k p.0.extension)
    ⊎ ((lookup k p.0.extension ≡ none) × IsIncluded own k (lookup k q.0.extension))

Extends-trans :
    (own : Dict Bytes Extension) (k : Bytes) (p q r : Partial)
    → Extends own k p q
    → Extends own k q r
    → Extends own k p r
Extends-trans own k p q r (inl e) (inl f) = inl (f ∙ e)
Extends-trans own k p q r (inl e) (inr (n, i)) = inr (sym e ∙ n, i)
Extends-trans own k p q r (inr (n, i)) (inl f) = inr (n, subst (λ o. IsIncluded own k o) (sym f) i)
Extends-trans own k p q r (inr (n, i)) (inr (m, j)) = inr (n, j)

not_there : {V : Type 0} (o : Option V) → is_there o ≡ false → o ≡ none
not_there none h = refl
not_there (some v) h = absurd (ground arith)

left_false : (a b : Bool) → (a || b) ≡ false → a ≡ false
left_false a b h = ground arith

right_false : (a b : Bool) → (a || b) ≡ false → b ≡ false
right_false a b h = ground arith

merge_extension-Extends :
    (own : Dict Bytes Extension) (file key : Bytes) (x : Extension) (p : Partial) (k : Bytes)
    → Extends own k p (merge_extension own file key x p)
unfolding merge_extension
merge_extension-Extends own file key x (s, errors) k =
    elim (Bool-cases (is_there (lookup key own) || is_there (lookup key s.extension))) [
      | inl there ↦ rw there (inl refl)
      | inr new ↦
          let made : Extension = record x { key = key } in
          elim (Bool-cases (key == k)) [
            | inr other ↦ rw new (inl (lookup-insert key k made s.extension ∙ rw other refl))
            | inl same ↦
                let at_k : key ≡ k = (bytes_eq_iff key k).0 same in
                let no_own : lookup k own ≡ none =
                  subst (λ i. lookup i own ≡ none) at_k
                    (not_there (lookup key own) (left_false _ _ new)) in
                let no_other : lookup k s.extension ≡ none =
                  subst (λ i. lookup i s.extension ≡ none) at_k
                    (not_there (lookup key s.extension) (right_false _ _ new)) in
                let found : lookup k (insert key made s.extension) ≡ some made =
                  lookup-insert key k made s.extension ∙ rw same refl in
                rw new (inr (no_other, subst (λ o. IsIncluded own k o) (sym found) (at_k, no_own)))
          ]
    ]

merge_extensions-Extends :
    (own : Dict Bytes Extension) (file : Bytes) (xs : Dict Bytes Extension) (p : Partial)
    (k : Bytes)
    → Extends own k p (merge_extensions own file xs p)
unfolding merge_extensions
merge_extensions-Extends own file [] p k = inl refl
merge_extensions-Extends own file ((key, x) ∷ xs) p k =
    Extends-trans own k p (merge_extension own file key x p)
      (merge_extensions own file xs (merge_extension own file key x p))
      (merge_extension-Extends own file key x p k)
      (merge_extensions-Extends own file xs (merge_extension own file key x p) k)

extension-merge_startups :
    (ss : Dict Bytes Startup) (p : Partial) → (merge_startups ss p).0.extension ≡ p.0.extension
unfolding merge_startups
extension-merge_startups [] p = refl
extension-merge_startups ((key, s) ∷ ss) p =
    extension-merge_startups ss (record p.0 { startup = insert key s p.0.startup }, p.1)

merge_file-Extends :
    (own : Dict Bytes Extension) (name : Bytes) (o : Option IncludedSettings) (p : Partial)
    (k : Bytes)
    → Extends own k p (merge_file own name o p)
unfolding merge_file
merge_file-Extends own name none p k = inl refl
merge_file-Extends own name (some s) p k =
    let q = merge_extensions own name s.extension p in
    Extends-trans own k p q (merge_startups s.startup q)
      (merge_extensions-Extends own name s.extension p k)
      (inl (ap (lookup k) (extension-merge_startups s.startup q)))

chosen-Extends :
    (own : Dict Bytes Extension) (k : Bytes) (p q : Partial) (b c : Bool)
    → Extends own k p q
    → Extends own k p (if b then p else if c then q else p)
chosen-Extends own k p q true c h = inl refl
chosen-Extends own k p q false true h = h
chosen-Extends own k p q false false h = inl refl

include_files-Extends :
    (own : Dict Bytes Extension) (fs : List File) (p : Partial) (k : Bytes)
    → Extends own k p (include_files own fs p)
unfolding include_files
include_files-Extends own [] p k = inl refl
include_files-Extends own (f ∷ fs) p k =
    let q = merge_file own f.name f.loaded p in
    let next : Partial = if f.is_dir then p else if is_config f.name then q else p in
    Extends-trans own k p next (include_files own fs next)
      (chosen-Extends own k p q f.is_dir (is_config f.name)
        (merge_file-Extends own f.name f.loaded p k))
      (include_files-Extends own fs next k)

-- Including a directory, readable or not, keeps each extension that was included before. One that is
-- new stands under its own key, which the main settings do not have.
pub include-Extends :
    (own : Dict Bytes Extension) (dir : Option (List File)) (p : Partial) (k : Bytes)
    → Extends own k p (include own dir p)
unfolding include
include-Extends own none p k = inl refl
include-Extends own (some fs) p k = include_files-Extends own fs p k

include_all-Extends :
    (own : Dict Bytes Extension) (ds : List (Option (List File))) (p : Partial) (k : Bytes)
    → Extends own k p (include_all own ds p)
unfolding include_all
include_all-Extends own [] p k = inl refl
include_all-Extends own (d ∷ ds) p k =
    Extends-trans own k p (include own d p) (include_all own ds (include own d p))
      (include-Extends own d p k) (include_all-Extends own ds (include own d p) k)

IsIncluded-from :
    (own : Dict Bytes Extension) (k : Bytes) (p q : Partial)
    → lookup k p.0.extension ≡ none
    → Extends own k p q
    → IsIncluded own k (lookup k q.0.extension)
IsIncluded-from own k p q e (inl f) = subst (λ o. IsIncluded own k o) (sym (f ∙ e)) tt
IsIncluded-from own k p q e (inr (n, i)) = i

-- Whatever the directories hold, an extension among the included settings stands under its own key,
-- and the main settings have none under that key.
pub get_included_settings-IsIncluded :
    (own : Dict Bytes Extension) (dirs : List (Option (List File))) (k : Bytes)
    → IsIncluded own k (lookup k (get_included_settings own dirs).0.extension)
unfolding get_included_settings
get_included_settings-IsIncluded own dirs k =
    IsIncluded-from own k (record { extension = []; startup = [] }, [])
      (include_all own dirs (record { extension = []; startup = [] }, [])) refl
      (include_all-Extends own dirs (record { extension = []; startup = [] }, []) k)
