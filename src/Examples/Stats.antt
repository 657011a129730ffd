-- ===== src/Examples/Stats.antt =====
-- Statistics that jobs say, with values of one digit.
use debug_bootstrap.Prelude.{ℕ, ◌-◌, ◌≡◌, refl, Option, none, some, [], ◌∷◌, ◌++◌, Bytes, codes}
use debug_bootstrap.Mgr.Stats.{Tag, aggregated, trim, handle_stats_message}
use debug_bootstrap.Mgr.Stats.Parsed.{IsTag, render_tags, handle_stats_message-render}

abbrev digit : Bytes → Option ℕ
digit (c ∷ []) = some (c - b'0')
digit _ = none

abbrev host : Tag
host = record { key = codes "h"; value = codes "a" }

host-IsTag : IsTag host
host-IsTag = record {
  no_id = refl;
  key = (refl, tt);
  no_comma = (refl, (refl, (refl, tt)));
  no_bar = (refl, (refl, (refl, tt)));
}

handle_stats_message-render_example :
    handle_stats_message digit
      ((codes "k" ++ b':' ∷ codes "5") ++ b'|' ∷ (codes "D" ++ b'|' ∷ render_tags host (host ∷ [])))
    ≡ aggregated (codes "D") (trim (codes "k")) 5 [] (host ∷ host ∷ [])
handle_stats_message-render_example =
    handle_stats_message-render digit (codes "k") (codes "5") (codes "D") 5 host (host ∷ [])
      (refl, tt) (refl, tt) (refl, (refl, (refl, tt))) (refl, tt) host-IsTag (host-IsTag, tt) refl
