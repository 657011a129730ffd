-- ===== src/Mgr/Stats/Parsed.antt =====
-- What handleStatsMessage of base/mgr/pm.go reads in a message.
use debug_bootstrap.Prelude.{
  ℕ, ◌≡◌, refl, ap, ◌∙◌, false, Option, some, List, [], ◌∷◌, ◌++◌, Bytes, codes, split, split_two,
  split-none, split-append, split_two-append, IsFreeOf, ◌==◌, bytes_equal, All, append_assoc,
}
use debug_bootstrap.Mgr.Stats.{
  Tag, aggregated, panicked, trim, read_tag, read_tags, handle_stats_message, from_parts, key_value,
  with_value, tags_text, value_of,
}

-- A message without a bar is a panic: its second part is read though there is none.
pub handle_stats_message-panics :
    {V : Type 0} (parse : Bytes → Option V) (message : Bytes)
    → IsFreeOf b'|' message
    → handle_stats_message parse message ≡ panicked
unfolding handle_stats_message from_parts
handle_stats_message-panics parse message h = rw (split-none b'|' message h)

-- Tags as they stand in a message, one at least.
abbrev pub tag_text : Tag → Bytes
tag_text t = t.key ++ b'=' ∷ t.value

abbrev pub render_tags : Tag → List Tag → Bytes
render_tags t [] = tag_text t
render_tags t (u ∷ us) = tag_text t ++ b',' ∷ render_tags u us

-- A tag that its text says again: it is not the id, and no mark of the format is in it.
pub record IsTag (t : Tag) : Type 0 where
  pub no_id : (t.key == codes "id") ≡ false
  pub key : IsFreeOf b'=' t.key
  pub no_comma : IsFreeOf b',' (t.key ++ b'=' ∷ t.value)
  pub no_bar : IsFreeOf b'|' (t.key ++ b'=' ∷ t.value)

read_tags-render :
    (t : Tag) (ts : List Tag) (id : Bytes) (before : List Tag)
    → IsTag t
    → All IsTag ts
    → read_tags (split b',' (render_tags t ts)) (id, before) ≡ (id, before ++ t ∷ ts)
unfolding read_tags read_tag value_of
read_tags-render t [] id before h hs =
    rw (split-none b',' (tag_text t) h.no_comma, split_two-append b'=' t.key t.value h.key, h.no_id)
      refl
read_tags-render t (u ∷ us) id before h hs =
    rw
      (
        split-append b',' (tag_text t) (render_tags u us) h.no_comma,
        read_tags,
        split_two-append b'=' t.key t.value h.key,
        h.no_id,
      )
      (read_tags-render u us id (before ++ t ∷ []) hs.0 hs.1
        ∙ ap (λ ts. (id, ts)) (append_assoc before (t ∷ []) (u ∷ us)))

IsFreeOf-append : (sep : ℕ) (v w : Bytes) → IsFreeOf sep v → IsFreeOf sep w → IsFreeOf sep (v ++ w)
IsFreeOf-append sep [] w h k = k
IsFreeOf-append sep (c ∷ v) w h k = (h.0, IsFreeOf-append sep v w h.1 k)

render_tags-IsFreeOf :
    (t : Tag) (ts : List Tag) → IsTag t → All IsTag ts → IsFreeOf b'|' (render_tags t ts)
render_tags-IsFreeOf t [] h hs = h.no_bar
render_tags-IsFreeOf t (u ∷ us) h hs =
    IsFreeOf-append b'|' (tag_text t) (b',' ∷ render_tags u us) h.no_bar
      (refl, render_tags-IsFreeOf u us hs.0 hs.1)

-- A statistic "key:value|op|tags", where no part contains a mark of the format and no tag is the id,
-- is aggregated with just these, the spaces around its key cut off, if its value is a number.
pub handle_stats_message-render :
    {V : Type 0} (parse : Bytes → Option V) (key value op : Bytes) (v : V) (t : Tag) (ts : List Tag)
    → IsFreeOf b':' key
    → IsFreeOf b':' value
    → IsFreeOf b'|' (key ++ b':' ∷ value)
    → IsFreeOf b'|' op
    → IsTag t
    → All IsTag ts
    → parse value ≡ some v
    → handle_stats_message parse ((key ++ b':' ∷ value) ++ b'|' ∷ (op ++ b'|' ∷ render_tags t ts))
      ≡ aggregated op (trim key) v [] (t ∷ ts)
unfolding handle_stats_message from_parts key_value with_value tags_text
handle_stats_message-render parse key value op v t ts hk hv hb ho h hs e =
    rw
      (
        split-append b'|' (key ++ b':' ∷ value) (op ++ b'|' ∷ render_tags t ts) hb,
        split-append b'|' op (render_tags t ts) ho,
        split-none b'|' (render_tags t ts) (render_tags-IsFreeOf t ts h hs),
        split-append b':' key value hk,
        split-none b':' value hv,
        e,
        read_tags-render t ts [] [] h hs,
      )
      refl

-- The tag with no name and no value.
abbrev pub empty_tag : Tag
empty_tag = record { key = []; value = [] }

-- A statistic "key:value|op" without tags, where no part contains a mark of the format, is aggregated
-- with one tag, the empty one, if its value is a number.
pub handle_stats_message-untagged :
    {V : Type 0} (parse : Bytes → Option V) (key value op : Bytes) (v : V)
    → IsFreeOf b':' key
    → IsFreeOf b':' value
    → IsFreeOf b'|' (key ++ b':' ∷ value)
    → IsFreeOf b'|' op
    → parse value ≡ some v
    → handle_stats_message parse ((key ++ b':' ∷ value) ++ b'|' ∷ op)
      ≡ aggregated op (trim key) v [] (empty_tag ∷ [])
unfolding handle_stats_message from_parts key_value with_value tags_text read_tags read_tag value_of
    split split_two
handle_stats_message-untagged parse key value op v hk hv hb ho e =
    rw
      (
        split-append b'|' (key ++ b':' ∷ value) op hb,
        split-none b'|' op ho,
        split-append b':' key value hk,
        split-none b':' value hv,
        e,
      )
      refl
