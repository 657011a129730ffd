-- ===== src/Aggregator/Keeper/Tags.antt =====
-- The tags of a state of apps/plugins/aggregator/plugin/stats.go: Feed lets them be.
use debug_bootstrap.Prelude.{
  ℕ, zero, suc, ◌≡◌, refl, sym, ap, leb, List, [], ◌∷◌, bytes_equal, ◌==◌, Bool-cases, inl, inr,
}
use debug_bootstrap.Prelude.Int.{ℤ, pos, negsuc}
use debug_bootstrap.Mgr.Stats.{Tag}
use debug_bootstrap.Aggregator.{Floats, State, average, init, feed_value, feed_since, feed_on}
use debug_bootstrap.Aggregator.Keeper.{with_tags}

module _ {F : Type 0} (fl : Floats F) where
  init-tags : (now : ℕ) (v : F) (s : State F) → (init fl now v s).tags ≡ s.tags
  unfolding init
  init-tags now v s = elim (Bool-cases (s.operation == average)) [
    | inl e ↦ rw (init, e) refl
    | inr e ↦ rw (init, e) refl
  ]

  feed_value-tags : (now : ℕ) (v : F) (s : State F) → (feed_value fl now v s).0.tags ≡ s.tags
  unfolding feed_value
  feed_value-tags now v s = elim (Bool-cases (fl.is_nan v)) [
    | inl e ↦ rw (feed_value, e) refl
    | inr e ↦ rw (feed_value, e) refl
  ]

  feed_since-tags :
      (last : ℤ) (now : ℕ) (v : F) (s : State F) → (feed_since fl last now v s).0.tags ≡ s.tags
  unfolding feed_since
  feed_since-tags (negsuc zero) now v s = init-tags now v s
  feed_since-tags (negsuc (suc n)) now v s = feed_value-tags now _ s
  feed_since-tags (pos last) now v s = elim (Bool-cases (leb now last)) [
    | inl e ↦ rw (feed_since, e) refl
    | inr e ↦ rw (feed_since, e) (feed_value-tags now _ s)
  ]

  pub feed_on-tags : (now : ℕ) (v : F) (s : State F) → (feed_on fl now v s).0.tags ≡ s.tags
  unfolding feed_on
  feed_on-tags now v s = feed_since-tags s.last_time now v s

-- A state that has the tags of a call
pub same-with_tags :
    {F : Type 0} (tags : List Tag) (s : State F) → s.tags ≡ tags → with_tags tags s ≡ s
unfolding with_tags
same-with_tags [] s e = refl
same-with_tags (t ∷ tags) s e = ap (λ l. record s { tags = l }) (sym e)

pub with_tags-record :
    {F : Type 0} (tags : List Tag) (s : State F)
    → s.tags ≡ []
    → with_tags tags s ≡ record s { tags = tags }
unfolding with_tags
with_tags-record [] s e = ap (λ l. record s { tags = l }) e
with_tags-record (t ∷ tags) s e = refl
