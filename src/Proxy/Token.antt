-- ===== src/Proxy/Token.antt =====
-- AuthMethod of apps/redis-proxy/auth.go: which tokens it accepts. What the JWT library makes of a
-- token with the public key is an argument, and strings.EqualFold is another.
pub mod Member
use mathlib.Core.Option.{some-injective}
use debug_bootstrap.Prelude.{
  ◌≡◌, refl, Bool, true, false, Option, none, some, List, [], ◌∷◌, ◌++◌, map, Bytes, codes,
  if◌then◌else◌, Names, here, there, Names-split, Names-other, Bool-cases, Option-cases, inl, inr,
  ◌⊎◌, ◌↔◌, arith, subst, sym, ◌∙◌,
}

-- The claim "scope": there is none, it is no list, or the list of its entries, of which some are no
-- text
pub data Scope : Type 0 where
  no_scope no_list : Scope
  scopes : List (Option Bytes) → Scope

-- The claims of a token that is valid
pub record Claims : Type 0 where
  pub azp : Option Bytes
  pub scope : Scope

unfoldable pub member_of : Bytes → Bytes
member_of organization = codes "user:memberof:" ++ organization

module _ (equal_fold : Bytes → Bytes → Bool) where
  -- func In
  unfoldable pub is_in : Bytes → List Bytes → Bool
  is_in s [] = false
  is_in s (t ∷ l) = if equal_fold s t then true else is_in s l

  -- The loop over the scopes that are claimed
  unfoldable pub claims_one : List (Option Bytes) → List Bytes → Bool
  unfolding is_in
  claims_one [] wanted = false
  claims_one (none ∷ claimed) wanted = claims_one claimed wanted
  claims_one (some s ∷ claimed) wanted = if is_in s wanted then true else claims_one claimed wanted

  unfoldable pub in_scope : Scope → List Bytes → Bool
  unfolding claims_one
  in_scope no_scope wanted = false
  in_scope no_list wanted = false
  in_scope (scopes claimed) wanted = claims_one claimed wanted

  unfoldable pub is_azp : Option Bytes → List Bytes → Bool
  unfolding is_in
  is_azp none organizations = false
  is_azp (some azp) organizations = is_in azp organizations

  -- The function that AuthMethod returns
  unfoldable pub check_token : (Bytes → Option Claims) → List Bytes → Bytes → Bool
  unfolding is_azp in_scope member_of
  check_token parse organizations token = elim (parse token) [
    | none ↦ false
    | some claims ↦
        if is_azp claims.azp organizations
        then true
        else in_scope claims.scope (map member_of organizations)
  ]
