-- ===== src/Proxy/Token/Member.antt =====
-- Which tokens the function of AuthMethod in apps/redis-proxy/auth.go accepts.
use mathlib.Core.Option.{some-injective}
use debug_bootstrap.Prelude.{
  ◌≡◌, refl, Bool, true, Option, none, some, List, [], ◌∷◌, ◌++◌, map, Bytes, codes, if◌then◌else◌,
  Names, here, there, Names-split, Names-other, Bool-cases, Option-cases, inl, inr, ◌⊎◌, ◌↔◌, arith,
  subst, sym, ◌∙◌,
}
use debug_bootstrap.Proxy.Token.{
  member_of, is_in, claims_one, in_scope, is_azp, check_token, Scope, Claims, no_scope, no_list,
  scopes,
}

-- The entries of a claim "scope"
claimed_of : Scope → List (Option Bytes)
claimed_of no_scope = []
claimed_of no_list = []
claimed_of (scopes claimed) = claimed

module _ (equal_fold : Bytes → Bytes → Bool) where
  -- The text is one of the list, up to case.
  abbrev pub IsOneOf : Bytes → List Bytes → Type 0
  IsOneOf s l = (t : Bytes) × Names t l × (equal_fold s t ≡ true)

  is_in-IsOneOf : (s : Bytes) (l : List Bytes) → (is_in equal_fold s l ≡ true) ↔ IsOneOf s l
  unfolding is_in
  is_in-IsOneOf s [] = (λ e. absurd cc, λ (t, at, e). elim at [ ])
  is_in-IsOneOf s (t ∷ l) = elim (Bool-cases (equal_fold s t)) [
    | inl yes_it ↦ (λ e. (t, here, yes_it), λ at. rw yes_it refl)
    | inr other ↦ (
      λ e. let (x, at, f) = (is_in-IsOneOf s l).0 (rw other at e) in (x, there at, f),
      λ (x, at, f). rw other (
          Names-split (λ x. equal_fold s x ≡ true → is_in equal_fold s l ≡ true)
            (λ g. absurd (cc (g, other))) (λ later g. (is_in-IsOneOf s l).1 (x, later, g)) at f),
    )
  ]

  -- A claim makes the holder a member of the organization.
  abbrev pub IsMember : Claims → Bytes → Type 0
  IsMember claims organization =
      ((azp : Bytes) × (claims.azp ≡ some azp) × (equal_fold azp organization ≡ true))
      ⊎ ((claimed : List (Option Bytes)) × (s : Bytes) × (claims.scope ≡ scopes claimed)
          × Names (some s) claimed
          × (equal_fold s (codes "user:memberof:" ++ organization) ≡ true))

  claims_one-Names :
      (claimed : List (Option Bytes)) (wanted : List Bytes)
      → (claims_one equal_fold claimed wanted ≡ true)
        ↔ ((s : Bytes) × Names (some s) claimed × IsOneOf s wanted)
  unfolding claims_one
  claims_one-Names [] wanted = (λ e. absurd cc, λ (s, at, one). elim at [ ])
  claims_one-Names (none ∷ claimed) wanted = (
    λ e. let (s, at, one) = (claims_one-Names claimed wanted).0 e in (s, there at, one),
    λ (s, at, one). (claims_one-Names claimed wanted).1 (s, Names-other (λ e. absurd cc) at, one),
  )
  claims_one-Names (some x ∷ claimed) wanted = elim (Bool-cases (is_in equal_fold x wanted)) [
    | inl member ↦ (λ e. (x, here, (is_in-IsOneOf x wanted).0 member), λ at. rw member refl)
    | inr other ↦ (
      λ e.
          let (s, at, one) = (claims_one-Names claimed wanted).0 (rw other at e) in
          (s, there at, one),
      λ (s, at, one). rw other (
          (claims_one-Names claimed wanted).1
            (s, Names-other (λ e. absurd (cc (e, (is_in-IsOneOf s wanted).1 one, other))) at, one)),
    )
  ]

  is_azp-Names :
      (azp : Option Bytes) (organizations : List Bytes)
      → (is_azp equal_fold azp organizations ≡ true)
        ↔ ((a : Bytes) × (azp ≡ some a) × IsOneOf a organizations)
  unfolding is_azp
  is_azp-Names none organizations = (λ e. absurd cc, λ (a, e, one). absurd cc)
  is_azp-Names (some a) organizations = (
    λ e. (a, refl, (is_in-IsOneOf a organizations).0 e),
    λ (b, e, one).
        (is_in-IsOneOf a organizations).1
          (subst (λ x. IsOneOf x organizations) (sym (some-injective _ _ e)) one),
  )

  in_scope-Names :
      (scope : Scope) (wanted : List Bytes)
      → (in_scope equal_fold scope wanted ≡ true) ↔ (
          (claimed : List (Option Bytes)) × (s : Bytes) × (scope ≡ scopes claimed)
          × Names (some s) claimed
          × IsOneOf s wanted)
  unfolding in_scope claimed_of
  in_scope-Names no_scope wanted = (λ e. absurd cc, λ (l, s, e, at, one). absurd cc)
  in_scope-Names no_list wanted = (λ e. absurd cc, λ (l, s, e, at, one). absurd cc)
  in_scope-Names (scopes claimed) wanted = (
    λ e. let (s, at, one) = (claims_one-Names claimed wanted).0 e in (claimed, s, refl, at, one),
    λ (l, s, e, at, one).
        (claims_one-Names claimed wanted).1
          (s, subst (λ sc. Names (some s) (claimed_of sc)) (sym e) at, one),
  )

  IsOneOf-map :
      (f : Bytes → Bytes) (s : Bytes) (l : List Bytes)
      → IsOneOf s (map f l) ↔ ((x : Bytes) × Names x l × (equal_fold s (f x) ≡ true))
  IsOneOf-map f s [] = (λ (t, at, e). elim at [ ], λ (x, at, e). elim at [ ])
  IsOneOf-map f s (y ∷ l) = (
    λ (t, at, e). elim (Bool-cases (equal_fold s (f y))) [
      | inl first ↦ (y, here, first)
      | inr other ↦
          let (x, named, g) =
            (IsOneOf-map f s l).0 (t, Names-other (λ same. absurd (cc (same, e, other))) at, e) in
          (x, there named, g)
    ],
    λ (x, at, e). elim (Bool-cases (equal_fold s (f y))) [
      | inl first ↦ (f y, here, first)
      | inr other ↦
          let (t, named, g) =
            (IsOneOf-map f s l).1 (x, Names-other (λ same. absurd (cc (same, e, other))) at, e) in
          (t, there named, g)
    ],
  )

  claims-IsMember :
      (claims : Claims) (organizations : List Bytes)
      → ((if is_azp equal_fold claims.azp organizations
            then true
            else in_scope equal_fold claims.scope (map member_of organizations))
          ≡ true)
        ↔ ((organization : Bytes) × Names organization organizations × IsMember claims organization)
  unfolding member_of
  claims-IsMember claims organizations = (
    λ e. elim (Bool-cases (is_azp equal_fold claims.azp organizations)) [
      | inl party ↦
          let (a, found, (o, at, f)) = (is_azp-Names claims.azp organizations).0 party in
          (o, at, inl (a, found, f))
      | inr other ↦
          let (l, s, found, named, one) =
            (in_scope-Names claims.scope (map member_of organizations)).0 (rw other at e) in
          let (o, at, f) = (IsOneOf-map member_of s organizations).0 one in
          (o, at, inr (l, s, found, named, f))
    ],
    λ (o, at, member). elim member [
      | inl (a, found, f) ↦
          rw ((is_azp-Names claims.azp organizations).1 (a, found, (o, at, f))) refl
      | inr (l, s, found, named, f) ↦
          let one = (IsOneOf-map member_of s organizations).1 (o, at, f) in
          let scoped =
            (in_scope-Names claims.scope (map member_of organizations)).1
              (l, s, found, named, one) in
          ground (arith, scoped)
    ],
  )

  -- A token is accepted exactly when it has valid claims, and these make its holder a member of one
  -- of the organizations: the claim "azp" is the organization up to case, or one of the scopes is
  -- "user:memberof:" and the organization, up to case.
  pub check_token-IsMember :
      (parse : Bytes → Option Claims) (organizations : List Bytes) (token : Bytes)
      → (check_token equal_fold parse organizations token ≡ true) ↔ (
          (claims : Claims) × (organization : Bytes) × (parse token ≡ some claims)
          × Names organization organizations
          × IsMember claims organization)
  unfolding check_token member_of
  check_token-IsMember parse organizations token = elim (Option-cases (parse token)) [
    | inl invalid ↦ rw (check_token, invalid) (λ e. absurd cc, λ (c, o, e, at, member). absurd cc)
    | inr (claims, valid) ↦
        let runs : check_token equal_fold parse organizations token ≡ (
            if is_azp equal_fold claims.azp organizations
            then true
            else in_scope equal_fold claims.scope (map member_of organizations)) =
          rw (check_token, valid) refl in
        let (to, from) = claims-IsMember claims organizations in
        (
          λ e. let (o, at, member) = to (sym runs ∙ e) in (claims, o, valid, at, member),
          λ (c, o, e, at, member).
              runs
              ∙ from (o, at, subst (λ x. IsMember x o) (some-injective _ _ (sym e ∙ valid)) member),
        )
  ]
