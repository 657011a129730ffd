-- ===== src/Proxy/Login.antt =====
-- What the proxy of apps/redis-proxy/proxy.go sends to redis for the commands of a connection.
use debug_bootstrap.Prelude.{
  ◌≡◌, refl, ◌∙◌, ap, Bool, true, false, List, [], ◌∷◌, ◌++◌, append_assoc, append-nil, Bytes,
  codes, bytes_equal, ◌==◌, if◌then◌else◌, not, ◌&&◌, Bool-cases, inl, inr, arith,
}
use debug_bootstrap.Proxy.{Request, Answer, Connection, auth, proxy, translate, handle, serve}

module _ (do_auth : Bool) (auth_method : Bytes → Bool) (lower : Bytes → Bytes)
    (redis : List Request → Request → Answer) where
  -- One token, which is accepted
  unfoldable pub accepts : List Bytes → Bool
  accepts [] = false
  accepts (token ∷ []) = auth_method token
  accepts (a ∷ b ∷ args) = false

  -- The commands behind the first AUTH that is accepted
  unfoldable pub after_login : List Request → List Request
  unfolding accepts
  after_login [] = []
  after_login (cmd ∷ cmds) =
      if lower cmd.0 == codes "auth" && accepts cmd.1 then cmds else after_login cmds

  -- The commands but AUTH, under the names of redis
  unfoldable pub forwarded : List Request → List Request
  forwarded [] = []
  forwarded (cmd ∷ cmds) =
      if lower cmd.0 == codes "auth" then forwarded cmds else translate lower cmd ∷ forwarded cmds

  auth-accepts :
      (args : List Bytes) (c : Connection)
      → let next = (auth do_auth auth_method lower redis args c).0 in
        (next.sent ≡ c.sent) × (next.authorized ≡ (if accepts args then true else c.authorized))
  unfolding auth accepts
  auth-accepts [] c = (refl, refl)
  auth-accepts (token ∷ []) c = elim (Bool-cases (auth_method token)) [
    | inl e ↦ rw e (refl, refl)
    | inr e ↦ rw e (refl, refl)
  ]
  auth-accepts (a ∷ b ∷ args) c = (refl, refl)

  proxy-sends :
      (cmd : Request) (c : Connection)
      → let next = (proxy do_auth auth_method lower redis cmd c).0 in
        (next.sent ≡ (if do_auth && not c.authorized then c.sent else c.sent ++ cmd ∷ []))
        × (next.authorized ≡ c.authorized)
  unfolding proxy
  proxy-sends cmd c = elim (Bool-cases (do_auth && not c.authorized)) [
    | inl e ↦ rw e (refl, refl)
    | inr e ↦ rw e (refl, refl)
  ]

  -- Redis gets the commands of a connection but AUTH, in order and each once: those behind the
  -- first AUTH with a token that is accepted, or all of them if the proxy asks for no token or the
  -- connection is authorized already.
  pub serve-forwarded :
      (cmds : List Request) (c : Connection)
      → (serve do_auth auth_method lower redis cmds c).0.sent
        ≡ c.sent ++ forwarded (if do_auth && not c.authorized then after_login cmds else cmds)
  unfolding serve handle forwarded after_login
  serve-forwarded [] c = ground (arith, append-nil c.sent)
  serve-forwarded (cmd ∷ cmds) c =
      let next = (handle do_auth auth_method lower redis cmd c).0 in
      let rest = serve-forwarded cmds next in
      elim (Bool-cases (lower cmd.0 == codes "auth")) [
        | inl login ↦
            let (s, a) = auth-accepts cmd.1 c in
            let goes : next ≡ (auth do_auth auth_method lower redis cmd.1 c).0 = rw login refl in
            rest ∙ rw (goes, s, a) (ap (λ l. c.sent ++ l) (ground (arith, login)))
        | inr other ↦
            let (s, a) = proxy-sends (translate lower cmd) c in
            let goes : next ≡ (proxy do_auth auth_method lower redis (translate lower cmd) c).0 =
              rw other refl in
            rest
            ∙ rw (goes, s, a)
                (ground
                  (arith, other, append_assoc c.sent (translate lower cmd ∷ []) (forwarded cmds)))
      ]
