-- ===== src/Proxy.antt =====
-- apps/redis-proxy/proxy.go: a connection to the proxy of redis. What redis answers to a command,
-- after the commands before it, what a token is worth, and strings.ToLower are arguments. A reply is
-- what is written to the connection.
pub mod Login
pub mod Token
use debug_bootstrap.Prelude.{
  ℕ, Bool, true, false, Option, none, some, List, [], ◌∷◌, ◌++◌, map, length, Bytes, codes,
  bytes_equal, ◌==◌, if◌then◌else◌, not, ◌&&◌,
}
use debug_bootstrap.Prelude.Int.{ℤ}

-- A command of a client: Args[0], and the rest
abbrev pub Request : Type 0
Request = Bytes × List Bytes

-- What redis gives for a command, as `Do` returns it
pub data Element : Type 0 where
  error bulk text : Bytes → Element
  int : ℤ → Element
  null other : Element

pub data Answer : Type 0 where
  failed : Bytes → Answer
  no_value : Answer
  value : Element → Answer
  array : List Element → Answer

-- What is written to a connection
pub data Written : Type 0 where
  write_error write_text write_bulk : Bytes → Written
  write_int : ℤ → Written
  write_null unhandled : Written
  write_array : ℕ → Written

-- The context of a connection, and the commands that went to redis, the last one last
pub record Connection : Type 0 where
  pub authorized : Bool
  pub sent : List Request

-- The function `write` of proxy
unfoldable pub write : Element → Written
write (error e) = write_error e
write (int n) = write_int n
write (text t) = write_text t
write (bulk b) = write_bulk b
write null = unhandled
write other = unhandled

unfoldable pub write_answer : Answer → List Written
unfolding write
write_answer (failed e) = write_error e ∷ []
write_answer no_value = write_null ∷ []
write_answer (value v) = write v ∷ []
write_answer (array vs) = write_array (length vs) ∷ map write vs

-- The names that ledis had
unfoldable pub translate : (Bytes → Bytes) → Request → Request
translate lower (name, args) =
    if lower name == codes "lkeyexists"
    then (codes "exists", args)
    else if lower name == codes "lttl"
    then (codes "ttl", args)
    else (name, args)

module _ (do_auth : Bool) (auth_method : Bytes → Bool) (lower : Bytes → Bytes)
    (redis : List Request → Request → Answer) where
  -- func (r *redisProxy) auth, for the arguments behind the name
  unfoldable pub auth : List Bytes → Connection → Connection × List Written
  auth [] c = (c, write_error (codes "invalid number of arguments") ∷ [])
  auth (password ∷ []) c =
      if auth_method password
      then (record c { authorized = true }, write_text (codes "OK") ∷ [])
      else (c, write_error (codes "invalid jwt") ∷ [])
  auth (a ∷ b ∷ args) c = (c, write_error (codes "invalid number of arguments") ∷ [])

  -- func (r *redisProxy) proxy
  unfoldable pub proxy : Request → Connection → Connection × List Written
  unfolding write_answer
  proxy cmd c =
      if do_auth && not c.authorized
      then (
        c,
        write_error (codes "permission denied, please call AUTH first with a valid JWT") ∷ [],
      )
      else (record c { sent = c.sent ++ cmd ∷ [] }, write_answer (redis c.sent cmd))

  -- func (r *redisProxy) handler
  unfoldable pub handle : Request → Connection → Connection × List Written
  unfolding auth proxy translate
  handle cmd c = if lower cmd.0 == codes "auth" then auth cmd.1 c else proxy (translate lower cmd) c

  -- The commands of a client, one after the other
  unfoldable pub serve : List Request → Connection → Connection × List Written
  unfolding handle
  serve [] c = (c, [])
  serve (cmd ∷ cmds) c =
      let (next, written) = handle cmd c in
      let (last, more) = serve cmds next in (last, written ++ more)
