-- ===== src/Examples/Logins.antt =====
-- The proxy of redis at concrete inputs.
use debug_bootstrap.Prelude.{
  ◌≡◌, refl, Bool, true, false, Option, none, some, List, [], ◌∷◌, Bytes, codes, bytes_equal, ◌==◌,
  if◌then◌else◌, Names, ◌↔◌,
}
use debug_bootstrap.Proxy.{
  Request, Element, Answer, Connection, text, null, array, write_text, write_error, write_array,
  unhandled, serve,
}
use debug_bootstrap.Proxy.Login.{after_login, forwarded, serve-forwarded}
use debug_bootstrap.Proxy.Token.{Claims, scopes, check_token}
use debug_bootstrap.Proxy.Token.Member.{IsMember, check_token-IsMember}

abbrev token_is_good : Bytes → Bool
token_is_good token = token == codes "good"

abbrev small : Bytes → Bytes
small name =
    if name == codes "AUTH"
    then codes "auth"
    else if name == codes "LTTL"
    then codes "lttl"
    else name

abbrev redis : List Request → Request → Answer
redis sent cmd = array (first_of cmd ∷ null ∷ [])
  where
    first_of : Request → Element
    first_of cmd = text cmd.0

abbrev client : List Request
client =
    (codes "get", codes "a" ∷ [])
    ∷ (codes "AUTH", codes "bad" ∷ [])
    ∷ (codes "AUTH", codes "good" ∷ [])
    ∷ (codes "LTTL", codes "a" ∷ [])
    ∷ []

abbrev fresh : Connection
fresh = record { authorized = false; sent = [] }

-- Before AUTH nothing goes to redis, and a value that is null in an array is written as an error.
serve-client : serve true token_is_good small redis client fresh ≡ (
  record { authorized = true; sent = (codes "ttl", codes "a" ∷ []) ∷ [] },
  write_error (codes "permission denied, please call AUTH first with a valid JWT")
      ∷ write_error (codes "invalid jwt")
      ∷ write_text (codes "OK")
      ∷ write_array 2
      ∷ write_text (codes "ttl")
      ∷ unhandled
      ∷ [],
)
unfolding serve
serve-client = refl

serve-forwarded_example :
    (serve true token_is_good small redis client fresh).0.sent
    ≡ forwarded true token_is_good small redis (after_login true token_is_good small redis client)
serve-forwarded_example = serve-forwarded true token_is_good small redis client fresh

abbrev parse : Bytes → Option Claims
parse token =
    if token == codes "good"
    then some (record { azp = none; scope = scopes (none ∷ some (codes "user:memberof:tf") ∷ []) })
    else none

check_token-IsMember_example : (check_token ◌==◌ parse (codes "tf" ∷ []) (codes "good") ≡ true) ↔ (
    (claims : Claims) × (organization : Bytes) × (parse (codes "good") ≡ some claims)
    × Names organization (codes "tf" ∷ [])
    × IsMember ◌==◌ claims organization)
check_token-IsMember_example = check_token-IsMember ◌==◌ parse (codes "tf" ∷ []) (codes "good")
