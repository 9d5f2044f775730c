-- ===== src/Queue/Redis.antt =====
-- parseRedisURL of internal/queue/queue.go. net/url is not modelled: what url.Parse makes of an
-- address with "://" is a parameter.
use vibls_assignment.Common.{
  ℕ, ◌≡◌, refl, false, Option, none, some, [], ◌∷◌, ◌++◌, arith, eqb, if◌then◌else◌, is_empty,
}
use vibls_assignment.Common.Text.{Bytes, codes, contains, count_byte}

-- u.Hostname(), u.Port(), and u.User.Password() if there is a password.
pub record ParsedUrl : Type 0 where
  pub hostname : Bytes
  pub port : Bytes
  pub password : Option Bytes

abbrev pub colon : ℕ
colon = b':'

-- What stands before and behind the last colon (strings.LastIndex).
unfoldable pub split_last : Bytes → Option (Bytes × Bytes)
split_last [] = none
split_last (c ∷ s) = elim (split_last s) [
  | some (before, behind) ↦ some (c ∷ before, behind)
  | none ↦ if eqb c colon then some ([], s) else none
]

abbrev default_to : Bytes → Bytes → Bytes
default_to fallback s = if is_empty s then fallback else s

abbrev address : Bytes → Bytes → Bytes
address host port = host ++ colon ∷ port

abbrev plain_address : Bytes → Option (Bytes × Bytes) → Bytes
plain_address host none = address host (codes "6379")
plain_address host (some (before, behind)) = address (default_to (codes "localhost") before) behind

abbrev given_password : Option Bytes → Bytes
given_password none = []
given_password (some pw) = pw

abbrev without_scheme : Bytes → Bytes × Bytes
without_scheme redis_url =
    let host = default_to (codes "localhost") redis_url in
    (plain_address host (split_last host), [])

abbrev with_scheme : Bytes → Option ParsedUrl → Bytes × Bytes
with_scheme redis_url none = without_scheme redis_url
with_scheme redis_url (some u) =
    (address u.hostname (default_to (codes "6379") u.port), given_password u.password)

-- The address and the password.
unfoldable pub parse_redis_url : (Bytes → Option ParsedUrl) → Bytes → Bytes × Bytes
unfolding split_last
parse_redis_url parse redis_url =
    if contains redis_url (codes "://")
    then with_scheme redis_url (parse redis_url)
    else without_scheme redis_url

split_last-none : (s : Bytes) → count_byte colon s ≡ 0 → split_last s ≡ none
unfolding split_last
split_last-none [] h = refl
split_last-none (c ∷ s) h = ground (arith, split_last-none s)

split_last-append :
    (host port : Bytes)
    → count_byte colon port ≡ 0
    → split_last (host ++ colon ∷ port) ≡ some (host, port)
unfolding split_last
split_last-append [] port h = ground (arith, split_last-none port h)
split_last-append (c ∷ host) port h = ground (arith, split_last-append host port h)

-- An address without "://" that ends in a port: the address is kept as it is, also if the host
-- holds colons, and an empty host becomes "localhost". An address without a colon gets the port
-- 6379, and the empty one is "localhost:6379". There is no password.
pub parse_redis_url_plain :
    (parse : Bytes → Option ParsedUrl) (host port : Bytes)
    → count_byte colon port ≡ 0
    → contains (host ++ colon ∷ port) (codes "://") ≡ false
    → contains port (codes "://") ≡ false
    → (parse_redis_url parse (host ++ colon ∷ port)
        ≡ ((if is_empty host then codes "localhost" else host) ++ colon ∷ port, []))
      × (parse_redis_url parse port
          ≡ ((if is_empty port then codes "localhost" else port) ++ codes ":6379", []))
unfolding parse_redis_url
parse_redis_url_plain parse host port h plain plain_port = (
  at_port host plain,
  ground (arith, plain_port, split_last-none port h, split_last-none (codes "localhost") refl),
)
  where
    at_port :
        (host : Bytes)
        → contains (host ++ colon ∷ port) (codes "://") ≡ false
        → parse_redis_url parse (host ++ colon ∷ port)
          ≡ ((if is_empty host then codes "localhost" else host) ++ colon ∷ port, [])
    at_port [] p = rw (p, split_last-append [] port h)
    at_port (c ∷ host) p = rw (p, split_last-append (c ∷ host) port h)
