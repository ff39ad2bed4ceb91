-- ===== src/Sync/Upgrade.antt =====
-- How a sync socket is opened: the address that the agent makes
-- (services/cli-agent/src/sync-client.ts) and what the server reads from it (`handleUpgrade`, `parseUrl`
-- and `verify` of server/src/sync/sync.gateway.ts). The token is its UTF-8 bytes; the server's address
-- has no path of its own.
pub mod Opens
pub mod Query
pub mod Tests
use pocket_dev.Base.{
  ℕ, ◌+◌, ◌-◌, ◌*◌, ◌/◌, ◌%◌, String, Text, codes, text_eq, Bool, true, false, ◌&&◌, ◌||◌, Option,
  none, some, List, [], ◌∷◌, ◌++◌, ◌==◌, any, nat_eq, leb, ltb, if◌then◌else◌,
}
use pocket_dev.Files.Paths.{drop_last}

-- What `encodeURIComponent` leaves as it is.
abbrev pub is_unreserved : ℕ → Bool
is_unreserved c =
    (leb b'a' c && leb c b'z')
    || (leb b'A' c && leb c b'Z')
    || (leb b'0' c && leb c b'9')
    || any (λ d. nat_eq d c) (codes "-_.!~*'()")

abbrev pub hex_digit : ℕ → ℕ
hex_digit n = if ltb n 10 then b'0' + n else b'A' + (n - 10)

abbrev pub encode_byte : ℕ → Text
encode_byte c =
    if is_unreserved c then c ∷ [] else b'%' ∷ hex_digit (c / 16) ∷ hex_digit (c % 16) ∷ []

-- `encodeURIComponent`
unfoldable pub encode_component : Text → Text
encode_component [] = []
encode_component (c ∷ s) = encode_byte c ++ encode_component s

-- The target of the agent's request.
unfoldable pub sync_target : Text → Text
unfolding encode_component
sync_target token = codes "/sync?token=" ++ encode_component token

-- A text up to the first of a unit, and what follows it.
unfoldable pub cut : ℕ → Text → Text × Text
cut d [] = ([], [])
cut d (c ∷ s) = let (a, b) = cut d s in if nat_eq c d then ([], s) else (c ∷ a, b)

abbrev pub hex_value : ℕ → Option ℕ
hex_value c =
    if leb b'0' c && leb c b'9'
    then some (c - b'0')
    else if leb b'A' c && leb c b'F'
    then some (c - b'A' + 10)
    else if leb b'a' c && leb c b'f'
    then some (c - b'a' + 10)
    else none

abbrev pub both_digits : Option ℕ → Option ℕ → Option ℕ
both_digits (some h) (some l) = some (h * 16 + l)
both_digits _ _ = none

-- The decoding of a query's value: `+` is a space, and a `%` with no two digits stands for itself.
unfoldable pub decode_component : Text → Text
decode_component [] = []
decode_component (c ∷ []) = (if nat_eq c b'+' then 32 else c) ∷ []
decode_component (c ∷ h ∷ []) = (if nat_eq c b'+' then 32 else c) ∷ decode_component (h ∷ [])
decode_component (c ∷ h ∷ l ∷ s) =
    let rest = decode_component s in
    let next = decode_component (h ∷ l ∷ s) in
    if nat_eq c b'%'
    then (elim (both_digits (hex_value h) (hex_value l)) [ some b ↦ b ∷ rest | none ↦ c ∷ next ])
    else (if nat_eq c b'+' then 32 else c) ∷ next

-- `searchParams.get(name)`: the first of the fields with this name, decoded.
abbrev pub field_of : Text → Text × Text → Option Text → Option Text
field_of name (n, v) later =
    if text_eq (decode_component n) name then some (decode_component v) else later

unfoldable pub fields : Text → List Text
fields [] = [] ∷ []
fields (c ∷ s) = elim (fields s) [
  | [] ↦ (c ∷ []) ∷ []
  | f ∷ fs ↦ if nat_eq c b'&' then [] ∷ f ∷ fs else (c ∷ f) ∷ fs
]

unfoldable pub find_field : Text → List Text → Option Text
unfolding cut
find_field name [] = none
find_field name (f ∷ fs) = field_of name (cut b'=' f) (find_field name fs)

-- The parts of a path, at either slash.
abbrev pub is_slash : ℕ → Bool
is_slash c = nat_eq c b'/' || nat_eq c 0x5c

unfoldable pub segments : Text → List Text
segments [] = [] ∷ []
segments (c ∷ s) = elim (segments s) [
  | [] ↦ (c ∷ []) ∷ []
  | f ∷ fs ↦ if is_slash c then [] ∷ f ∷ fs else (c ∷ f) ∷ fs
]

-- A dot may be escaped.
abbrev pub is_dot : Text → Bool
is_dot s = any (text_eq s) (codes "." ∷ codes "%2e" ∷ codes "%2E" ∷ [])

abbrev pub is_dots : Text → Bool
is_dots s = any (text_eq s) (
    codes ".."
    ∷ codes ".%2e"
    ∷ codes ".%2E"
    ∷ codes "%2e."
    ∷ codes "%2E."
    ∷ codes "%2e%2e"
    ∷ codes "%2e%2E"
    ∷ codes "%2E%2e"
    ∷ codes "%2E%2E"
    ∷ [])

-- The parts with the dots taken out; a dot at the end leaves an empty part.
unfoldable pub without_dots : List Text → List Text → List Text
unfolding drop_last
without_dots before [] = before
without_dots before (s ∷ []) =
    if is_dots s
    then drop_last before ++ [] ∷ []
    else if is_dot s
    then before ++ [] ∷ []
    else before ++ s ∷ []
without_dots before (s ∷ t ∷ path) =
    without_dots
      (if is_dots s then drop_last before else if is_dot s then before else before ++ s ∷ [])
      (t ∷ path)

unfoldable pub slashed : List Text → Text
slashed [] = []
slashed (s ∷ path) = b'/' ∷ s ++ slashed path

-- `url.pathname`, from what follows the first slash of the path. A unit that `URL` escapes in a path is
-- left as it stands.
unfoldable pub pathname_of : Text → Text
unfolding segments without_dots slashed
pathname_of path = slashed (without_dots [] (segments path))

unfoldable pub skip_slashes : Text → Text
skip_slashes [] = []
skip_slashes (c ∷ s) = let rest = skip_slashes s in if is_slash c then rest else c ∷ s

-- A text up to the first slash, and what follows it.
unfoldable pub cut_slash : Text → Text × Text
cut_slash [] = ([], [])
cut_slash (c ∷ s) = let (a, b) = cut_slash s in if is_slash c then ([], s) else (c ∷ a, b)

pub record Target : Type 0 where
  pub pathname : Text
  pub token : Option Text

module _ (valid_host : Text → Bool) where
  -- A target that names a host; `valid_host` says which ones `URL` takes.
  abbrev pub located : Text × Text → Option Text
  located (host, path) = if valid_host host then some (pathname_of path) else none

  -- The path of a target, which is the path on the server, as a rule, or names a host, behind two
  -- slashes or a scheme; `none` where `new URL` throws.
  unfoldable pub path_of : Text → Option Text
  unfolding skip_slashes cut_slash pathname_of cut
  path_of [] = some (pathname_of [])
  path_of (c ∷ []) = some (pathname_of (if is_slash c then [] else c ∷ []))
  path_of (c ∷ d ∷ s) =
      if is_slash c
      then (if is_slash d then located (cut_slash (skip_slashes s)) else some (pathname_of (d ∷ s)))
      else if any (λ e. nat_eq e b':') (c ∷ d ∷ s)
      then located (cut_slash (skip_slashes (cut b':' (c ∷ d ∷ s)).1))
      else some (pathname_of (c ∷ d ∷ s))

  abbrev pub with_query : Option Text → Text → Option Target
  with_query none query = none
  with_query (some path) query =
      some (record { pathname = path; token = find_field (codes "token") (fields query) })

  -- `parseUrl`. What follows a `#` does not count.
  unfoldable pub parse_url : Text → Option Target
  unfolding cut fields find_field decode_component path_of
  parse_url target =
      let (path, query) = cut b'?' (cut b'#' target).0 in with_query (path_of path) query

-- What becomes of the request; the user is that of the connection.
pub data Upgrade : Type 0 where
  -- the handler throws, which nothing catches
  thrown : Upgrade
  not_found unauthorized : Upgrade
  accepted : String → Upgrade

module _ (decode : Text → Option String) where
  -- `verify`; `decode` is `jwt.verify` with the subject of the payload, and gives nothing where it throws.
  abbrev pub verify : Option Text → Option String
  verify none = none
  verify (some []) = none
  verify (some (c ∷ token)) = decode (c ∷ token)

  abbrev pub admitted : Option String → Upgrade
  admitted none = unauthorized
  admitted (some user_id) = if user_id == "" then unauthorized else accepted user_id

  abbrev pub upgraded : Option Target → Upgrade
  upgraded none = thrown
  upgraded (some url) =
      if text_eq url.pathname (codes "/sync") then admitted (verify url.token) else not_found

  -- `handleUpgrade`
  unfoldable pub handle_upgrade : (Text → Bool) → Text → Upgrade
  unfolding parse_url
  handle_upgrade valid_host target = upgraded (parse_url valid_host target)
