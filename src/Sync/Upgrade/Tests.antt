-- ===== src/Sync/Upgrade/Tests.antt =====
-- Tests and witnesses for the opening of a sync socket (server/src/sync/sync.gateway.ts,
-- services/cli-agent/src/sync-client.ts).
use pocket_dev.Base.{
  ◌≡◌, refl, arith, Text, String, codes, text_eq, Option, none, some, if◌then◌else◌, [], Bool, true,
  false, ◌∷◌, List, ◌++◌, All,
}
use pocket_dev.Sync.Upgrade.{
  sync_target, encode_component, accepted, thrown, unauthorized, not_found, handle_upgrade,
}
use pocket_dev.Sync.Upgrade.Opens.{IsByte, sync_target_opens}
use pocket_dev.Sync.Upgrade.Query.{query_of}

abbrev bob_token : Text
bob_token = codes "a+b/c=="

abbrev bob : String
bob = "bob"

abbrev decode_token : Text → Option String
decode_token t = if text_eq t bob_token then some "bob" else none

escaped : encode_component bob_token ≡ codes "a%2Bb%2Fc%3D%3D"
unfolding encode_component
escaped = refl

-- Any host but an empty one.
abbrev any_host : Text → Bool
any_host [] = false
any_host (c ∷ s) = true

wrong_path : handle_upgrade decode_token any_host (codes "/other?token=a") ≡ not_found
unfolding handle_upgrade text_eq
wrong_path = refl

no_token : handle_upgrade decode_token any_host (codes "/sync") ≡ unauthorized
unfolding handle_upgrade text_eq
no_token = refl

-- `URL` takes the dots out of a path, and takes a backslash for a slash.
dots_taken_out :
    handle_upgrade decode_token any_host (codes "/x/../sync?token=a%2Bb%2Fc==") ≡ accepted "bob"
unfolding handle_upgrade text_eq
dots_taken_out = refl

backslash_read :
    handle_upgrade decode_token any_host (codes "\\sync?token=a%2Bb%2Fc==") ≡ accepted "bob"
unfolding handle_upgrade text_eq
backslash_read = refl

hash_cut : handle_upgrade decode_token any_host (codes "/sync#?token=a") ≡ unauthorized
unfolding handle_upgrade text_eq
hash_cut = refl

host_dropped : handle_upgrade decode_token any_host (codes "//host/other?token=a") ≡ not_found
unfolding handle_upgrade text_eq
host_dropped = refl

-- Two slashes name a host, and there is none.
no_host_throws : handle_upgrade decode_token any_host (codes "//?token=a") ≡ thrown
unfolding handle_upgrade text_eq
no_host_throws = refl

bob_bytes : All IsByte bob_token
bob_bytes = (
  omega arith,
  (omega arith, (omega arith, (omega arith, (omega arith, (omega arith, (omega arith, tt)))))),
)

sync_target_opens_example :
    handle_upgrade decode_token any_host (sync_target bob_token) ≡ accepted "bob"
sync_target_opens_example =
    sync_target_opens decode_token any_host bob_token "bob" bob_bytes (λ e. absurd (cc e))
      (unfold text_eq in refl) (λ e. absurd (cc e))

-- The token is the second of two fields, and the first one has a mark in its value.
abbrev two_fields : List (Text × Text)
two_fields = (codes "a", codes "1&2") ∷ (codes "token", bob_token) ∷ []

second_field_opens :
    handle_upgrade decode_token any_host (b'/' ∷ codes "sync" ++ b'?' ∷ query_of two_fields)
    ≡ accepted "bob"
unfolding handle_upgrade text_eq encode_component
second_field_opens = refl
