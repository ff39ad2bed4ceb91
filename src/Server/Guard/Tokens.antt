-- ===== src/Server/Guard/Tokens.antt =====
-- What the tokens of the program open (server/src/auth, server/src/jobs/jobs.service.ts).
use pocket_dev.Base.{
  ℕ, String, ◌≡◌, ◌≢◌, refl, sym, Bool, false, Option, none, some, ok, arith, eq_iff, Option-cases,
  inl, inr, get_or_else,
}
use pocket_dev.Pty.Token.{Payload, text, absent, jwt_verifier}
use pocket_dev.Worker.Events.{free}
use pocket_dev.Server.Db.{Db, Api, User, Subscription, find_unique, find-append_new}
use pocket_dev.Server.Auth.{
  Register, Issued, register, issue_token, find_email, new_user, new_subscription,
}
use pocket_dev.Server.Jobs.{
  ExecutionConfig, CreateJob, FreshIds, StartSessionResponse, pty_payload, mint_pty_token,
}
use pocket_dev.Server.Jobs.Creation.{created, created_token, created_token_verifies}
use pocket_dev.Server.Guard.{validate, can_activate, get_profile}

can_activate-some :
    (decode : String → Option Payload) (token : String) (p : Payload)
    → token ≢ ""
    → decode token ≡ some p
    → can_activate decode false (some token) ≡ ok (some (validate p))
unfolding can_activate
can_activate-some decode token p filled d = ground (arith, eq_iff token "", d)

module _ (sign : Payload → String → String) (config : ExecutionConfig) (ids : FreshIds)
    (user_id tier : String) (dto : CreateJob) (now : ℕ) where
  -- The token of a creation that succeeds, meant for one session, is accepted by the terminal servers
  -- for this session alone, but by every route of the server too, as the user's own: the guard does not
  -- look at the scope. Decoding is to give back what was signed, and that is not empty.
  pub terminal_token_opens_api :
      (decode : String → Option Payload) (a : Api) (r : StartSessionResponse)
      → ((ttl : String)
          → decode (sign (pty_payload user_id ids.session_id dto.project_id) ttl)
            ≡ some (pty_payload user_id ids.session_id dto.project_id))
      → ((ttl : String) → sign (pty_payload user_id ids.session_id dto.project_id) ttl ≢ "")
      → (created sign config ids user_id tier dto now a).0 ≡ ok r
      → (jwt_verifier decode r.ws_token
          ≡ some (record { sub = user_id; session_id = r.session_id; project_id = dto.project_id }))
        × (can_activate decode false (some r.ws_token)
            ≡ ok (some (record { user_id = text user_id; email = absent; tier = absent })))
  terminal_token_opens_api decode a r decodes filled h =
      let p = pty_payload user_id ids.session_id dto.project_id in
      let ttl = get_or_else config.ws_token_ttl "5m" in
      (
        created_token_verifies sign config ids user_id tier dto now decode a r decodes filled h,
        rw (created_token sign config ids user_id tier dto now a r h) (
            unfold mint_pty_token in
            can_activate-some decode (sign p ttl) p (filled ttl) (decodes ttl)),
      )

-- What registration signs.
abbrev pub signed_in : String → Register → Payload
signed_in id dto = record {
  sub = text id;
  session_id = absent;
  project_id = absent;
  scope = absent;
  email = text dto.email;
  tier = text "FREE";
}

module _ (hash : String → String) (compare : String → String → Bool)
    (sign : Payload → ℕ → String) where
  -- Who has registered is let in with the token of the registration, under the id that the profile is
  -- found by, with the free tier and its new subscription. The id is new, decoding gives back what was
  -- signed, and that is not empty.
  pub registered_profile :
      (decode : String → Option Payload) (id : String) (now : ℕ) (dto : Register) (db : Db)
      (issued : Issued)
      → decode (sign (signed_in id dto) now) ≡ some (signed_in id dto)
      → sign (signed_in id dto) now ≢ ""
      → find_unique (λ (u : User). u.id) id db.users ≡ none
      → find_unique (λ (s : Subscription). s.user_id) id db.subscriptions ≡ none
      → (register hash compare sign id now dto db).0 ≡ ok issued
      → let after = (register hash compare sign id now dto db).1 in
        (can_activate decode false (some issued.access_token)
          ≡ ok (some (record { user_id = text id; email = text dto.email; tier = text "FREE" })))
        × ((get_profile id after).0
            ≡ ok (record {
              id = id;
              email = dto.email;
              name = dto.name;
              tier = free;
              subscription = some (new_subscription hash compare sign id now);
            }))
  unfolding register issue_token get_profile
  registered_profile decode id now dto db issued decodes filled new_id new_row h =
      elim (Option-cases (find_email dto.email db)) [
        | inl e ↦
            let same : issue_token hash compare sign id dto.email free now ≡ issued =
              cc (rw e at h) in
            let new : User = new_user hash compare sign id dto in
            let user = find-append_new (λ (u : User). u.id) new db.users new_id in
            let subscription =
              find-append_new (λ (s : Subscription). s.user_id)
                (new_subscription hash compare sign id now) db.subscriptions new_row in
            let p = signed_in id dto in
            (
              rw (sym same) (can_activate-some decode (sign p now) p filled decodes),
              rw (e, user, subscription) refl,
            )
        | inr (u, e) ↦ absurd (ground (arith, e))
      ]
