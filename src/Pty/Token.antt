-- ===== src/Pty/Token.antt =====
-- The verifier of terminal tokens (packages/pty-core/src/auth.ts). `jwt.verify` is a parameter: it
-- gives the payload of a token, or nothing where it throws.
use pocket_dev.Base.{String, ◌≡◌, ◌≢◌, ◌↔◌, Option, none, some, arith, eq_iff, ◌==◌, if◌then◌else◌}
use pocket_dev.Pty.Messages.{PtyTokenClaims}

-- A member of a decoded payload: missing, a string, or a value of another type.
pub data Claim : Type 0 where
  absent other : Claim
  text : String → Claim

-- The members that the program reads.
pub record Payload : Type 0 where
  pub sub : Claim
  pub session_id : Claim
  pub project_id : Claim
  pub scope : Claim
  pub email : Claim
  pub tier : Claim

abbrev accept_claims : Claim → Claim → Claim → Claim → Option PtyTokenClaims
accept_claims (text scope) (text sub) (text session_id) (text project_id) =
    if scope == "pty"
    then some (record { sub = sub; session_id = session_id; project_id = project_id })
    else none
accept_claims _ _ _ _ = none

abbrev accept : Option Payload → Option PtyTokenClaims
accept none = none
accept (some p) = accept_claims p.scope p.sub p.session_id p.project_id

unfoldable pub jwt_verifier : (String → Option Payload) → String → Option PtyTokenClaims
jwt_verifier decode token = if token == "" then none else accept (decode token)

-- The payload has the scope of terminal tokens, and these three claims.
pub record Carries (p : Payload) (k : PtyTokenClaims) : Type 0 where
  pub scope_pty : p.scope ≡ text "pty"
  pub sub_text : p.sub ≡ text k.sub
  pub session_text : p.session_id ≡ text k.session_id
  pub project_text : p.project_id ≡ text k.project_id

abbrev CarriedBy : Claim → Claim → Claim → Claim → PtyTokenClaims → Type 0
CarriedBy scope sub session_id project_id k =
    (scope ≡ text "pty")
    × (sub ≡ text k.sub)
    × (session_id ≡ text k.session_id)
    × (project_id ≡ text k.project_id)

accept_claims_iff :
    (scope sub session_id project_id : Claim) (k : PtyTokenClaims)
    → (accept_claims scope sub session_id project_id ≡ some k)
      ↔ CarriedBy scope sub session_id project_id k
accept_claims_iff (text s) (text a) (text b) (text c) k = ground (arith, eq_iff s "pty")
accept_claims_iff _ _ _ _ k = ground arith

module _ (decode : String → Option Payload) (token : String) where
  -- A token gives claims exactly when it is not empty, decodes, has the scope "pty" and has these
  -- three claims as strings.
  pub verifier_exact :
      (p : Payload) (k : PtyTokenClaims)
      → decode token ≡ some p
      → (jwt_verifier decode token ≡ some k) ↔ ((token ≢ "") × Carries p k)
  unfolding jwt_verifier
  verifier_exact p k e =
      ground (arith, eq_iff token "", accept_claims_iff p.scope p.sub p.session_id p.project_id k)

  verifier_rejects : decode token ≡ none → jwt_verifier decode token ≡ none
  unfolding jwt_verifier
  verifier_rejects e = ground arith
