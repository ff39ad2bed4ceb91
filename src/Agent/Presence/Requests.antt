-- ===== src/Agent/Presence/Requests.antt =====
-- The requests of the desktop agent (services/desktop-agent/src/index.ts): what a step does to those on
-- the way, and what one does to the rows when it arrives.
use mathlib.Core.Path.{subst}
use pocket_dev.Base.{
  ℕ, zero, suc, String, ◌≡◌, refl, ap, Bool, false, Option, some, List, [], ◌∷◌, ◌==◌, arith, All,
  All-append, Option-cases, Bool-cases, inl, inr,
}
use pocket_dev.Pty.Token.{Payload}
use pocket_dev.Server.Db.{Api}
use pocket_dev.Server.Sessions.{close}
use pocket_dev.Server.Guard.{can_activate}
use pocket_dev.Agent.Presence.{
  AgentConfig, Request, Presence, send, arrival, caller, served, serve, take_out,
}

-- What is taken out was there, and so was the rest.
pub take_out-All {ℓ} :
    (P : Request → Type ℓ) (n : ℕ) (rs : List Request) (r : Request) (rest : List Request)
    → All P rs
    → take_out n rs ≡ some (r, rest)
    → P r × All P rest
unfolding take_out
take_out-All P n [] r rest all h = absurd (cc h)
take_out-All P zero (q ∷ rs) r rest all h =
    let here : q ≡ r = cc h in
    let others : rs ≡ rest = cc h in (subst P here all.0, subst (All P) others all.1)
take_out-All P (suc n) (q ∷ rs) r rest all h = elim (Option-cases (take_out n rs)) [
  | inl e ↦ absurd (cc (rw e at h))
  | inr ((p, ps), e) ↦
      let same : some (p, q ∷ ps) ≡ some (r, rest) = rw e at h in
      let here : p ≡ r = cc same in
      let after : q ∷ ps ≡ rest = cc same in
      let (there, others) = take_out-All P n rs p ps all.1 e in
      (subst P here there, subst (All P) after (all.0, others))
]

-- The end of a session writes to no presence.
pub close-presences :
    (user_id session_id : String) (now : ℕ) (a : Api)
    → (close user_id session_id now a).1.db.presences ≡ a.db.presences
unfolding close
close-presences user_id session_id now a = ground arith

module _ (decode : String → Option Payload) (is_url : String → Bool) (config : AgentConfig) where
  pub send-All {ℓ} :
      (P : Request → Type ℓ) (r : Request) (m : Presence)
      → P r
      → All P m.on_the_way
      → All P (send decode is_url config r m).on_the_way
  send-All P r m here all = elim (Bool-cases (config.token == "")) [
    | inl e ↦ rw e all
    | inr e ↦ rw e (All-append P m.on_the_way (r ∷ []) all (here, tt))
  ]

  pub send-api : (r : Request) (m : Presence) → (send decode is_url config r m).api ≡ m.api
  send-api r m = ground arith

  pub send-timer : (r : Request) (m : Presence) → (send decode is_url config r m).timer ≡ m.timer
  send-timer r m = ground arith

  pub arrival-All {ℓ} :
      (P : Request → Type ℓ) (n now : ℕ) (m : Presence)
      → All P m.on_the_way
      → All P (arrival decode is_url config now (take_out n m.on_the_way) m).on_the_way
  arrival-All P n now m all = elim (Option-cases (take_out n m.on_the_way)) [
    | inl e ↦ rw e all
    | inr ((r, rest), e) ↦ rw e (take_out-All P n m.on_the_way r rest all e).1
  ]

  pub arrival-timer :
      (n now : ℕ) (m : Presence)
      → (arrival decode is_url config now (take_out n m.on_the_way) m).timer ≡ m.timer
  arrival-timer n now m = elim (Option-cases (take_out n m.on_the_way)) [
    | inl e ↦ rw e refl
    | inr (r, e) ↦ rw e refl
  ]

  pub serve-caller :
      (user_id : String) (r : Request) (now : ℕ) (a : Api)
      → caller (can_activate decode false (some config.token)) ≡ some user_id
      → serve decode is_url config.token now r a ≡ served decode is_url (some user_id) now r a
  unfolding serve
  serve-caller user_id r now a h = ap (λ c. served decode is_url c now r a) h
