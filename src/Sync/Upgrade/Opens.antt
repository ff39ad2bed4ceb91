-- ===== src/Sync/Upgrade/Opens.antt =====
-- Who gets a sync socket (server/src/sync/sync.gateway.ts), and that the agent's address is read as it was
-- meant (services/cli-agent/src/sync-client.ts).
use pocket_dev.Base.{
  ℕ, ◌/◌, ◌%◌, ◌<◌, String, Text, codes, text_eq, ◌≡◌, ◌≢◌, refl, ap, ◌∙◌, true, false, Option,
  some, [], ◌∷◌, ◌++◌, eq_iff, arith, nat_eq, All, Bool-cases, inl, inr, Bool,
}
use pocket_dev.Sync.Upgrade.{
  is_unreserved, hex_digit, hex_value, encode_component, decode_component, sync_target, cut, fields,
  find_field, parse_url, Target, accepted, verify, handle_upgrade, path_of, pathname_of, segments,
  without_dots, slashed,
}

abbrev pub IsByte : ℕ → Type 0
IsByte c = c < 256

unreserved_plain :
    (c : ℕ)
    → is_unreserved c ≡ true
    → (nat_eq c b'%' ≡ false)
      × (nat_eq c b'+' ≡ false)
      × ((nat_eq c b'&' ≡ false) × (nat_eq c b'#' ≡ false))
unreserved_plain c h = ground arith

decode_plain :
    (c : ℕ) (s : Text)
    → nat_eq c b'%' ≡ false
    → nat_eq c b'+' ≡ false
    → decode_component (c ∷ s) ≡ c ∷ decode_component s
unfolding decode_component
decode_plain c [] a b = rw b refl
decode_plain c (h ∷ []) a b = rw b refl
decode_plain c (h ∷ l ∷ s) a b = rw (a, b) refl

hex_value-hex_digit : (n : ℕ) → n < 16 → hex_value (hex_digit n) ≡ some n
hex_value-hex_digit n h = ground arith

decode_escape :
    (c : ℕ) (s : Text)
    → IsByte c
    → decode_component (b'%' ∷ hex_digit (c / 16) ∷ hex_digit (c % 16) ∷ s) ≡ c ∷ decode_component s
unfolding decode_component
decode_escape c s h =
    rw (hex_value-hex_digit (c / 16) (omega arith), hex_value-hex_digit (c % 16) (omega arith))
      (ap (λ b. b ∷ decode_component s) (omega arith))

-- What `encodeURIComponent` makes of bytes is read back.
pub decode-encode_component : (s : Text) → All IsByte s → decode_component (encode_component s) ≡ s
unfolding encode_component
decode-encode_component [] h = unfold decode_component in refl
decode-encode_component (c ∷ s) h = elim (Bool-cases (is_unreserved c)) [
  | inl plain ↦
      let (a, b, _) = unreserved_plain c plain in
      rw plain
        (decode_plain c (encode_component s) a b ∙ ap (λ r. c ∷ r) (decode-encode_component s h.1))
  | inr escaped ↦
      rw escaped
        (decode_escape c (encode_component s) h.0 ∙ ap (λ r. c ∷ r) (decode-encode_component s h.1))
]

-- No unit that ends a field or the query.
abbrev pub NoMark : Text → Type 0
NoMark s = All (λ c. (nat_eq c b'&' ≡ false) × (nat_eq c b'#' ≡ false)) s

hex_digit-NoMark :
    (n : ℕ) → n < 16 → (nat_eq (hex_digit n) b'&' ≡ false) × (nat_eq (hex_digit n) b'#' ≡ false)
hex_digit-NoMark n h = (ground arith, ground arith)

pub encode_component-NoMark : (s : Text) → All IsByte s → NoMark (encode_component s)
unfolding encode_component
encode_component-NoMark [] h = tt
encode_component-NoMark (c ∷ s) h = elim (Bool-cases (is_unreserved c)) [
  | inl plain ↦ rw plain ((unreserved_plain c plain).2, encode_component-NoMark s h.1)
  | inr escaped ↦ rw escaped (
    (refl, refl),
    (
      hex_digit-NoMark (c / 16) (omega arith),
      (hex_digit-NoMark (c % 16) (omega arith), encode_component-NoMark s h.1),
    ),
  )
]

pub fields_one : (s : Text) → NoMark s → fields s ≡ s ∷ []
unfolding fields
fields_one [] h = refl
fields_one (c ∷ s) h = rw (fields_one s h.1, fields, h.0.0) refl

pub NoMark-NoHash : (s : Text) → NoMark s → All (λ c. nat_eq c b'#' ≡ false) s
NoMark-NoHash [] h = tt
NoMark-NoHash (c ∷ s) h = (h.0.1, NoMark-NoHash s h.1)

pub cut_none : (s : Text) → All (λ c. nat_eq c b'#' ≡ false) s → (cut b'#' s).0 ≡ s
unfolding cut
cut_none [] h = refl
cut_none (c ∷ s) h = rw h.0 (ap (λ r. c ∷ r) (cut_none s h.1))

abbrev pub sync_of : Option Text → Target
sync_of token = record { pathname = codes "/sync"; token = token }

token_read :
    (valid_host : Text → Bool) (token : Text)
    → All IsByte token
    → parse_url valid_host (sync_target token) ≡ some (sync_of (some token))
unfolding parse_url sync_target cut find_field decode_component text_eq path_of pathname_of segments
    without_dots slashed
token_read valid_host token h =
    let value = encode_component token in
    let plain = encode_component-NoMark token h in
    let marks : NoMark (codes "token=" ++ value) = (
      (refl, refl),
      ((refl, refl), ((refl, refl), ((refl, refl), ((refl, refl), ((refl, refl), plain))))),
    ) in
    rw (cut_none value (NoMark-NoHash value plain)) (
      ap (λ fs. some (sync_of (find_field (codes "token") fs)))
        (fields_one (codes "token=" ++ value) marks)
      ∙ ap (λ v. some (sync_of (some v))) (decode-encode_component token h))

module _ (decode : Text → Option String) where
  verified : (t : Text) → t ≢ [] → verify decode (some t) ≡ decode t
  verified [] filled = absurd (filled refl)
  verified (c ∷ t) filled = refl

  -- The agent's address opens the socket of the token's user, whatever bytes the token has.
  pub sync_target_opens :
      (valid_host : Text → Bool) (token : Text) (u : String)
      → All IsByte token
      → token ≢ []
      → decode token ≡ some u
      → u ≢ ""
      → handle_upgrade decode valid_host (sync_target token) ≡ accepted u
  unfolding handle_upgrade text_eq
  sync_target_opens valid_host token u bytes filled d named =
      rw (token_read valid_host token bytes, verified token filled, d) (ground (arith, eq_iff u ""))
