-- ===== src/Sync/Upgrade/Query.antt =====
-- What the server makes of any query of a request for a sync socket (server/src/sync/sync.gateway.ts).
use mathlib.Core.List.{append-nil}
use pocket_dev.Base.{
  ℕ, String, Text, codes, text_eq, ◌≡◌, refl, ap, ◌∙◌, Bool, false, Option, none, some, List, [],
  ◌∷◌, ◌++◌, ◌==◌, arith, nat_eq, if◌then◌else◌, All, All-append, Bool-cases, inl, inr,
}
use pocket_dev.Sync.Upgrade.{
  is_unreserved, encode_component, decode_component, cut, fields, find_field, field_of, parse_url,
  with_query, path_of, pathname_of, segments, without_dots, slashed, Upgrade, accepted,
  unauthorized, not_found, verify, admitted, handle_upgrade, is_slash, is_dot, is_dots,
}
use pocket_dev.Sync.Upgrade.Opens.{
  IsByte, NoMark, encode_component-NoMark, decode-encode_component, fields_one, cut_none,
  NoMark-NoHash,
}

-- A query with these names and values, escaped.
abbrev pub field : Text × Text → Text
field (name, v) = encode_component name ++ b'=' ∷ encode_component v

abbrev pub query_of : List (Text × Text) → Text
query_of [] = []
query_of (p ∷ []) = field p
query_of (p ∷ q ∷ ps) = field p ++ b'&' ∷ query_of (q ∷ ps)

abbrev pub first_named : Text → List (Text × Text) → Option Text
first_named name [] = none
first_named name ((n, v) ∷ ps) = if text_eq n name then some v else first_named name ps

abbrev pub AreBytes : List (Text × Text) → Type 0
AreBytes ps = All (λ p. All IsByte p.0 × All IsByte p.1) ps

abbrev NoEqual : Text → Type 0
NoEqual s = All (λ c. nat_eq c b'=' ≡ false) s

encode_component-NoEqual : (s : Text) → All IsByte s → NoEqual (encode_component s)
unfolding encode_component
encode_component-NoEqual [] h = tt
encode_component-NoEqual (c ∷ s) h = elim (Bool-cases (is_unreserved c)) [
  | inl plain ↦ rw plain (ground (arith, plain), encode_component-NoEqual s h.1)
  | inr escaped ↦ rw escaped (refl, (ground arith, (ground arith, encode_component-NoEqual s h.1)))
]

cut-append : (a b : Text) → NoEqual a → cut b'=' (a ++ b'=' ∷ b) ≡ (a, b)
unfolding cut
cut-append [] b h = refl
cut-append (c ∷ a) b h = rw (cut-append a b h.1, h.0) refl

field-NoMark : (p : Text × Text) → All IsByte p.0 × All IsByte p.1 → NoMark (field p)
field-NoMark (name, v) h =
    All-append _ (encode_component name) (b'=' ∷ encode_component v)
      (encode_component-NoMark name h.0) ((refl, refl), encode_component-NoMark v h.1)

fields-first : (s : Text) → (f : Text) × (fs : List Text) × (fields s ≡ f ∷ fs)
unfolding fields
fields-first [] = ([], [], refl)
fields-first (c ∷ s) =
    let (f, fs, e) = fields-first s in
    elim (Bool-cases (nat_eq c b'&')) [
      | inl mark ↦ ([], f ∷ fs, rw (e, mark) refl)
      | inr on ↦ (c ∷ f, fs, rw (e, on) refl)
    ]

fields-append : (f s : Text) → NoMark f → fields (f ++ b'&' ∷ s) ≡ f ∷ fields s
unfolding fields
fields-append [] s h = let (f, fs, e) = fields-first s in rw e refl
fields-append (c ∷ f) s h = rw (fields-append f s h.1, fields, h.0.0) refl

field-find :
    (name : Text) (p : Text × Text) (later : Option Text)
    → All IsByte p.0 × All IsByte p.1
    → field_of name (cut b'=' (field p)) later ≡ (if text_eq p.0 name then some p.1 else later)
field-find name (n, v) later h =
    rw
      (
        cut-append (encode_component n) (encode_component v) (encode_component-NoEqual n h.0),
        decode-encode_component n h.0,
        decode-encode_component v h.1,
      )
      refl

-- The first value with the name is found.
find-query_of :
    (ps : List (Text × Text))
    → AreBytes ps
    → find_field (codes "token") (fields (query_of ps)) ≡ first_named (codes "token") ps
unfolding find_field
find-query_of [] h = unfold fields cut decode_component text_eq in refl
find-query_of (p ∷ []) h =
    rw (fields_one (field p) (field-NoMark p h.0)) (field-find (codes "token") p none h.0)
find-query_of (p ∷ q ∷ ps) h =
    rw (fields-append (field p) (query_of (q ∷ ps)) (field-NoMark p h.0)) (
      field-find (codes "token") p _ h.0
      ∙ ap (λ o. if text_eq p.0 (codes "token") then some p.1 else o) (find-query_of (q ∷ ps) h.1))

abbrev NoHash : Text → Type 0
NoHash s = All (λ c. nat_eq c b'#' ≡ false) s

query_of-NoHash : (ps : List (Text × Text)) → AreBytes ps → NoHash (query_of ps)
query_of-NoHash [] h = tt
query_of-NoHash (p ∷ []) h = NoMark-NoHash (field p) (field-NoMark p h.0)
query_of-NoHash (p ∷ q ∷ ps) h =
    All-append _ (field p) (b'&' ∷ query_of (q ∷ ps)) (NoMark-NoHash (field p) (field-NoMark p h.0))
      (refl, query_of-NoHash (q ∷ ps) h.1)

-- A unit that ends no path and no part of one.
pub record IsPathUnit (c : ℕ) : Type 0 where
  pub no_slash : is_slash c ≡ false
  pub no_query : nat_eq c b'?' ≡ false
  pub no_hash : nat_eq c b'#' ≡ false

path-NoHash : (path : Text) → All IsPathUnit path → NoHash path
path-NoHash [] h = tt
path-NoHash (c ∷ path) h = (h.0.no_hash, path-NoHash path h.1)

cut-path :
    (path query : Text) → All IsPathUnit path → cut b'?' (path ++ b'?' ∷ query) ≡ (path, query)
unfolding cut
cut-path [] query h = refl
cut-path (c ∷ path) query h = rw (cut-path path query h.1, h.0.no_query) refl

segments_one : (path : Text) → All IsPathUnit path → segments path ≡ path ∷ []
unfolding segments
segments_one [] h = refl
segments_one (c ∷ path) h = rw (segments_one path h.1, segments, h.0.no_slash) refl

pathname_one :
    (path : Text)
    → All IsPathUnit path
    → is_dot path ≡ false
    → is_dots path ≡ false
    → pathname_of path ≡ b'/' ∷ path
unfolding pathname_of without_dots slashed
pathname_one path h dot dots =
    rw (segments_one path h, without_dots, dots, dot) (ap (λ s. b'/' ∷ s) (append-nil path))

path_of_one :
    (valid_host : Text → Bool) (path : Text)
    → All IsPathUnit path
    → is_dot path ≡ false
    → is_dots path ≡ false
    → path_of valid_host (b'/' ∷ path) ≡ some (b'/' ∷ path)
unfolding path_of
path_of_one valid_host [] h dot dots = ap some (pathname_one [] h dot dots)
path_of_one valid_host (d ∷ path) h dot dots =
    rw h.0.no_slash (ap some (pathname_one (d ∷ path) h dot dots))

-- The two cuts of a target.
parse_url-cut :
    (valid_host : Text → Bool) (target path query : Text)
    → NoHash target
    → cut b'?' target ≡ (path, query)
    → parse_url valid_host target ≡ with_query valid_host (path_of valid_host path) query
unfolding parse_url
parse_url-cut valid_host target path query hash e = rw (cut_none target hash, e) refl

module _ (decode : Text → Option String) where
  -- What a token is worth.
  abbrev pub answer : Option Text → Upgrade
  answer (some (c ∷ token)) = elim (decode (c ∷ token)) [
    | none ↦ unauthorized
    | some user_id ↦ if user_id == "" then unauthorized else accepted user_id
  ]
  answer _ = unauthorized

  admitted-answer : (o : Option Text) → admitted decode (verify decode o) ≡ answer o
  admitted-answer none = refl
  admitted-answer (some []) = refl
  admitted-answer (some (c ∷ token)) = go (decode (c ∷ token))
    where
      go :
          (o : Option String)
          → admitted decode o ≡ elim o [
            | none ↦ unauthorized
            | some user_id ↦ if user_id == "" then unauthorized else accepted user_id
          ]
      go none = refl
      go (some user_id) = refl

  pub request_answered :
      (valid_host : Text → Bool) (path : Text) (ps : List (Text × Text))
      → All IsPathUnit path
      → is_dot path ≡ false
      → is_dots path ≡ false
      → AreBytes ps
      → handle_upgrade decode valid_host (b'/' ∷ path ++ b'?' ∷ query_of ps) ≡ (
          if text_eq path (codes "sync")
          then answer (first_named (codes "token") ps)
          else not_found)
  unfolding handle_upgrade text_eq
  request_answered valid_host path ps plain dot dots bytes =
      let whole = b'/' ∷ path ++ b'?' ∷ query_of ps in
      let hash : NoHash whole = (
        refl,
        All-append _ path (b'?' ∷ query_of ps) (path-NoHash path plain)
            (refl, query_of-NoHash ps bytes),
      ) in
      let cuts : cut b'?' whole ≡ (b'/' ∷ path, query_of ps) =
        unfold cut in rw (cut-path path (query_of ps) plain) refl in
      rw
        (
          parse_url-cut valid_host whole (b'/' ∷ path) (query_of ps) hash cuts,
          path_of_one valid_host path plain dot dots,
          find-query_of ps bytes,
          admitted-answer (first_named (codes "token") ps),
        )
        refl
