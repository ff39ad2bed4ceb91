-- ===== src/Files/Manifest/Complete.antt =====
-- Which files the agent's manifest lists (services/cli-agent/src/manifest.ts).
use pocket_dev.Base.{
  ℕ, String, Text, text_eq, text_eq_iff, ◌≡◌, refl, ◌∙◌, Bool, true, false, Option, none, some,
  List, [], ◌∷◌, ◌++◌, ◌==◌, arith, eq_iff, length, ltb, if◌then◌else◌, All, All-append, Bool-cases,
  inl, inr,
}
use pocket_dev.Base.Dict.{get, assign, get-assign}
use pocket_dev.Files.Disk.{Bytes, Node, Entries, file, dir, empty, entry, find_entry, node_at}
use pocket_dev.Files.Tree.{is_ignored}
use pocket_dev.Files.Keys.{key, key_eq, IsName}
use pocket_dev.Files.Disk.Contents.{same_path}
use pocket_dev.Sync.Manifest.{FileManifestEntry, FileManifest}
use pocket_dev.Files.Manifest.{max_file_bytes, entry_for, walk, build_manifest}

abbrev pub is_large : Bytes → Bool
is_large b = ltb max_file_bytes (length b)

-- The content of the file that a path leads to, from the entry that its first name has: if there is one,
-- no ignored directory is on the way, and it is not too large.
abbrev pub synced_file : Option Node → Option Bytes
synced_file (some (file b)) = if is_large b then none else some b
synced_file _ = none

unfoldable pub synced_from : Text → List Text → Option Node → Option Bytes
unfolding is_ignored
synced_from s [] o = synced_file o
synced_from s (t ∷ path) (some (dir sub)) =
    let rest = synced_from t path (find_entry t sub) in if is_ignored s then none else rest
synced_from s (t ∷ path) _ = none

-- The content of a file that is to be listed, by its path from a directory.
abbrev pub listed : List Text → Entries → Option Bytes
listed [] es = none
listed (s ∷ path) es = synced_from s path (find_entry s es)

-- The key that makes no entry in a plain object.
abbrev pub is_proto : String → Bool
is_proto k = k == "__proto__"

-- The content of a file that is to be synced, by its path from the project: the file `__proto__` of the
-- project's directory is none.
abbrev pub synced : List Text → Entries → Option Bytes
synced path es = if is_proto (key path) then none else listed path es

pub synced-listed :
    (path : List Text) (es : Entries) (b : Bytes)
    → synced path es ≡ some b
    → listed path es ≡ some b
synced-listed path es b h = elim (Bool-cases (is_proto (key path))) [
  | inl e ↦ absurd (cc (rw e at h))
  | inr e ↦ rw e at h
]

-- Every directory has names in it, and none twice.
abbrev pub IsTidy : Entries → Type 0
IsTidy empty = Unit
IsTidy (entry s (file b) es) = IsName s × (find_entry s es ≡ none) × IsTidy es
IsTidy (entry s (dir sub) es) = IsName s × (find_entry s es ≡ none) × IsTidy sub × IsTidy es

-- The way from a directory to a path below it.
abbrev rest_of : Text → Option (List Text) → Option (List Text)
rest_of s (some (t ∷ q)) = if text_eq s t then some q else none
rest_of s _ = none

unfoldable strip : List Text → List Text → Option (List Text)
strip [] a = some a
strip (s ∷ rel) [] = none
strip (s ∷ rel) (t ∷ a) = let rest = strip rel a in if text_eq s t then rest else none

strip-snoc :
    (rel : List Text) (s : Text) (a : List Text) → strip (rel ++ s ∷ []) a ≡ rest_of s (strip rel a)
unfolding strip
strip-snoc [] s [] = refl
strip-snoc [] s (t ∷ a) = refl
strip-snoc (r ∷ rel) s [] = refl
strip-snoc (r ∷ rel) s (t ∷ a) = ground (arith, strip-snoc rel s a)

abbrev is_just : Text → Option (List Text) → Bool
is_just s (some (t ∷ [])) = text_eq s t
is_just s _ = false

same_path-snoc :
    (rel : List Text) (s : Text) (a : List Text)
    → same_path (rel ++ s ∷ []) a ≡ is_just s (strip rel a)
unfolding same_path strip
same_path-snoc [] s [] = refl
same_path-snoc [] s (t ∷ []) = ground arith
same_path-snoc [] s (t ∷ u ∷ a) = ground arith
same_path-snoc (r ∷ rel) s [] = refl
same_path-snoc (r ∷ rel) s (t ∷ a) = ground (arith, same_path-snoc rel s a)

abbrev synced_at : Option (List Text) → Entries → Option Bytes
synced_at none es = none
synced_at (some q) es = listed q es

module _ (hash : Bytes → String) (mtime : String → ℕ) where
  abbrev pub entry_or : String → Option Bytes → Option FileManifestEntry → Option FileManifestEntry
  entry_or k (some b) old = some (entry_for hash mtime k b)
  entry_or k none old = old

  key_snoc :
      (rel : List Text) (s t : Text) (q : List Text)
      → All IsName rel
      → IsName s
      → All IsName (t ∷ q)
      → (key (rel ++ s ∷ []) == key (t ∷ q)) ≡ is_just s (strip rel (t ∷ q))
  key_snoc [] s t q names name path = key_eq s t [] q (name, tt) path ∙ same_path-snoc [] s (t ∷ q)
  key_snoc (r ∷ rel) s t q names name path =
      key_eq r t (rel ++ s ∷ []) q (names.0, All-append IsName rel (s ∷ []) names.1 (name, tt)) path
      ∙ same_path-snoc (r ∷ rel) s (t ∷ q)

  -- One file more, seen at a path.
  file_step :
      (s : Text) (b : Bytes) (es : Entries) (o : Option (List Text))
      (old : Option FileManifestEntry) (k : String)
      → find_entry s es ≡ none
      → entry_or k
          (synced_at o es)
          (if is_large b then old else if is_just s o then some (entry_for hash mtime k b) else old)
        ≡ entry_or k (synced_at o (entry s (file b) es)) old
  unfolding synced_from find_entry
  file_step s b es none old k fresh = ground arith
  file_step s b es (some []) old k fresh = ground arith
  file_step s b es (some (t ∷ [])) old k fresh = ground (arith, text_eq_iff s t)
  file_step s b es (some (t ∷ u ∷ q)) old k fresh = ground (arith, text_eq_iff s t)

  dir_step :
      (s : Text) (sub es : Entries) (o : Option (List Text)) (old : Option FileManifestEntry)
      (k : String)
      → find_entry s es ≡ none
      → entry_or k
          (synced_at o es)
          (if is_ignored s then old else entry_or k (synced_at (rest_of s o) sub) old)
        ≡ entry_or k (synced_at o (entry s (dir sub) es)) old
  unfolding synced_from find_entry
  dir_step s sub es none old k fresh = ground arith
  dir_step s sub es (some []) old k fresh = ground arith
  dir_step s sub es (some (t ∷ [])) old k fresh = ground (arith, text_eq_iff s t)
  dir_step s sub es (some (t ∷ u ∷ q)) old k fresh = ground (arith, text_eq_iff s t)

  -- Where the file is not too large it is put, in the way that its key says, which is not `__proto__`.
  put_if :
      (path k : String) (b : Bytes) (out : FileManifest)
      → is_proto k ≡ false
      → get k (if is_large b then out else assign path (entry_for hash mtime path b) out) ≡ (
          if is_large b
          then get k out
          else if path == k
          then some (entry_for hash mtime k b)
          else get k out)
  put_if path k b out own = elim (Bool-cases (is_large b)) [
    | inl large ↦ rw large refl
    | inr small ↦ rw small (
        get-assign path k (entry_for hash mtime path b) out
        ∙ ground (arith, eq_iff path k, eq_iff path "__proto__", eq_iff k "__proto__", own))
  ]

  same_both : (c : Bool) (o : Option FileManifestEntry) → (if c then o else o) ≡ o
  same_both true o = refl
  same_both false o = refl

  get_if :
      (c : Bool) (k : String) (m n : FileManifest)
      → get k (if c then m else n) ≡ (if c then get k m else get k n)
  get_if true k m n = refl
  get_if false k m n = refl

  -- Nothing is ever put at `__proto__`.
  get-assign_proto :
      (path : String) (e : FileManifestEntry) (out : FileManifest)
      → get "__proto__" (assign path e out) ≡ get "__proto__" out
  get-assign_proto path e out =
      get-assign path "__proto__" e out
      ∙ elim (Bool-cases (is_proto path)) [ inl p ↦ rw p refl | inr p ↦ rw p refl ]

  get-walk_proto :
      (rel : List Text) (es : Entries) (out : FileManifest)
      → get "__proto__" (walk hash mtime rel es out) ≡ get "__proto__" out
  unfolding walk
  get-walk_proto rel empty out = refl
  get-walk_proto rel (entry s (file b) es) out =
      get-walk_proto rel es _
      ∙ get_if (is_large b) "__proto__" out _
      ∙ rw (get-assign_proto (key (rel ++ s ∷ [])) (entry_for hash mtime _ b) out)
          (same_both (is_large b) (get "__proto__" out))
  get-walk_proto rel (entry s (dir sub) es) out =
      get-walk_proto rel es _
      ∙ get_if (is_ignored s) "__proto__" out _
      ∙ rw (get-walk_proto (rel ++ s ∷ []) sub out) (same_both (is_ignored s) (get "__proto__" out))

  nothing_listed :
      (k : String) (o : Option (List Text)) (old : Option FileManifestEntry)
      → old ≡ entry_or k (synced_at o empty) old
  unfolding synced_from find_entry
  nothing_listed k none old = refl
  nothing_listed k (some []) old = refl
  nothing_listed k (some (s ∷ [])) old = refl
  nothing_listed k (some (s ∷ u ∷ p)) old = refl

  module _ (t : Text) (q : List Text) (path : All IsName (t ∷ q)) where
    abbrev k : String
    k = key (t ∷ q)

    get-walk :
        (rel : List Text) (es : Entries) (out : FileManifest)
        → is_proto k ≡ false
        → All IsName rel
        → IsTidy es
        → get k (walk hash mtime rel es out)
          ≡ entry_or k (synced_at (strip rel (t ∷ q)) es) (get k out)
    unfolding walk
    get-walk rel empty out own names tidy = nothing_listed k (strip rel (t ∷ q)) (get k out)
    get-walk rel (entry s (file b) es) out own names tidy =
        let p = key (rel ++ s ∷ []) in
        get-walk rel es (if is_large b then out else assign p (entry_for hash mtime p b) out) own
          names tidy.2
        ∙ rw (put_if p k b out own, key_snoc rel s t q names tidy.0 path)
            (file_step s b es (strip rel (t ∷ q)) (get k out) k tidy.1)
    get-walk rel (entry s (dir sub) es) out own names tidy =
        let below = walk hash mtime (rel ++ s ∷ []) sub out in
        get-walk rel es (if is_ignored s then out else below) own names tidy.3
        ∙ rw
            (
              get_if (is_ignored s) k out below,
              get-walk (rel ++ s ∷ []) sub out own
                  (All-append IsName rel (s ∷ []) names (tidy.0, tt)) tidy.2,
              strip-snoc rel s (t ∷ q),
            )
            (dir_step s sub es (strip rel (t ∷ q)) (get k out) k tidy.1)

    pub get-build_manifest :
        (root : List Text) (disk : Node) (es : Entries)
        → node_at root (some disk) ≡ some (dir es)
        → IsTidy es
        → get k (build_manifest hash mtime root disk) ≡ entry_or k (synced (t ∷ q) es) none
    unfolding build_manifest get strip
    get-build_manifest root disk es there tidy = elim (Bool-cases (is_proto k)) [
      | inl proto ↦
          let none_there = get-walk_proto [] es [] in
          rw (there, proto) (rw ((eq_iff k "__proto__").0 proto) none_there)
      | inr own ↦ rw (there, own) (get-walk [] es [] own tt tidy)
    ]
