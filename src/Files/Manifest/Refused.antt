-- ===== src/Files/Manifest/Refused.antt =====
-- A file that the agent lists and the store refuses (services/cli-agent/src/manifest.ts and
-- server/src/files/file-store.service.ts).
use pocket_dev.Base.{
  ℕ, String, Text, ◌≡◌, refl, ◌∙◌, false, some, List, [], ◌∷◌, err, bad_request, ap, codes, eq_iff,
  Bool-cases, inl, inr,
}
use pocket_dev.Base.Dict.{get}
use pocket_dev.Files.Disk.{Bytes, Node, Entries, file, dir, find_entry, node_at}
use pocket_dev.Files.Paths.{IsPlain, resolve_plain, relative_below}
use pocket_dev.Files.SafePath.{project_dir, safe_resolve, to_posix, drop_slashes}
use pocket_dev.Files.Store.{write_bytes}
use pocket_dev.Files.Keys.{key, IsName, split-plain}
use pocket_dev.Files.Manifest.{entry_for, build_manifest}
use pocket_dev.Files.Manifest.Complete.{IsTidy, is_large, synced_from, is_proto, get-build_manifest}
use pocket_dev.Files.Tree.{join}
use pocket_dev.Base.Names.{codes-string_of}

abbrev pub dotted : Text → Text
dotted rest = b'.' ∷ b'.' ∷ rest

dotted-err :
    (above : List Text) (rest : Text)
    → IsName (dotted rest)
    → IsPlain (dotted rest)
    → to_posix (dotted rest) ≡ dotted rest
    → safe_resolve above (dotted rest) ≡ err (bad_request "Illegal path")
unfolding safe_resolve drop_slashes
dotted-err above rest name plain posix =
    rw
      (
        posix,
        split-plain (dotted rest) name.no_slash,
        resolve_plain above (dotted rest ∷ []) (plain, tt),
        relative_below above (dotted rest ∷ []),
      )
      refl

dotted-not_proto : (rest : Text) → IsName (dotted rest) → is_proto (key (dotted rest ∷ [])) ≡ false
unfolding join
dotted-not_proto rest name = elim (Bool-cases (is_proto (key (dotted rest ∷ [])))) [
  | inr other ↦ other
  | inl one ↦
      let texts = ap codes ((eq_iff (key (dotted rest ∷ [])) "__proto__").0 one) in
      absurd (cc (texts, codes-string_of (dotted rest) name.chars))
]

-- A file at the top of the project whose name begins with two dots, as `..env`, is listed by the agent
-- but never stored: the server takes it for a path that leads out of the project.
pub dotted_refused :
    (hash : Bytes → String) (mtime : String → ℕ) (home root : List Text) (disk stored : Node)
    (es : Entries) (rest u p : Text) (b : Bytes)
    → node_at home (some disk) ≡ some (dir es)
    → IsTidy es
    → IsName (dotted rest)
    → IsPlain (dotted rest)
    → to_posix (dotted rest) ≡ dotted rest
    → find_entry (dotted rest) es ≡ some (file b)
    → is_large b ≡ false
    → (get (key (dotted rest ∷ [])) (build_manifest hash mtime home disk)
        ≡ some (entry_for hash mtime (key (dotted rest ∷ [])) b))
      × (write_bytes root u p (dotted rest) b stored ≡ (err (bad_request "Illegal path"), stored))
unfolding write_bytes synced_from
dotted_refused hash mtime home root disk stored es rest u p b there tidy name plain posix found
      small =
    (
      get-build_manifest hash mtime (dotted rest) [] (name, tt) home disk es there tidy
          ∙ rw (dotted-not_proto rest name, found, small) refl,
      rw (dotted-err (project_dir root u p) rest name plain posix) refl,
    )
