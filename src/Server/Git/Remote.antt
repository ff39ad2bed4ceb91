-- ===== src/Server/Git/Remote.antt =====
-- The remote of a project and the absence of a repository (server/src/git/git.service.ts).
use pocket_dev.Base.{
  Text, codes, text_eq, ◌≡◌, refl, sym, Bool, true, false, Option, some, List, any, is_some,
  if◌then◌else◌, Result, ok, err,
}
use pocket_dev.Server.Execute.{Execute, return, throw, continue, ◌>>=◌}
use pocket_dev.Server.SimpleGit.{Repository, SimpleGit}
use pocket_dev.Server.Git
use pocket_dev.Server.Git.{
  wrap, rethrown, rejected, repository, no_repository, open_repository, require_repo, opened,
}

abbrev origin : Text
origin = codes "origin"

-- What git does to the remotes of a repository: where it answers, the names are those of the remotes,
-- a new remote and a changed one have the URL that they were given, and no other remote changes.
pub record HasRemotes {R : Type 0} (git : SimpleGit R) (g : Repository)
    (url_of : R → Text → Option Text) : Type 0 where
  pub names :
      (r s : R) (remotes : List Text) (name : Text)
      → git.get_remotes g r ≡ (ok remotes, s)
      → (any (λ n. text_eq n name) remotes ≡ is_some (url_of s name)) × (url_of s ≡ url_of r)
  pub kept-make_dirs : (r s : R) → git.make_dirs g.dir r ≡ (ok tt, s) → url_of s ≡ url_of r
  pub kept-check : (r s : R) (b : Bool) → git.check_is_repo g r ≡ (ok b, s) → url_of s ≡ url_of r
  pub url-set_url :
      (r s : R) (name url other : Text)
      → is_some (url_of r name) ≡ true
      → git.set_url g name url r ≡ (ok tt, s)
      → url_of s other ≡ (if text_eq name other then some url else url_of r other)
  pub url-add_remote :
      (r s : R) (name url other : Text)
      → is_some (url_of r name) ≡ false
      → git.add_remote g name url r ≡ (ok tt, s)
      → url_of s other ≡ (if text_eq name other then some url else url_of r other)

module _ {R A : Type 0} where
  rethrown-ok : (x : Result A × R) (a : A) (s : R) → rethrown x ≡ (ok a, s) → x ≡ (ok a, s)
  rethrown-ok (ok b, t) a s h = h
  rethrown-ok (err e, t) a s h = absurd (cc h)

module _ {R A B : Type 0} where
  -- A chain that succeeds has a first part that succeeds.
  >>=-ok :
      (m : Execute R A) (f : A → Execute R B) (r s : R) (b : B)
      → (m >>= f) r ≡ (ok b, s)
      → (a : A) × (t : R) × (m r ≡ (ok a, t)) × (f a t ≡ (ok b, s))
  >>=-ok m f r s b h = continued-ok (m r) refl h
    where
      continued-ok :
          (x : Result A × R)
          → m r ≡ x
          → continue x.0 f x.1 ≡ (ok b, s)
          → (a : A) × (t : R) × (m r ≡ (ok a, t)) × (f a t ≡ (ok b, s))
      continued-ok (ok a, t) e k = (a, t, e, k)
      continued-ok (err x, t) e k = absurd (cc k)

module _ {R : Type 0} (git : SimpleGit R) (root : List Text) (u p : Text) where
  abbrev own : Repository
  own = repository root u p

  -- Without a repository nothing runs but the making of the directory and the test, and the call fails.
  pub opened-none :
      {B : Type 0} (f : Repository → Execute R B) (r s t : R)
      → git.make_dirs own.dir r ≡ (ok tt, s)
      → git.check_is_repo own s ≡ (ok false, t)
      → (opened git root u p >>= f) r ≡ (err no_repository, t)
  unfolding open_repository require_repo
  opened-none f r s t made none_there = rw (made, none_there) refl

  module _ (url_of : R → Text → Option Text) (laws : HasRemotes git own url_of) where
    require_repo-kept : (r s : R) → require_repo git root own r ≡ (ok tt, s) → url_of s ≡ url_of r
    unfolding require_repo
    require_repo-kept r s h =
        let (b, t, checked, rest) = >>=-ok (git.check_is_repo own) _ r s tt h in
        branch b t checked rest
      where
        branch :
            (b : Bool) (t : R)
            → git.check_is_repo own r ≡ (ok b, t)
            → (if b then return {S = R} (tt {0}) else throw no_repository) t ≡ (ok tt, s)
            → url_of s ≡ url_of r
        branch true t checked rest = cc (laws.kept-check r t true checked, rest)
        branch false t checked rest = absurd (cc rest)

    -- A repository that was opened is the project's, and its remotes are as they were.
    opened-kept :
        (r s : R) (g : Repository)
        → opened git root u p r ≡ (ok g, s)
        → (g ≡ own) × (url_of s ≡ url_of r)
    unfolding open_repository
    opened-kept r s g h =
        let (g', t, first, second) = >>=-ok (open_repository git root u p) _ r s g h in
        let (x, made, dirs, given) = >>=-ok (git.make_dirs own.dir) _ r t g' first in
        let (y, checked, there, last) = >>=-ok (require_repo git root g') _ t s g second in
        let same : g' ≡ own = cc given in
        let first_kept = laws.kept-make_dirs r made dirs in
        let second_kept = require_repo-kept t checked (rw same at there) in
        (cc (last, same), cc (first_kept, second_kept, last, given))

    abbrev change : Text → Bool → Execute R Unit
    change url b =
        if b then wrap (git.set_url own origin url) else wrap (git.add_remote own origin url)

    origin_set :
        (b : Bool) (t s : R) (url other : Text)
        → is_some (url_of t origin) ≡ b
        → change url b t ≡ (ok tt, s)
        → url_of s other ≡ (if text_eq origin other then some url else url_of t other)
    origin_set true t s url other e h =
        laws.url-set_url t s origin url other e (rethrown-ok _ tt s h)
    origin_set false t s url other e h =
        laws.url-add_remote t s origin url other e (rethrown-ok _ tt s h)

    -- Setting the remote gives `origin` this URL, whether it was there before or not, and leaves the other
    -- remotes as they were.
    pub set_remote_lem :
        (url answer other : Text) (r s : R)
        → Git.set_remote git root u p url r ≡ (ok answer, s)
        → url_of s other ≡ (if text_eq origin other then some url else url_of r other)
    unfolding Git.set_remote
    set_remote_lem url answer other r s h =
        let (g, t, first, rest) = >>=-ok (opened git root u p) _ r s answer h in
        let (same, kept) = opened-kept r t g first in
        let (remotes, t', got, rest') =
          >>=-ok (git.get_remotes own) _ t s answer (rw same at rest) in
        let (named, kept') = laws.names t t' remotes origin got in
        let has = any (λ n. text_eq n origin) remotes in
        let (x, t'', changed, last) = >>=-ok (change url has) (λ _. return url) t' s answer rest' in
        let set = origin_set has t' t'' url other (sym named) changed in cc (set, last, kept, kept')
