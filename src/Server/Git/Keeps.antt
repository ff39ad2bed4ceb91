-- ===== src/Server/Git/Keeps.antt =====
-- What holds before each git command and is kept by each in the project's own directory holds after every
-- method of the git service (server/src/git/git.service.ts).
use pocket_dev.Base.{
  ℕ, Text, ◌≡◌, refl, Bool, true, false, List, [], ◌∷◌, codes, any, text_eq, if◌then◌else◌, Option,
  Result, ok, err, Exception,
}
use pocket_dev.Server.Execute.{Execute, return, throw, continue, ◌>>=◌}
use pocket_dev.Server.SimpleGit.{Repository, SimpleGit}
use pocket_dev.Server.Git
use pocket_dev.Server.Git.{
  wrap, forgive, forgiven, rethrown, repository, no_repository, open_repository, require_repo,
  opened, configured, diff_args,
}

module _ {R : Type 0} (P : R → Type 0) where
  -- Whatever the call returns or throws, the property is kept.
  pub record Keeps {A : Type 0} (m : Execute R A) : Type 0 where
    pub keeps : (r : R) → P r → P (m r).1

  continued-Keeps :
      {A B : Type 0} (x : Result A × R) (f : A → Execute R B)
      → P x.1
      → ((a : A) → Keeps (f a))
      → P (continue x.0 f x.1).1
  continued-Keeps (ok a, s) f k hf = (hf a).keeps s k
  continued-Keeps (err e, s) f k hf = k

  pub >>=-Keeps :
      {A B : Type 0} (m : Execute R A) (f : A → Execute R B)
      → Keeps m
      → ((a : A) → Keeps (f a))
      → Keeps (m >>= f)
  >>=-Keeps m f hm hf = record { keeps = λ r h. continued-Keeps (m r) f (hm.keeps r h) hf }

  -- The property is kept, and the call gives this value if it gives one.
  abbrev OnlyGives : {A : Type 0} → A → Result A → Type 0
  OnlyGives a (ok b) = b ≡ a
  OnlyGives a (err e) = Unit

  record KeepsAs {A : Type 0} (a : A) (m : Execute R A) : Type 0 where
    keeps : (r : R) → P r → P (m r).1 × OnlyGives a (m r).0

  return-KeepsAs : {A : Type 0} (a : A) → KeepsAs a (return a)
  return-KeepsAs a = record { keeps = λ r h. (h, refl) }

  continued-KeepsAs :
      {A B : Type 0} (b : B) (x : Result A × R) (f : A → Execute R B)
      → P x.1
      → ((a : A) → KeepsAs b (f a))
      → P (continue x.0 f x.1).1 × OnlyGives b (continue x.0 f x.1).0
  continued-KeepsAs b (ok a, s) f k hf = (hf a).keeps s k
  continued-KeepsAs b (err e, s) f k hf = (k, tt)

  >>=-KeepsAs :
      {A B : Type 0} (b : B) (m : Execute R A) (f : A → Execute R B)
      → Keeps m
      → ((a : A) → KeepsAs b (f a))
      → KeepsAs b (m >>= f)
  >>=-KeepsAs b m f hm hf = record { keeps = λ r h. continued-KeepsAs b (m r) f (hm.keeps r h) hf }

  as-continued :
      {A B : Type 0} (a : A) (x : Result A × R) (f : A → Execute R B)
      → P x.1 × OnlyGives a x.0
      → Keeps (f a)
      → P (continue x.0 f x.1).1
  as-continued a (ok b, s) f k hf = rw k.1 (hf.keeps s k.0)
  as-continued a (err e, s) f k hf = k.0

  as->>=-Keeps :
      {A B : Type 0} (a : A) (m : Execute R A) (f : A → Execute R B)
      → KeepsAs a m
      → Keeps (f a)
      → Keeps (m >>= f)
  as->>=-Keeps a m f hm hf = record { keeps = λ r h. as-continued a (m r) f (hm.keeps r h) hf }

  as-continued-as :
      {A B : Type 0} (a : A) (b : B) (x : Result A × R) (f : A → Execute R B)
      → P x.1 × OnlyGives a x.0
      → KeepsAs b (f a)
      → P (continue x.0 f x.1).1 × OnlyGives b (continue x.0 f x.1).0
  as-continued-as a b (ok c, s) f k hf = rw k.1 (hf.keeps s k.0)
  as-continued-as a b (err e, s) f k hf = (k.0, tt)

  as->>=-KeepsAs :
      {A B : Type 0} (a : A) (b : B) (m : Execute R A) (f : A → Execute R B)
      → KeepsAs a m
      → KeepsAs b (f a)
      → KeepsAs b (m >>= f)
  as->>=-KeepsAs a b m f hm hf = record {
    keeps = λ r h. as-continued-as a b (m r) f (hm.keeps r h) hf;
  }

  pub return-Keeps : {A : Type 0} (a : A) → Keeps (return {S = R} a)
  return-Keeps a = record { keeps = λ r h. h }

  pub throw-Keeps : {A : Type 0} (e : Exception) → Keeps (throw {S = R} {A = A} e)
  throw-Keeps e = record { keeps = λ r h. h }

  rethrown-kept : {A : Type 0} (x : Result A × R) → P x.1 → P (rethrown x).1
  rethrown-kept (ok a, s) k = k
  rethrown-kept (err e, s) k = k

  wrap-Keeps : {A : Type 0} (m : Execute R A) → Keeps m → Keeps (wrap m)
  wrap-Keeps m hm = record { keeps = λ r h. rethrown-kept (m r) (hm.keeps r h) }

  forgive-Keeps : (m : Execute R Unit) → Keeps m → Keeps (forgive m)
  forgive-Keeps m hm = record { keeps = λ r h. hm.keeps r h }

  if-Keeps :
      {A : Type 0} (b : Bool) (m n : Execute R A) → Keeps m → Keeps n → Keeps (if b then m else n)
  if-Keeps true m n hm hn = hm
  if-Keeps false m n hm hn = hn

  -- Every git command of the service keeps the property at a repository.
  pub record KeptAt (git : SimpleGit R) (g : Repository) : Type 0 where
    pub make_dirs : Keeps (git.make_dirs g.dir)
    pub check_is_repo : Keeps (git.check_is_repo g)
    pub init : (args : List Text) → Keeps (git.init g args)
    pub add_config : (key value : Text) → Keeps (git.add_config g key value)
    pub status : Keeps (git.status g)
    pub get_remotes : Keeps (git.get_remotes g)
    pub set_url : (name url : Text) → Keeps (git.set_url g name url)
    pub add_remote : (name url : Text) → Keeps (git.add_remote g name url)
    pub add : (path : Text) → Keeps (git.add g path)
    pub commit : (message : Text) → Keeps (git.commit g message)
    pub push : (args : List Text) → Keeps (git.push g args)
    pub pull : Keeps (git.pull g)
    pub log : (most : ℕ) → Keeps (git.log g most)
    pub branch_local : Keeps (git.branch_local g)
    pub diff : (args : List Text) → Keeps (git.diff g args)

  module _ (git : SimpleGit R) (root : List Text) (u p : Text)
      (at : KeptAt git (repository root u p)) where
    abbrev own : Repository
    own = repository root u p

    open_repository-KeepsAs : KeepsAs own (open_repository git root u p)
    unfolding open_repository
    open_repository-KeepsAs =
        >>=-KeepsAs own (git.make_dirs own.dir) (λ _. return own) at.make_dirs
          (λ _. return-KeepsAs own)

    require_repo-Keeps : Keeps (require_repo git root own)
    unfolding require_repo
    require_repo-Keeps = >>=-Keeps (git.check_is_repo own) _ at.check_is_repo (λ b.
        if-Keeps b (return tt) (throw no_repository) (return-Keeps tt) (throw-Keeps no_repository))

    -- What follows on an opened repository.
    opened-Keeps :
        {B : Type 0} (f : Repository → Execute R B)
        → Keeps (f own)
        → Keeps (opened git root u p >>= f)
    opened-Keeps f hf =
        as->>=-Keeps own (opened git root u p) f
          (as->>=-KeepsAs own own (open_repository git root u p) _ open_repository-KeepsAs (
            >>=-KeepsAs own (require_repo git root own) (λ _. return own) require_repo-Keeps
              (λ _. return-KeepsAs own)))
          hf

    pub pull-Keeps : Keeps (Git.pull git root u p)
    unfolding Git.pull
    pull-Keeps = opened-Keeps _ (wrap-Keeps _ at.pull)

    pub status-Keeps : Keeps (Git.status git root u p)
    unfolding Git.status
    status-Keeps = opened-Keeps _ (>>=-Keeps _ _ at.status (λ _. return-Keeps _))

    configured-Keeps : Keeps (configured git root own)
    configured-Keeps =
        >>=-Keeps _ _ (wrap-Keeps _ (at.init (codes "--initial-branch=main" ∷ []))) (λ _.
          >>=-Keeps _ _ (forgive-Keeps _ (at.add_config (codes "user.name") (codes "PocketDev")))
            (λ _. forgive-Keeps _ (at.add_config (codes "user.email") (codes "pocketdev@local"))))

    pub init-Keeps : Keeps (Git.init git root u p)
    unfolding Git.init
    init-Keeps = as->>=-Keeps own _ _ open_repository-KeepsAs (
        >>=-Keeps _ _ at.check_is_repo (λ b.
          >>=-Keeps _ _
            (if-Keeps b (return tt) (configured git root own) (return-Keeps tt) configured-Keeps)
            (λ _. >>=-Keeps _ _ at.status (λ _. return-Keeps _))))

    pub set_remote-Keeps : (url : Text) → Keeps (Git.set_remote git root u p url)
    unfolding Git.set_remote
    set_remote-Keeps url = opened-Keeps _ (
        >>=-Keeps _ _ at.get_remotes (λ remotes.
          >>=-Keeps _ _
            (if-Keeps (any (λ name. text_eq name (codes "origin")) remotes) _ _
              (wrap-Keeps _ (at.set_url (codes "origin") url))
              (wrap-Keeps _ (at.add_remote (codes "origin") url)))
            (λ _. return-Keeps _)))

    pub commit-Keeps : (message : Text) → Keeps (Git.commit git root u p message)
    unfolding Git.commit
    commit-Keeps message = opened-Keeps _ (
        >>=-Keeps _ _ (wrap-Keeps _ (at.add (codes "."))) (λ _.
          >>=-Keeps _ _ (wrap-Keeps _ (at.commit message))
            (λ c. >>=-Keeps _ _ at.status (λ _. return-Keeps _))))

    pub push-Keeps : Keeps (Git.push git root u p)
    unfolding Git.push
    push-Keeps = opened-Keeps _ (
        >>=-Keeps _ _ at.status
          (λ s. >>=-Keeps _ _ (wrap-Keeps _ (at.push _)) (λ _. return-Keeps _)))

    pub log-Keeps : Keeps (Git.log git root u p)
    unfolding Git.log
    log-Keeps = opened-Keeps _ (>>=-Keeps _ _ (wrap-Keeps _ (at.log 50)) (λ _. return-Keeps _))

    pub branches-Keeps : Keeps (Git.branches git root u p)
    unfolding Git.branches
    branches-Keeps = opened-Keeps _ (>>=-Keeps _ _ at.branch_local (λ _. return-Keeps _))

    pub diff-Keeps : (path : Option Text) → Keeps (Git.diff git root u p path)
    unfolding Git.diff
    diff-Keeps path =
        opened-Keeps _
          (>>=-Keeps _ _ (wrap-Keeps _ (at.diff (diff_args path))) (λ _. return-Keeps _))
