-- ===== src/Server/Http/Scope.antt =====
-- What a request of the git panel can change (server/src/git/git.controller.ts with
-- server/src/git/git.service.ts).
use pocket_dev.Base.{String, Text, codes, Bool, true, false, List, ok, err, refl, ◌≡◌, ◌∙◌}
use pocket_dev.Server.Execute.{Execute}
use pocket_dev.Server.Db.{Db}
use pocket_dev.Server.SimpleGit.{SimpleGit}
use pocket_dev.Server.Git
use pocket_dev.Server.Git.{repository, no_repository}
use pocket_dev.Server.Projects.Ownership.{is_mine}
use pocket_dev.Server.Http.Ownership.{handle_git_lem}
use pocket_dev.Server.Git.Keeps.{Keeps}
use pocket_dev.Server.Http.{
  GitRequest, status, log, branches, diff, init, remote, commit, push, pull, valid_git_request,
  serve_git, handle_git,
}

abbrev pub is_init : GitRequest → Bool
is_init init = true
is_init _ = false

module _ {R : Type 0} (git : SimpleGit R) (root : List Text) (u p : String) where
  serve_git-none :
      (request : GitRequest) (r s t : R)
      → is_init request ≡ false
      → git.make_dirs (repository root (codes u) (codes p)).dir r ≡ (ok tt, s)
      → git.check_is_repo (repository root (codes u) (codes p)) s ≡ (ok false, t)
      → serve_git git root u p request r ≡ (err no_repository, t)
  unfolding serve_git Git.status Git.log Git.branches Git.diff Git.set_remote Git.commit Git.push
      Git.pull Git.open_repository Git.require_repo
  serve_git-none status r s t e made no_repo = rw (made, no_repo) refl
  serve_git-none log r s t e made no_repo = rw (made, no_repo) refl
  serve_git-none branches r s t e made no_repo = rw (made, no_repo) refl
  serve_git-none (diff path) r s t e made no_repo = rw (made, no_repo) refl
  serve_git-none init r s t e made no_repo = absurd (cc e)
  serve_git-none (remote url) r s t e made no_repo = rw (made, no_repo) refl
  serve_git-none (commit message) r s t e made no_repo = rw (made, no_repo) refl
  serve_git-none push r s t e made no_repo = rw (made, no_repo) refl
  serve_git-none pull r s t e made no_repo = rw (made, no_repo) refl

  -- Where the project's directory holds no repository, every request of the owner but the one that makes
  -- it fails as such, with nothing done but the making of the directory and the test.
  pub handle_git-no_repository :
      (db : Db) (request : GitRequest) (r s t : R)
      → valid_git_request request ≡ true
      → is_mine u db p ≡ true
      → is_init request ≡ false
      → git.make_dirs (repository root (codes u) (codes p)).dir r ≡ (ok tt, s)
      → git.check_is_repo (repository root (codes u) (codes p)) s ≡ (ok false, t)
      → handle_git git root u p db request r ≡ (err no_repository, t)
  handle_git-no_repository db request r s t valid mine e made no_repo =
      let served = rw (valid, mine) at (handle_git_lem root u p db git request r) in
      served ∙ serve_git-none request r s t e made no_repo
