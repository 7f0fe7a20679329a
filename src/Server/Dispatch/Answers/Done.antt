-- ===== src/Server/Dispatch/Answers/Done.antt =====
-- daemon/src/server.rs: what `dispatch` computes before it answers does not fail.
use omafile.Prelude.{ℕ, List, [], ◌∷◌, Result, ok, err, Exec}
use omafile.Prelude.Action.Post.{Post, bind-Post, pure-Post, attempt-bind-Post}
use omafile.Paths.{FilePath}
use omafile.Error.{IoError}
use omafile.Host.Machine.{World}
use omafile.Host.Calls.{stat, exists}
use omafile.Engine.Stream.{add64}
use omafile.Server.Tally.{len_or_zero}
use omafile.Server.Job.{expected_size, joined}
use omafile.Server.Session.{Env}
use omafile.Server.Dispatch.{taken_names}
use omafile.Trash.Bin.{can_trash_in}

-- An action that does not fail.
abbrev pub IsDone : {E A : Type 0} → Result E A → Type 0
IsDone (ok a) = Unit {0}
IsDone (err e) = ⊥

abbrev pub Runs : {A : Type 0} → Exec World IoError A → Type 0
Runs m = (w : World) → Post (λ r t. IsDone r) m w

pub expected_size-Runs :
    (env : Env) (sources : List FilePath) (total : ℕ)
    → Runs (expected_size env.host env.io_text sources total)
unfolding expected_size
expected_size-Runs env [] total w = pure-Post (λ r t. IsDone r) total w tt
expected_size-Runs env (source ∷ rest) total w =
    attempt-bind-Post (λ _ _. Unit {0}) (λ r t. IsDone r) (stat env.host source) _ w tt
      (λ r t _. expected_size-Runs env rest (add64 total (len_or_zero env.host r)) t)

pub exists-Runs : (env : Env) (p : FilePath) → Runs (exists env.host p)
unfolding exists
exists-Runs env p w =
    attempt-bind-Post (λ _ _. Unit {0}) (λ r t. IsDone r) (stat env.host p) _ w tt
      (λ r t _. pure-Post (λ r t. IsDone r) _ t tt)

pub taken_names-Runs :
    (env : Env) (sources : List FilePath) (dir : FilePath) → Runs (taken_names env sources dir)
unfolding taken_names
taken_names-Runs env [] dir w = pure-Post (λ r t. IsDone r) [] w tt
taken_names-Runs env (source ∷ rest) dir w =
    bind-Post (λ r t. IsDone r) (λ r t. IsDone r) _ _ w (exists-Runs env (joined dir source) w)
      (λ there t _.
        bind-Post (λ r u. IsDone r) (λ r t. IsDone r) _ _ t (taken_names-Runs env rest dir t)
          (λ more u _. pure-Post (λ r t. IsDone r) _ u tt) (λ _ _ bad. bad))
      (λ _ _ bad. bad)

pub can_trash-Runs :
    (env : Env) (path : FilePath) → Runs (can_trash_in env.host env.trash_root path)
unfolding can_trash_in
can_trash-Runs env path w =
    bind-Post (λ r t. IsDone r) (λ r t. IsDone r) _ _ w (exists-Runs env env.trash_root w)
      (λ there t _.
        attempt-bind-Post (λ _ _. Unit {0}) (λ r t. IsDone r) (stat env.host _) _ t tt
          (λ a u _.
            attempt-bind-Post (λ _ _. Unit {0}) (λ r t. IsDone r) (stat env.host _) _ u tt
              (λ b v _. pure-Post (λ r t. IsDone r) _ v tt)))
      (λ _ _ bad. bad)
