-- ===== src/Server/Activation.antt =====
-- daemon/src/server.rs: `activated_listener` and `serve`. The process number, the descriptor's socket
-- options and the connections that come in are given.
pub mod Adopted
pub mod Served
use omafile.Prelude.{
  ℕ, zero, suc, Bytes, List, [], ◌∷◌, ◌++◌, Bool, true, false, ◌&&◌, Option, none, some, ◌==◌,
  nat_eq, if◌then◌else◌, Result, ok, err, Exec, pure, raise, ◌>>=◌, ◌>>◌,
}
use omafile.Prelude.Integers.{ℤ, pos, negsuc}
use omafile.Prelude.Parse.{parse_u32, parse_i32}
use omafile.Prelude.Action.Post.{Post}
use omafile.Paths.{FilePath}
use omafile.Error.{IoError, invalid_input}
use omafile.Host.Machine.{World, Host}
use omafile.Server.Listener.{bind_fresh}

-- The variables' texts; none for one that is unset or no UTF-8.
pub record Variables : Type 0 where
  pub listen_pid : Option Bytes
  pub listen_fds : Option Bytes
  pub listen_fdnames : Option Bytes

-- What `getsockopt` says of a descriptor; none where it fails.
pub record Descriptor : Type 0 where
  pub accept_conn : Option ℕ
  pub domain : Option ℕ
  pub socket_type : Option ℕ

-- `serve`'s state. `started` is the connections that a thread was started for.
pub record Process : Type 0 where
  pub world : World
  pub variables : Variables
  pub started : List ℕ

abbrev pub listen_fds_start : ℕ
listen_fds_start = 3

abbrev pub is_number : ℕ → Option ℕ → Bool
is_number n none = false
is_number n (some m) = m == n

-- `AF_UNIX` and `SOCK_STREAM` are 1.
unfoldable pub is_listening_stream_socket : Descriptor → Bool
is_listening_stream_socket d =
    is_number 1 d.accept_conn && (is_number 1 d.domain && is_number 1 d.socket_type)

unfoldable pub text_or_default : Option Bytes → Bytes
text_or_default none = []
text_or_default (some text) = text

abbrev pub no_variables : Variables
no_variables = record { listen_pid = none; listen_fds = none; listen_fdnames = none }

module _ (pid : ℕ) (descriptor : Descriptor) where
  -- From the check of the count on.
  abbrev pub usable : Option ℤ → Exec Variables IoError (Option ℕ)
  usable none = raise invalid_input
  usable (some (negsuc n)) = raise invalid_input
  usable (some (pos zero)) = raise invalid_input
  usable (some (pos (suc n))) =
      if is_listening_stream_socket descriptor
      then pure (some listen_fds_start)
      else raise invalid_input

  abbrev pub claimed_by : Bytes → Bytes → Exec Variables IoError (Option ℕ)
  claimed_by claimed count =
      if is_number pid (parse_u32 claimed) then usable (parse_i32 count) else pure none

  abbrev pub on_claim : Option Bytes → Exec Variables IoError (Option ℕ)
  on_claim none v = (ok none, v)
  on_claim (some claimed) v = claimed_by claimed (text_or_default v.listen_fds) no_variables

  unfoldable pub activated_listener : Exec Variables IoError (Option ℕ)
  activated_listener v = on_claim v.listen_pid v

abbrev pub with_files_of : {E A : Type 0} → Process → Result E A × World → Result E A × Process
with_files_of p (r, w) = (r, record p { world = w })

-- A step that changes files only.
unfoldable pub on_files : {E A : Type 0} → Exec World E A → Exec Process E A
on_files m p = with_files_of p (m p.world)

pub on_files-Post :
    {E A : Type 0} (Q : Result E A → World → Type 0) (m : Exec World E A) (p : Process)
    → Post Q m p.world
    → Post (λ r t. Q r t.world) (on_files m) p
unfolding on_files
on_files-Post Q m p h = h

module _ (host : Host) (connects : ℕ → Result IoError (Unit {0})) (pid : ℕ)
    (descriptor : Descriptor) where
  abbrev pub with_variables :
      Process → Result IoError (Option ℕ) × Variables → Result IoError (Option ℕ) × Process
  with_variables p (r, v) = (r, record p { variables = v })

  -- A thread is started for the connection.
  unfoldable pub started_for : {E : Type 0} → ℕ → Exec Process E (Unit {0})
  started_for stream p = (ok tt, record p { started = p.started ++ (stream ∷ []) })

  unfoldable pub listen : FilePath → Option ℕ → Exec Process IoError (Unit {0})
  unfolding on_files
  listen path (some fd) = pure tt
  listen path none = on_files (bind_fresh host connects path)

  unfoldable pub accept_all : List (Result IoError ℕ) → Exec Process IoError (Unit {0})
  accept_all [] = pure tt
  accept_all (err e ∷ rest) = raise e
  accept_all (ok stream ∷ rest) = do started_for stream; accept_all rest

  abbrev pub inherited : Exec Process IoError (Option ℕ)
  inherited p = with_variables p (activated_listener pid descriptor p.variables)

  unfoldable pub serve : FilePath → List (Result IoError ℕ) → Exec Process IoError (Unit {0})
  serve path incoming = do listener ← inherited; listen path listener; accept_all incoming
