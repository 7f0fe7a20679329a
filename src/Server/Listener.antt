-- ===== src/Server/Listener.antt =====
-- daemon/src/server.rs: `bind_fresh`. Whether a socket accepts a connection is the parameter `connects`,
-- by the number of the call.
pub mod Fresh
use omafile.Prelude.{
  ℕ, Bool, true, false, Option, none, some, Result, ok, err, Exec, pure, raise, attempt, ◌>>=◌,
  ◌>>◌,
}
use omafile.Paths.{FilePath}
use omafile.Error.{IoError, not_found, already_exists, addr_in_use, connection_refused}
use omafile.Host.Machine.{Node, file, dir, socket, World, Host}
use omafile.Host.Calls.{stat, remove_file, guarded, tick, with_files, put_node, dir_of, is_dir}

module _ (host : Host) (connects : ℕ → Result IoError (Unit {0})) where
  abbrev pub bound : FilePath → Option Node → Bool → Exec World IoError (Unit {0})
  bound p (some n) in_dir w = (err addr_in_use, w)
  bound p none true w = (ok tt, with_files (put_node p (some socket) w.files) w)
  bound p none false w = (err not_found, w)

  -- `UnixListener::bind`, which makes the socket's file.
  unfoldable pub bind : FilePath → Exec World IoError (Unit {0})
  unfolding guarded dir_of
  bind p = guarded host (λ w. bound p (w.files p) (is_dir (w.files (dir_of p))) w)

  -- `UnixStream::connect`
  unfoldable pub connect : Exec World IoError (Unit {0})
  connect w = (connects w.clock, tick w)

  abbrev pub on_connect : FilePath → Result IoError (Unit {0}) → Exec World IoError (Unit {0})
  on_connect p (ok _) = raise addr_in_use
  on_connect p (err connection_refused) = do remove_file host p; bind p
  on_connect p (err e) = raise e

  abbrev pub on_found : FilePath → Result IoError Node → Exec World IoError (Unit {0})
  on_found p (err not_found) = bind p
  on_found p (err e) = raise e
  on_found p (ok socket) = do answer ← attempt connect; on_connect p answer
  on_found p (ok _) = raise already_exists

  unfoldable pub bind_fresh : FilePath → Exec World IoError (Unit {0})
  bind_fresh p = do found ← attempt (stat host p); on_found p found
