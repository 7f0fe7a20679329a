-- ===== src/Server/Connection.antt =====
-- daemon/src/server.rs: the loop over the lines in `handle`. The lines that the reader yields are
-- given, and so are `trim().is_empty()` and `serde_json::from_str`.
pub mod Answered
use omafile.Prelude.{
  ℕ, Bytes, codes, List, [], ◌∷◌, ◌++◌, Bool, true, false, Option, none, some, Result, ok, err,
  Exec, pure, raise, discard, ◌>>=◌, ◌>>◌,
}
use omafile.Error.{IoError}
use omafile.Server.Protocol.{Request, Event, reply}
use omafile.Server.Session.{Session, Env, tell}
use omafile.Server.Dispatch.{dispatch}

module _ (env : Env) (is_blank : Bytes → Bool) (from_str : Bytes → Result Bytes Request) where
  abbrev pub unparseable : Bytes → ℕ → Event
  unparseable e seq = reply seq 0 none (some (codes "unparseable request: " ++ e))

  abbrev pub on_request : Result Bytes Request → Exec Session IoError (Unit {0})
  on_request (ok req) = dispatch env req
  on_request (err e) = discard (tell env (unparseable e))

  abbrev pub on_line : Bool → Bytes → Exec Session IoError (Unit {0})
  on_line true line = pure tt
  on_line false line = on_request (from_str line)

  -- `handle` from its loop on.
  unfoldable pub handle_requests : List (Result IoError Bytes) → Exec Session IoError (Unit {0})
  handle_requests [] = pure tt
  handle_requests (err e ∷ rest) = raise e
  handle_requests (ok line ∷ rest) = do on_line (is_blank line) line; handle_requests rest
