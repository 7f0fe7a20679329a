-- ===== src/Tests/Sessions.antt =====
-- Requests on the concrete machine: a file deleted and restored, and a connection's lines answered.
use omafile.Prelude.{
  Bytes, codes, List, [], ◌∷◌, true, false, none, some, Result, ok, err, list_beq, list_eq, nat_eq,
  ◌==◌, ◌≡◌, refl, if◌then◌else◌, arith,
}
use omafile.Prelude.Action.Post.{Post}
use omafile.Paths.{below, display}
use omafile.Paths.Text.{AreNames, lines}
use omafile.Error.{IoError, invalid_input}
use omafile.Host.Machine.{dir, file}
use omafile.Host.Keeps.{node_at}
use omafile.Server.Protocol.{Request, request_id, hello, delete}
use omafile.Server.Registry.{no_jobs}
use omafile.Server.Session.{Session, Env}
use omafile.Server.Dispatch.{delete_file}
use omafile.Server.Dispatch.Deleted.{IsTold, delete_file-IsTold}
use omafile.Server.Connection.{handle_requests}
use omafile.Server.Connection.Answered.{asked, Ended, handle_requests-Answered}
use omafile.Trash.Bin.{trash_in, trash_info}
use omafile.Trash.Restore.{restore, delete_permanently, original_in}
use omafile.Trash.Escape.RoundTrip.{AreBytes}
use omafile.Trash.Restore.Undone.{IsLine, original_in-trash_info}
use omafile.Trash.Restore.Removal.{IsErased}
use omafile.Trash.Restore.Erased.{delete_permanently-IsErased}
use omafile.Trash.Restore.RoundTrip.{IsBack, restore-trash_in}
use omafile.Tests.Machine.{ideal-IsHonest, src, start}
use omafile.Tests.Starting.{one_disk, trash_root, now, src_outside, src_there, trashed_as}

abbrev env : Env
env = record {
  host = one_disk;
  accepts = λ n. none;
  io_text = λ e. codes "it failed";
  from_utf8_lossy = λ s. s;
  is_utf8 = λ s. true;
  spared = λ k p. false;
  statvfs = λ p. err invalid_input;
  now = λ w. now;
  trash_root = trash_root;
}

abbrev session : Session
session = record { world = start; shared = no_jobs; sent = []; threads = [] }

delete_file-IsTold_example :
    Post (IsTold env src (codes "hello") true src_outside session) (delete_file env 7 src) session
delete_file-IsTold_example =
    delete_file-IsTold env src (codes "hello") true src_outside session 7 src_there

source_directory : node_at (codes "s" ∷ []) start ≡ some dir
unfolding list_beq
source_directory = refl

-- The directory that the file is in goes with it.
delete_permanently-IsErased_example :
    Post
      (IsErased one_disk (codes "s" ∷ []) start (some dir))
      (delete_permanently one_disk (λ k p. false) (codes "s" ∷ []))
      start
delete_permanently-IsErased_example =
    delete_permanently-IsErased one_disk (codes "s" ∷ []) start (λ k p. false) (some dir)
      source_directory

-- A greeting, a blank line, what is no request, and a file to be deleted.
abbrev from_str : Bytes → Result Bytes Request
from_str line =
    if line == codes "hello"
    then ok (hello 3 (codes "1"))
    else if line == codes "delete"
    then ok (delete 4 src)
    else err (codes "expected value")

abbrev lines_in : List (Result IoError Bytes)
lines_in = ok (codes "hello") ∷ ok [] ∷ ok (codes "{") ∷ ok (codes "delete") ∷ []

handle_requests-Answered_example :
    Post
      (Ended (λ line. line == []) from_str env (λ n. refl) lines_in session)
      (handle_requests env (λ line. line == []) from_str lines_in)
      session
handle_requests-Answered_example =
    handle_requests-Answered (λ line. line == []) from_str env (λ n. refl) lines_in session

numbers_asked : asked (λ line. line == []) from_str lines_in ≡ 3 ∷ 0 ∷ 4 ∷ []
unfolding asked request_id list_beq
numbers_asked = refl

src_names : AreNames src
unfolding list_beq
src_names = ((refl, ground arith), ((refl, ground arith), tt))

src_not_around : below src trash_root ≡ none
unfolding below list_beq
src_not_around = refl

src_bytes : AreBytes (display src)
unfolding display
src_bytes = ground arith

today-IsLine : IsLine now
today-IsLine = ground arith

original_in-trash_info_example : original_in (λ s. s) (lines (trash_info src now)) none ≡ some src
original_in-trash_info_example =
    original_in-trash_info (λ s. s) src now src_names src_bytes refl today-IsLine

restore-trash_in_example :
    Post
      (IsBack src (codes "a.txt" ∷ codes "files" ∷ trash_root) (file (codes "hello") true))
      (restore one_disk
        (λ s. s)
        (λ s. true)
        (codes "a.txt" ∷ codes "files" ∷ trash_root)
        (codes "a.txt.trashinfo" ∷ codes "info" ∷ trash_root))
      (trash_in one_disk trash_root src now start).1
restore-trash_in_example =
    restore-trash_in one_disk (λ s. s) (λ s. true) ideal-IsHonest trash_root src now
      (file (codes "hello") true) start src_there src_outside src_not_around src_names src_bytes
      refl today-IsLine (codes "a.txt" ∷ codes "files" ∷ trash_root)
      (codes "a.txt.trashinfo" ∷ codes "info" ∷ trash_root) trashed_as
