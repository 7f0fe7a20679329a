-- ===== src/Tests/Starting.antt =====
-- A file put in the trash, and a daemon that starts, on the concrete machine.
use omafile.Prelude.{
  Bytes, codes, [], ◌∷◌, true, none, some, ok, err, list_beq, list_eq, nat_eq, ◌==◌, ◌≡◌, refl,
  pure, raise, attempt, discard, lift_err, ◌>>=◌, decimal, if◌then◌else◌,
}
use omafile.Prelude.Action.Post.{Post}
use omafile.Paths.{FilePath, below, display}
use omafile.Error.{connection_refused, addr_in_use}
use omafile.Host.Machine.{file, socket, World, Host}
use omafile.Host.Calls.{
  stat, exists, rename, arrive, dir_of, create, write_all, write_file, remove_file,
}
use omafile.Host.Keeps.{node_at}
use omafile.Host.Dirs.{create_dir, create_dir_all, is_dir_at}
use omafile.Server.Listener.{bind, connect, bind_fresh}
use omafile.Server.Listener.Fresh.{IsFresh, bind_fresh-IsFresh}
use omafile.Trash.Escape.{uri_escape, is_unreserved, upper_hex}
use omafile.Trash.Bin.{
  trashed, can_trash_in, unique_name, canonical, trash_info, trash_as, trash_where, trash_in,
}
use omafile.Trash.Bin.Kept.{IsKept, trash_in-IsKept}
use omafile.Engine.Verify.{saturating_mul}
use omafile.Server.Rename.{contains}
use omafile.Space.{StatVfs, query, block_unit}
use omafile.Tests.Machine.{ideal, src, start, tree}

abbrev pub one_disk : Host
one_disk = record ideal { device = λ p. 0 }

abbrev pub trash_root : FilePath
trash_root = codes "Trash" ∷ codes "d" ∷ []

abbrev pub now : Bytes
now = codes "2024-01-01T00:00:00"

pub src_outside : below trash_root src ≡ none
unfolding below list_beq
src_outside = refl

pub src_there : node_at src start ≡ some (file (codes "hello") true)
unfolding list_beq
src_there = refl

trash_in-IsKept_example :
    Post
      (IsKept one_disk trash_root src now (file (codes "hello") true) src_outside)
      (trash_in one_disk trash_root src now)
      start
trash_in-IsKept_example =
    trash_in-IsKept one_disk trash_root src now (file (codes "hello") true) src_outside start
      src_there

pub trashed_as :
    (trash_in one_disk trash_root src now start).0
    ≡ ok (
        trashed
          (codes "a.txt" ∷ codes "files" ∷ trash_root)
          (codes "a.txt.trashinfo" ∷ codes "info" ∷ trash_root))
unfolding trash_in can_trash_in trash_where trash_as unique_name canonical trash_info create_dir_all
    create_dir is_dir_at exists stat rename arrive dir_of create write_all write_file remove_file
    uri_escape is_unreserved upper_hex display list_beq pure raise attempt discard lift_err ◌>>=◌
    below decimal
trashed_as = refl

-- A dead daemon's socket.
abbrev left_over : World
left_over = record start {
  files = λ p. if p == codes "omafiled.sock" ∷ codes "d" ∷ [] then some socket else tree p;
}

abbrev pub socket_path : FilePath
socket_path = codes "omafiled.sock" ∷ codes "d" ∷ []

bind_fresh-IsFresh_example :
    Post
      (IsFresh ideal (λ k. err connection_refused) socket_path left_over)
      (bind_fresh ideal (λ k. err connection_refused) socket_path)
      left_over
bind_fresh-IsFresh_example =
    bind_fresh-IsFresh ideal (λ k. err connection_refused) socket_path left_over

takes_over : (bind_fresh ideal (λ k. err connection_refused) socket_path left_over).0 ≡ ok tt
unfolding bind_fresh bind connect stat remove_file dir_of list_beq pure raise attempt ◌>>=◌
takes_over = refl

leaves_alone : (bind_fresh ideal (λ k. ok tt) socket_path left_over).0 ≡ err addr_in_use
unfolding bind_fresh bind connect stat remove_file dir_of list_beq pure raise attempt ◌>>=◌
leaves_alone = refl

-- A terabyte of which a part is reserved.
abbrev pub answer : StatVfs
answer = record {
  f_frsize = 4096;
  f_bsize = 1048576;
  f_blocks = 268435456;
  f_bfree = 1000;
  f_bavail = 250;
}

room_reported :
    query (λ e. []) (λ p. ok answer) socket_path
    ≡ ok (record { total = 1099511627776; available = 1024000 })
unfolding query block_unit contains saturating_mul display
room_reported = refl
