-- ===== src/Tests/Moves.antt =====
-- Moves on the concrete machine, between two devices.
use omafile.Prelude.{
  ◌<◌, ◌^◌, codes, [], ◌∷◌, true, none, some, Result, ok, list_beq, list_eq, nat_eq, ◌==◌, decimal,
  ◌≡◌, ◌⊎◌, if◌then◌else◌, refl, arith, pure, raise, attempt, discard, lift_err, ◌>>=◌,
}
use omafile.Prelude.Action.Post.{Post}
use omafile.Paths.{FilePath, below, display}
use omafile.Error.{TransferError}
use omafile.Host.Machine.{file, dir, World, Host}
use omafile.Host.Calls.{
  arrive, dir_of, stat, exists, node_len, remove_file, create, open_write, open_read, seek,
  read_tape, write_all, sync_all, rename, read_file, write_file, report,
}
use omafile.Host.Keeps.{node_at}
use omafile.FsOps.{temp_path_for, ficlone, after_clone, try_reflink_into_temp, same_filesystem}
use omafile.Journal.{hex, path_for, part_for, record_entry, get, clear}
use omafile.Journal.Keeps.{IsOutside}
use omafile.Engine.Types.{moved, Outcome}
use omafile.Engine.FreeName.{resolve_conflict}
use omafile.Engine.Stream.{add64, agrees, resume_offset, copy_chunks, open_temp, stream}
use omafile.Engine.Stream.Filled.{IsBounded}
use omafile.Engine.Verify.{
  saturating_mul, hash_chunks, hash_file_reporting, attempts, judge, verify_with_retry_reporting,
}
use omafile.Engine.Copy.{
  clone_renamed, commit_clone, commit, verified, abandon, check_size, copy_by_stream, copy_to,
  copy_file_with,
}
use omafile.Engine.Copy.Safety.{size_at}
use omafile.Engine.Copy.Whole.{IsWhole}
use omafile.Engine.Move.{after_copy, move_to, move_file_with}
use omafile.Engine.Move.Succeeds.{IsMoved, move_file-IsMoved}
use omafile.Engine.Move.NoLoss.{move_file-safe, move_file-reported}
use omafile.Tests.Machine.{ideal, ideal-IsBounded, src, dst, journal, start}
use omafile.Tests.Transfers.{replacing, src-IsPlain, d-IsOutside}

-- The source's directory is on a device of its own.
abbrev apart : Host
apart = record ideal { device = λ p. if p == codes "s" ∷ [] then 1 else 0 }

apart-IsBounded : IsBounded apart
apart-IsBounded = ideal-IsBounded

s-IsOutside : IsOutside journal (dir_of src)
unfolding dir_of below list_beq
s-IsOutside = refl

source_there : node_at src start ≡ some (file (codes "hello") true)
unfolding list_beq
source_there = refl

size_known : size_at apart src start < 2 ^ 63
unfolding node_len list_beq
size_known = omega arith

move : Result TransferError Outcome × World
unfolding move_file_with move_to after_copy copy_file_with stat exists node_len resolve_conflict
    dir_of copy_to same_filesystem try_reflink_into_temp ficlone after_clone open_read create
    sync_all remove_file commit_clone clone_renamed copy_by_stream resume_offset get read_file
    read_tape record_entry write_file write_all rename arrive stream open_temp open_write seek
    copy_chunks add64 report check_size verified verify_with_retry_reporting attempts
    hash_file_reporting hash_chunks judge saturating_mul commit clear abandon path_for part_for hex
    temp_path_for display agrees pure raise attempt discard lift_err list_beq ◌>>=◌ below decimal
move = move_file_with apart journal src dst replacing start

move_runs : move.0 ≡ ok (moved dst)
unfolding move
move_runs = refl

moved_content : node_at dst move.1 ≡ some (file (codes "hello") true)
unfolding move
moved_content = refl

move_file-safe_example :
    (node_at src (move_file_with apart journal src dst replacing start).1
      ≡ some (file (codes "hello") true))
    ⊎ ((p : FilePath) × ((dir_of p ≡ dir_of dst)
          × ((node_at p (move_file_with apart journal src dst replacing start).1
                ≡ some (file (codes "hello") true))
              ⊎ IsWhole
                  (size_at apart src start)
                  p
                  (move_file_with apart journal src dst replacing start).1)))
move_file-safe_example =
    move_file-safe apart journal src dst replacing start (file (codes "hello") true) source_there
      apart-IsBounded size_known d-IsOutside src-IsPlain s-IsOutside

move_as_reported : (move_file_with apart journal src dst replacing start).0 ≡ ok (moved dst)
unfolding move
move_as_reported = move_runs

move_file-reported_example :
    (dir_of dst ≡ dir_of dst)
    × ((node_at dst (move_file_with apart journal src dst replacing start).1
          ≡ some (file (codes "hello") true))
        ⊎ IsWhole
            (size_at apart src start)
            dst
            (move_file_with apart journal src dst replacing start).1)
move_file-reported_example =
    move_file-reported apart journal src dst replacing start (file (codes "hello") true)
      source_there apart-IsBounded size_known d-IsOutside src-IsPlain s-IsOutside (moved dst)
      move_as_reported

-- A free name on the source's own device.
abbrev free_dst : FilePath
free_dst = codes "b.txt" ∷ codes "d" ∷ []

here : node_at src start ≡ some (file (codes "hello") true)
unfolding list_beq
here = refl

free : node_at free_dst start ≡ none
unfolding list_beq
free = refl

source_dir : node_at (dir_of src) start ≡ some dir
unfolding list_beq dir_of
source_dir = refl

target_dir : node_at (dir_of free_dst) start ≡ some dir
unfolding list_beq dir_of
target_dir = refl

one_device : ideal.device (dir_of src) ≡ ideal.device (dir_of free_dst)
unfolding dir_of
one_device = refl

move_file-IsMoved_example :
    Post
      (IsMoved ideal (λ t. refl) (λ t. refl) src free_dst (codes "hello") true start)
      (move_file_with ideal journal src free_dst replacing)
      start
move_file-IsMoved_example =
    move_file-IsMoved ideal (λ t. refl) (λ t. refl) src free_dst (codes "hello") true start journal
      replacing here free source_dir target_dir one_device
