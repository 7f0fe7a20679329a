-- ===== src/Tests/Transfers.antt =====
-- Copies on the concrete machine.
use omafile.Prelude.{
  map, ◌<◌, ◌^◌, Bytes, length, codes, [], ◌∷◌, true, false, none, some, Result, ok, list_beq,
  decimal, ◌≡◌, ◌≢◌, ◌⊎◌, refl, arith, pure, raise, attempt, discard, lift_err, ◌>>=◌,
}
use omafile.Paths.{below, display}
use omafile.Paths.Name.{stem_and_ext}
use omafile.Error.{TransferError}
use omafile.Tier.{checksummed, size_checked}
use omafile.Host.Machine.{file, World}
use omafile.Host.Calls.{
  arrive, dir_of, stat, exists, node_len, remove_file, create, open_write, open_read, seek,
  read_tape, write_all, sync_all, rename, read_file, write_file, report,
}
use omafile.Host.Keeps.{node_at}
use omafile.FsOps.{temp_path_for, ficlone, after_clone, try_reflink_into_temp, same_filesystem}
use omafile.Journal.{hex, path_for, part_for, record_entry, get, clear}
use omafile.Journal.Keeps.{IsOutside}
use omafile.Engine.Types.{Options, skip, replace, keep_both, copied, skipped_existing, Outcome}
use omafile.Engine.FreeName.{numbered, first_free, free_name_beside, resolve_conflict}
use omafile.Engine.Stream.{add64, agrees, resume_offset, copy_chunks, open_temp, stream}
use omafile.Engine.Verify.{
  saturating_mul, hash_chunks, hash_file_reporting, attempts, judge, verify_with_retry_reporting,
}
use omafile.Engine.Copy.{
  clone_renamed, commit_clone, commit, verified, abandon, check_size, copy_by_stream, copy_to,
  copy_file_with,
}
use omafile.Engine.Copy.Plain.{IsPlain, IsPlain-undotted}
use omafile.Engine.Copy.Whole.{IsWhole}
use omafile.Engine.Copy.Safety.{size_at, copy_file-atomic, copy_file-landed, copy_file-preserves}
use omafile.Engine.Copy.Reported.{copy_file-content}
use omafile.Tests.Machine.{
  ideal-IsHonest, ideal, ideal-IsBounded, ideal-StatsWork, src, dst, journal, start,
}

abbrev pub replacing : Options
replacing = record { checksum = false; on_conflict = replace }

abbrev pub skipping : Options
skipping = record { checksum = true; on_conflict = skip }

abbrev pub keeping : Options
keeping = record { checksum = true; on_conflict = keep_both }

-- A copy with every definition that it runs open.
copy : Options → Result TransferError Outcome × World
unfolding copy_file_with stat exists node_len resolve_conflict free_name_beside first_free numbered
    dir_of stem_and_ext decimal copy_to same_filesystem try_reflink_into_temp ficlone after_clone
    open_read create sync_all remove_file commit_clone clone_renamed copy_by_stream resume_offset
    get read_file read_tape record_entry write_file write_all rename arrive stream open_temp
    open_write seek copy_chunks add64 report check_size verified verify_with_retry_reporting
    attempts hash_file_reporting hash_chunks judge saturating_mul commit clear abandon path_for
    part_for hex temp_path_for display agrees pure raise attempt discard lift_err list_beq ◌>>=◌
    below
copy opts = copy_file_with ideal journal src dst opts start

copy_replaces : (copy replacing).0 ≡ ok (copied size_checked 5 true dst)
unfolding copy
copy_replaces = refl

-- The free name beside the destination; its digest agrees.
copy_beside : (copy keeping).0 ≡ ok (copied checksummed 5 false (codes "a-2.txt" ∷ codes "d" ∷ []))
unfolding copy numbered
copy_beside = refl

-- The reports of five bytes copied and read back, the newest first.
reports_twice : map (λ r. r.done) (copy keeping).1.reported ≡ 10 ∷ 5 ∷ 5 ∷ []
unfolding copy numbered
reports_twice = refl

copy_skips : (copy skipping).0 ≡ ok skipped_existing
unfolding copy
copy_skips = refl

replaced_content : node_at dst (copy replacing).1 ≡ some (file (codes "hello") true)
unfolding copy
replaced_content = refl

pub src-IsPlain : IsPlain src
src-IsPlain = IsPlain-undotted b'a' (codes ".txt") (codes "s" ∷ []) (omega arith)

pub dst-IsPlain : IsPlain dst
dst-IsPlain = IsPlain-undotted b'a' (codes ".txt") (codes "d" ∷ []) (omega arith)

pub d-IsOutside : IsOutside journal (dir_of dst)
unfolding dir_of below list_beq
d-IsOutside = refl

size_known : size_at ideal src start < 2 ^ 63
unfolding node_len list_beq
size_known = omega arith

copy_file-atomic_example :
    (node_at dst (copy_file_with ideal journal src dst replacing start).1 ≡ node_at dst start)
    ⊎ ((dir_of dst ≡ dir_of dst)
        × IsWhole
            (size_at ideal src start)
            dst
            (copy_file_with ideal journal src dst replacing start).1)
copy_file-atomic_example =
    copy_file-atomic ideal journal src dst replacing start ideal-IsBounded size_known d-IsOutside
      src-IsPlain dst dst-IsPlain d-IsOutside

copy_runs :
    (copy_file_with ideal journal src dst replacing start).0 ≡ ok (copied size_checked 5 true dst)
unfolding copy
copy_runs = refl

copy_file-landed_example :
    (dir_of dst ≡ dir_of dst)
    × (5 ≡ size_at ideal src start)
    × IsWhole 5 dst (copy_file_with ideal journal src dst replacing start).1
copy_file-landed_example =
    copy_file-landed ideal journal src dst replacing start ideal-IsBounded size_known d-IsOutside
      src-IsPlain size_checked 5 true dst copy_runs

dst_there : node_at dst start ≢ none
unfolding list_beq
dst_there e = cc

copy_file-preserves_example :
    node_at dst (copy_file_with ideal journal src dst keeping start).1 ≡ node_at dst start
copy_file-preserves_example =
    copy_file-preserves ideal journal src dst keeping start ideal-IsBounded size_known d-IsOutside
      src-IsPlain ideal-StatsWork (λ e. cc) dst dst-IsPlain d-IsOutside dst_there

copy_runs_checked :
    (copy_file_with ideal journal src dst keeping start).0
    ≡ ok (copied checksummed 5 false (codes "a-2.txt" ∷ codes "d" ∷ []))
unfolding copy numbered
copy_runs_checked = refl

pub s-IsOutside : IsOutside journal (dir_of src)
unfolding dir_of below list_beq
s-IsOutside = refl

pub source_there : node_at src start ≡ some (file (codes "hello") true)
unfolding list_beq
source_there = refl

copy_file-content_example :
    (c : Bytes) × ((node_at
          (codes "a-2.txt" ∷ codes "d" ∷ [])
          (copy_file_with ideal journal src dst keeping start).1
        ≡ some (file c true))
      × ((length c ≡ 5) × (ideal.sha256 c ≡ ideal.sha256 (codes "hello"))))
copy_file-content_example =
    copy_file-content ideal journal src dst keeping start ideal-IsBounded size_known d-IsOutside
      src-IsPlain s-IsOutside ideal-IsHonest (codes "hello") true source_there checksummed 5 false
      (codes "a-2.txt" ∷ codes "d" ∷ []) copy_runs_checked
