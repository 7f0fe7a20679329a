-- ===== src/Tests/Copies.antt =====
-- A copy to a path where nothing is, on the concrete machine.
use omafile.Prelude.{codes, [], ◌∷◌, true, none, some, list_beq, list_eq, nat_eq, ◌≡◌, refl}
use omafile.Prelude.Action.Post.{Post}
use omafile.Paths.{FilePath, below, display}
use omafile.Host.Machine.{dir}
use omafile.Host.Calls.{dir_of}
use omafile.Host.Keeps.{node_at}
use omafile.Host.Works.{is_writable, ReadsWhole}
use omafile.FsOps.{temp_path_for}
use omafile.Journal.{path_for, part_for, hex, hex_char}
use omafile.Journal.Keeps.{IsOutside}
use omafile.Engine.Copy.{copy_file_with}
use omafile.Engine.Copy.Succeeds.{IsDelivered, copy_file-IsDelivered}
use omafile.Tests.Machine.{ideal, ideal-IsBounded, src, journal, start}
use omafile.Tests.Transfers.{keeping, src-IsPlain, s-IsOutside, source_there}

abbrev target : FilePath
target = codes "b.txt" ∷ codes "d" ∷ []

hello_whole : ReadsWhole ideal (codes "hello")
hello_whole t = (refl, refl)

target_outside : IsOutside journal (dir_of target)
unfolding dir_of below list_beq
target_outside = refl

nothing_there : node_at target start ≡ none
unfolding list_beq
nothing_there = refl

not_recorded : node_at (path_for ideal journal target) start ≡ none
unfolding path_for list_beq hex hex_char display
not_recorded = refl

no_temp : is_writable (node_at (temp_path_for target) start) ≡ true
unfolding temp_path_for list_beq is_writable
no_temp = refl

no_part : is_writable (node_at (part_for ideal journal target) start) ≡ true
unfolding part_for list_beq is_writable hex hex_char display
no_part = refl

source_dir : node_at (dir_of src) start ≡ some dir
unfolding dir_of list_beq
source_dir = refl

target_dir : node_at (dir_of target) start ≡ some dir
unfolding dir_of list_beq
target_dir = refl

journal_dir : node_at journal.folder start ≡ some dir
unfolding list_beq
journal_dir = refl

copy_file-IsDelivered_example :
    Post
      (IsDelivered target (codes "hello") true)
      (copy_file_with ideal journal src target keeping)
      start
copy_file-IsDelivered_example =
    copy_file-IsDelivered ideal ((λ t. refl), (λ t. refl)) ideal-IsBounded journal src target
      keeping (codes "hello") true start hello_whole src-IsPlain s-IsOutside target_outside
      source_there nothing_there not_recorded no_temp no_part source_dir target_dir journal_dir
