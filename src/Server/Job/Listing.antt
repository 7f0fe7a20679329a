-- ===== src/Server/Job/Listing.antt =====
-- A job's last view lists the files that arrived, under the names that they have there.
use omafile.Prelude.{Bytes, List, [], ◌∷◌, ◌++◌, if◌then◌else◌, some, ok, ◌≡◌, ◌⊎◌}
use omafile.Prelude.Action.Post.{Post}
use omafile.Paths.{FilePath, file_name}
use omafile.Error.{IoError}
use omafile.Host.Machine.{World, Host}
use omafile.Journal.{Journal}
use omafile.Engine.Types.{Outcome, moved, copied, skipped_existing}
use omafile.Engine.Copy.{copy_file_with}
use omafile.Engine.Move.{move_file_with}
use omafile.Server.Protocol.{JobView, Landed}
use omafile.Server.Tally.{Tally}
use omafile.Server.Job.{file_name_of, joined, Order}

-- The path that an outcome says a file is at.
abbrev pub LandsAt : Outcome → FilePath → Type 0
LandsAt (moved p) q = p ≡ q
LandsAt (copied tier bytes replaced p) q = p ≡ q
LandsAt skipped_existing q = ⊥

-- An entry gives the last name of a path; the root has none, and gets the one that was asked for.
abbrev pub IsNamed : FilePath → Landed → Type 0
IsNamed p x = (file_name p ≡ some x.name) ⊎ ((p ≡ []) × (x.name ≡ x.asked))

module _ (host : Host) (io_text : IoError → Bytes) (journal : Journal) (order : Order) where
  -- A copy or a move of a source came to an outcome.
  abbrev pub CameTo : FilePath → Outcome → Type 0
  CameTo source o =
      (w : World) × (((if order.is_move
            then move_file_with host journal source (joined order.destination_dir source) order.opts
            else copy_file_with host journal source (joined order.destination_dir source)
                order.opts)
          w).0
        ≡ ok o)

  -- A list has an entry for each source that arrived, in order: the name asked for, and the one that
  -- the file has where it is.
  pub data Listed : List FilePath → List Landed → Type 0 where
    nothing : Listed [] []
    arrives :
        {sources : List FilePath} {entries : List Landed} (source p : FilePath) (o : Outcome)
        (x : Landed)
        → Listed sources entries
        → CameTo source o
        → LandsAt o p
        → x.asked ≡ file_name_of source
        → IsNamed p x
        → Listed (sources ++ (source ∷ [])) (entries ++ (x ∷ []))
    passes :
        {sources : List FilePath} {entries : List Landed} (source : FilePath)
        → Listed sources entries
        → CameTo source skipped_existing
        → Listed (sources ++ (source ∷ [])) entries

  -- The entries of a view are of some first ones of the sources, all that were finished.
  abbrev pub IsListing : JobView → Type 0
  IsListing v =
      (handled : List FilePath) × ((left : List FilePath) × ((order.sources ≡ handled ++ left)
          × Listed handled v.landed_as))
