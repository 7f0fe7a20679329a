-- ===== src/CommandLine.antt =====
-- daemon/src/main.rs: the program's arguments, what it does for them, and what it ends with. The
-- arguments that are paths are absolute. The dashes and the arrow of its messages are in ASCII.
pub mod Flags
use omafile.Prelude.{
  ℕ, Bytes, codes, List, [], ◌∷◌, ◌++◌, Bool, true, false, not, ◌||◌, Option, none, some, decimal,
  ◌==◌, list_eq, nat_eq, if◌then◌else◌, Result, ok, err, Exec, pure, attempt, ◌>>=◌, ◌>>◌,
}
use omafile.Paths.{FilePath, child, display}
use omafile.Paths.Text.{path_of, strip_prefix}
use omafile.Error.{IoError, TransferError, error_text}
use omafile.Tier.{label, detail}
use omafile.Host.Machine.{World, Host, Entry}
use omafile.Journal.{Journal, open_default, unfinished}
use omafile.Engine.Types.{
  Conflict, skip, replace, keep_both, Options, Outcome, moved, copied, skipped_existing,
}
use omafile.Engine.Silent.{copy_file, move_file}
use omafile.Server.Activation.{Process, Descriptor, serve, on_files}

pub data ExitCode : Type 0 where
  success failure : ExitCode

-- How the program ends: its exit code, and the lines that it wrote to its output and to its error
-- output.
pub record Ending : Type 0 where
  pub code : ExitCode
  pub printed : List Bytes
  pub complained : List Bytes

abbrev pub done : List Bytes → Ending
done lines = record { code = success; printed = lines; complained = [] }

abbrev pub refused : Bytes → Ending
refused line = record { code = failure; printed = []; complained = line ∷ [] }

-- Whether an argument is given.
unfoldable pub has_flag : Bytes → List Bytes → Bool
has_flag flag [] = false
has_flag flag (arg ∷ args) = arg == flag || has_flag flag args

abbrev pub starts_with : Bytes → Bytes → Bool
starts_with prefix arg = elim (strip_prefix prefix arg) [ none ↦ false | some rest ↦ true ]

unfoldable pub positional : List Bytes → List Bytes
positional [] = []
positional (arg ∷ args) =
    let rest = positional args in if starts_with (codes "--") arg then rest else arg ∷ rest

abbrev pub first_of : List Bytes → Option Bytes
first_of [] = none
first_of (x ∷ xs) = some x

-- What follows the first `--socket`.
unfoldable pub socket_argument : List Bytes → Option Bytes
socket_argument [] = none
socket_argument (arg ∷ args) =
    let later = socket_argument args in if arg == codes "--socket" then first_of args else later

unfoldable pub conflict_of : List Bytes → Conflict
unfolding has_flag
conflict_of args =
    if has_flag (codes "--replace") args
    then replace
    else if has_flag (codes "--keep-both") args
    then keep_both
    else skip

abbrev pub options_of : List Bytes → Options
options_of args = record {
  checksum = has_flag (codes "--checksum") args;
  on_conflict = conflict_of args;
}

unfoldable pub socket_path : FilePath → Option Bytes → FilePath
socket_path default_path none = default_path
socket_path default_path (some text) = path_of text

-- `default_socket_path`, from the variable's value.
unfoldable pub default_socket_path : Option FilePath → FilePath
default_socket_path none = child (child [] (codes "tmp")) (codes "omafiled.sock")
default_socket_path (some base) = child base (codes "omafiled.sock")

-- What the program runs with. `home` is where HOME leads, or the working directory.
pub record Setting : Type 0 where
  pub host : Host
  pub connects : ℕ → Result IoError (Unit {0})
  pub io_text : IoError → Bytes
  pub usage : Bytes
  pub state_home : Option FilePath
  pub home : FilePath
  pub runtime_dir : Option FilePath
  pub pid : ℕ
  pub descriptor : Descriptor
  pub incoming : List (Result IoError ℕ)

abbrev pub said : Bytes → Bytes
said text = codes "omafiled: " ++ text

abbrev pub note_of : Bool → Bytes
note_of true = codes " - replaced an existing file"
note_of false = []

module _ (setting : Setting) where
  unfoldable pub outcome_ending : Result TransferError Outcome → Ending
  outcome_ending (ok (moved p)) = done (codes "Moved - same filesystem, nothing was copied" ∷ [])
  outcome_ending (ok skipped_existing) = done (
      codes "Skipped - the destination already exists"
      ∷ codes "  pass --replace to commit over it, or --keep-both to land beside it"
      ∷ [])
  outcome_ending (ok (copied tier bytes replaced p)) =
      done ((label tier ++ note_of replaced) ∷ (codes "  " ++ detail tier bytes) ∷ [])
  outcome_ending (err e) = refused (said (error_text setting.io_text e))

  unfoldable pub serve_ending : Result IoError (Unit {0}) → Ending
  serve_ending (ok _) = done []
  serve_ending (err e) = refused (said (setting.io_text e))

  abbrev pub entry_line : Entry → Bytes
  entry_line e =
      display e.source
      ++ (codes " -> "
          ++ (display e.destination
              ++ (codes "  resumable from "
                  ++ (decimal e.bytes_done
                      ++ (codes " of " ++ (decimal e.expected_size ++ codes " bytes"))))))

  unfoldable pub entry_lines : List Entry → List Bytes
  entry_lines [] = []
  entry_lines (e ∷ es) = entry_line e ∷ entry_lines es

  unfoldable pub unfinished_ending : Result IoError (List Entry) → Ending
  unfinished_ending (ok []) =
      done (codes "Nothing unfinished. (Completed transfers are not recorded.)" ∷ [])
  unfinished_ending (ok (e ∷ es)) = done (entry_lines (e ∷ es))
  unfinished_ending (err e) = refused (said (setting.io_text e))

  abbrev opened : Exec World IoError Journal
  opened = open_default setting.host setting.state_home setting.home

  abbrev pub transferred :
      Bool → Journal → FilePath → FilePath → Options → Exec World TransferError Outcome
  transferred true journal src dst opts = copy_file setting.host journal src dst opts
  transferred false journal src dst opts = move_file setting.host journal src dst opts

  -- `copy` and `move`, from the count of the arguments on.
  unfoldable pub transfer_files :
      {E : Type 0} → Bool → Journal → List Bytes → List Bytes → Exec World E Ending
  transfer_files is_copy journal args (verb ∷ src ∷ dst ∷ rest) = do
    r ← attempt (transferred is_copy journal (path_of src) (path_of dst) (options_of args))
    pure (outcome_ending r)
  transfer_files is_copy journal args words = pure (
      refused (
        said (
          (if is_copy then codes "copy" else codes "move")
          ++ codes " needs a source and a destination")))

  unfoldable pub list_unfinished : {E : Type 0} → Exec World E Ending
  list_unfinished = do
    r ← attempt (do journal ← opened; unfinished setting.host journal)
    pure (unfinished_ending r)

  unfoldable pub run_serve : {E : Type 0} → List Bytes → Exec Process E Ending
  run_serve args = do
    r ← attempt (
        serve setting.host setting.connects setting.pid setting.descriptor
          (socket_path (default_socket_path setting.runtime_dir) (socket_argument args))
          setting.incoming)
    pure (serve_ending r)

  abbrev pub usage_error : Ending
  usage_error = record { code = failure; printed = []; complained = setting.usage ∷ [] }

  -- The match on the first word, with all the words.
  unfoldable pub run_verb : {E : Type 0} → Journal → List Bytes → List Bytes → Exec Process E Ending
  run_verb journal args [] = pure usage_error
  run_verb journal args (verb ∷ words) =
      if verb == codes "serve"
      then run_serve args
      else if verb == codes "unfinished"
      then on_files list_unfinished
      else if verb == codes "copy"
      then on_files (transfer_files true journal args (verb ∷ words))
      else if verb == codes "move"
      then on_files (transfer_files false journal args (verb ∷ words))
      else pure usage_error

  abbrev pub on_opened : {E : Type 0} → List Bytes → Result IoError Journal → Exec Process E Ending
  on_opened args (ok journal) = run_verb journal args (positional args)
  on_opened args (err e) =
      pure (refused (said (codes "cannot open the journal: " ++ setting.io_text e)))

  abbrev pub asks_help : Bytes → Bool
  asks_help arg = arg == codes "-h" || arg == codes "--help"

  unfoldable pub main : {E : Type 0} → List Bytes → Exec Process E Ending
  main [] = pure (done (setting.usage ∷ []))
  main (arg ∷ args) =
      if asks_help arg
      then pure (done (setting.usage ∷ []))
      else (do r ← attempt (on_files opened); on_opened (arg ∷ args) r)
