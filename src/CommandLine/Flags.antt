-- ===== src/CommandLine/Flags.antt =====
-- daemon/src/main.rs: what the flags allow.
use omafile.Prelude.{
  ◌<◌, ◌^◌, Bytes, codes, List, [], ◌∷◌, true, false, Bool-cases, Option, none, some, Result, ok,
  err, ◌≡◌, ◌≢◌, inl, inr, refl, sym, ◌∙◌, list_beq, list_eq, nat_eq,
}
use omafile.Prelude.Action.Post.{Post, bind-Post, pure-Post, attempt-bind-Post}
use omafile.Paths.{FilePath}
use omafile.Paths.Text.{path_of}
use omafile.Error.{IoError}
use omafile.Host.Machine.{Node, World}
use omafile.Host.Calls.{dir_of, node_len}
use omafile.Host.Keeps.{node_at}
use omafile.Host.Dirs.{create_dir_all, create_dir_all-Stays}
use omafile.Journal.{Journal, open_at, default_folder}
use omafile.Journal.Keeps.{IsOutside}
use omafile.Engine.Types.{replace}
use omafile.Engine.FreeName.Chosen.{StatsWork}
use omafile.Engine.Stream.Filled.{IsBounded}
use omafile.Engine.Silent.{silently, copy_file}
use omafile.Engine.Copy.Plain.{IsPlain}
use omafile.Engine.Copy.Safety.{size_at, copy_file-preserves}
use omafile.Server.Activation.{Process, on_files, on_files-Post}
use omafile.CommandLine.{
  has_flag, positional, conflict_of, options_of, Setting, transfer_files, run_verb, on_opened,
  asks_help, main, outcome_ending,
}

conflict_of-not_replace :
    (args : List Bytes) → has_flag (codes "--replace") args ≡ false → conflict_of args ≢ replace
unfolding conflict_of
conflict_of-not_replace args no_flag =
    rw no_flag (elim (Bool-cases (has_flag (codes "--keep-both") args)) [
      | inl e ↦ rw e (λ p. cc)
      | inr e ↦ rw e (λ p. cc)
    ])

-- A copy from one text to another, of a node that is there.
module _ (setting : Setting) (src dst : Bytes) (n : Node) (q : FilePath) (m : Node)
    (bounded : IsBounded setting.host) (works : StatsWork setting.host)
    (fits : node_len setting.host n < 2 ^ 63) (src_plain : IsPlain (path_of src))
    (q_plain : IsPlain q) where
  abbrev journal : Journal
  journal = record { folder = default_folder setting.state_home setting.home }

  abbrev Both : World → Type 0
  Both w = (node_at (path_of src) w ≡ some n) × (node_at q w ≡ some m)

  abbrev IsOpened : {E : Type 0} → Result E Journal → World → Type 0
  IsOpened (ok j) t = (j ≡ journal) × Both t
  IsOpened (err _) t = Both t

  open_at-IsOpened : (w : World) → Both w → Post IsOpened (open_at setting.host journal.folder) w
  unfolding open_at
  open_at-IsOpened w (a, b) =
      bind-Post (λ _ t. Both t) IsOpened (create_dir_all setting.host journal.folder) _ w
        (
          create_dir_all-Stays setting.host (path_of src) n journal.folder w a,
          create_dir_all-Stays setting.host q m journal.folder w b,
        )
        (λ _ t h. pure-Post IsOpened journal t (refl, h)) (λ _ _ h. h)

  module _ (dst_outside : IsOutside journal (dir_of (path_of dst)))
      (q_outside : IsOutside journal (dir_of q)) (args : List Bytes)
      (no_flag : has_flag (codes "--replace") args ≡ false) where
    abbrev Same : {E A : Type 0} → Result E A → World → Type 0
    Same _ t = node_at q t ≡ some m

    some-none : Option.some m ≡ none → ⊥
    some-none e = cc

    copy-preserves :
        (w : World)
        → Both w
        → Post Same (copy_file setting.host journal (path_of src) (path_of dst) (options_of args)) w
    unfolding copy_file silently
    copy-preserves w (a, b) =
        copy_file-preserves setting.host journal (path_of src) (path_of dst) (options_of args) w
          bounded (rw (a, size_at) fits) dst_outside src_plain works
          (conflict_of-not_replace args no_flag) q q_plain q_outside
          (λ absent. some-none (sym b ∙ absent))
        ∙ b

    transfer_files-preserves :
        (rest : List Bytes) (verb : Bytes) (w : World)
        → Both w
        → Post {E = IoError} Same
            (transfer_files setting true journal args (verb ∷ src ∷ dst ∷ rest))
            w
    unfolding transfer_files
    transfer_files-preserves rest verb w h =
        attempt-bind-Post Same Same
          (copy_file setting.host journal (path_of src) (path_of dst) (options_of args)) _ w
          (copy-preserves w h) (λ r t same. pure-Post Same (outcome_ending setting r) t same)

    abbrev pub SameLater : {E A : Type 0} → Result E A → Process → Type 0
    SameLater _ t = node_at q t.world ≡ some m

    run_verb-preserves :
        (rest : List Bytes) (p : Process)
        → Both p.world
        → Post {E = IoError} SameLater
            (run_verb setting journal args (codes "copy" ∷ src ∷ dst ∷ rest))
            p
    unfolding run_verb on_files list_beq
    run_verb-preserves rest p h = transfer_files-preserves rest (codes "copy") p.world h

    on_opened-preserves :
        (rest : List Bytes) (r : Result IoError Journal) (p : Process)
        → positional args ≡ codes "copy" ∷ src ∷ dst ∷ rest
        → IsOpened r p.world
        → Post {E = IoError} SameLater (on_opened setting args r) p
    on_opened-preserves rest (ok j) p words (e, h) = rw (e, words) (run_verb-preserves rest p h)
    on_opened-preserves rest (err e) p words h = pure-Post SameLater _ p h.1

    main-go :
        (given rest : List Bytes) (p : Process)
        → given ≡ args
        → positional args ≡ codes "copy" ∷ src ∷ dst ∷ rest
        → Both p.world
        → Post {E = IoError} SameLater (main setting given) p
    unfolding main
    main-go [] rest p same words h = pure-Post SameLater _ p h.1
    main-go (arg ∷ given) rest p same words h = elim (Bool-cases (asks_help setting arg)) [
      | inl e ↦ rw e (pure-Post SameLater _ p h.1)
      | inr e ↦
          rw (e, same)
            (attempt-bind-Post (λ r t. IsOpened r t.world) SameLater
              (on_files (open_at setting.host journal.folder)) _ p
              (on_files-Post IsOpened (open_at setting.host journal.folder) p
                (open_at-IsOpened p.world h))
              (λ r t opened. on_opened-preserves rest r t words opened))
    ]

    -- A command `copy` of what is there without `--replace` leaves every file and directory that was
    -- there, but for temporary files and the journal's folder, as it was, whatever fails.
    -- It holds where file names can be looked up, no row of reads delivers 2^63 bytes, the source is
    -- smaller than 2^63 bytes and is no temporary file, and the destination's directory is outside the
    -- journal's folder.
    pub main-preserves :
        (rest : List Bytes) (p : Process)
        → positional args ≡ codes "copy" ∷ src ∷ dst ∷ rest
        → node_at (path_of src) p.world ≡ some n
        → node_at q p.world ≡ some m
        → Post {E = IoError} SameLater (main setting args) p
    main-preserves rest p words a b = main-go args rest p refl words (a, b)
