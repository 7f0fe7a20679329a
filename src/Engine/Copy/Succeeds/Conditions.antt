-- ===== src/Engine/Copy/Succeeds/Conditions.antt =====
-- What a copy on a machine on which no call fails finds before each of its calls.
use omafile.Prelude.{
  Bytes, Bool, true, Option, none, some, ◌==◌, ==_ne, list_eq, nat_eq, Bool-cases, inl, inr, ◌≡◌,
  ◌≢◌, sym, ap, ◌∙◌, arith,
}
use omafile.Paths.{FilePath}
use omafile.Host.Machine.{Node, file, dir, Files, Host}
use omafile.Host.Calls.{put_node, dir_of}
use omafile.Host.Works.{is_writable}
use omafile.FsOps.{temp_path_for}
use omafile.Journal.{Journal, path_for, part_for}

pub filled_empty : {A : Type 0} {a : A} → some a ≡ none → ⊥
filled_empty e = cc

writable_not_dir : is_writable (some dir) ≡ true → ⊥
unfolding is_writable
writable_not_dir e = cc

-- A path that can be written to is not one where a directory is.
writable-apart :
    (p q : FilePath) (files : Files) → is_writable (files p) ≡ true → files q ≡ some dir → q ≢ p
writable-apart p q files free there e =
    let here : files p ≡ some dir = ap files (sym e) ∙ there in
    writable_not_dir (ap is_writable (sym here) ∙ free)

pub put_other :
    (p q : FilePath) (v n : Option Node) (files : Files)
    → files q ≡ n
    → q ≢ p
    → put_node p v files q ≡ n
put_other p q v n files h apart = ground (arith, h, ==_ne q p apart)

put_writable :
    (p q : FilePath) (v : Option Node) (files : Files)
    → is_writable v ≡ true
    → is_writable (files q) ≡ true
    → is_writable (put_node p v files q) ≡ true
put_writable p q v files free h = elim (Bool-cases (q == p)) [ inl e ↦ rw e free | inr e ↦ rw e h ]

module _ (host : Host) (journal : Journal) (src dst : FilePath) where
  abbrev pub temp_file : FilePath
  temp_file = temp_path_for dst

  abbrev pub part_file : FilePath
  part_file = part_for host journal dst

  abbrev pub entry_file : FilePath
  entry_file = path_for host journal dst

  -- The paths that are written to are not the source, and the journal's are not the others.
  pub record Apart : Type 0 where
    pub src_temp : src ≢ temp_file
    pub src_part : src ≢ part_file
    pub src_entry : src ≢ entry_file
    pub src_dst : src ≢ dst
    pub entry_temp : entry_file ≢ temp_file
    pub dst_entry : dst ≢ entry_file

  module _ (c : Bytes) (d : Bool) where
    pub record Ready (files : Files) : Type 0 where
      pub source : files src ≡ some (file c d)
      pub source_in : files (dir_of src) ≡ some dir
      pub into : files (dir_of dst) ≡ some dir
      pub recorded_in : files journal.folder ≡ some dir
      pub temp_free : is_writable (files temp_file) ≡ true
      pub part_free : is_writable (files part_file) ≡ true
      pub entry_free : is_writable (files entry_file) ≡ true
      pub dst_free : is_writable (files dst) ≡ true

    pub Ready-put_node :
        (p : FilePath) (v : Option Node) (files : Files)
        → Ready files
        → src ≢ p
        → is_writable (files p) ≡ true
        → is_writable v ≡ true
        → Ready (put_node p v files)
    Ready-put_node p v files r apart was free = record {
      source = put_other p src v (some (file c d)) files r.source apart;
      source_in = dir_kept (dir_of src) r.source_in;
      into = dir_kept (dir_of dst) r.into;
      recorded_in = dir_kept journal.folder r.recorded_in;
      temp_free = put_writable p temp_file v files free r.temp_free;
      part_free = put_writable p part_file v files free r.part_free;
      entry_free = put_writable p entry_file v files free r.entry_free;
      dst_free = put_writable p dst v files free r.dst_free;
    }
      where
        dir_kept : (q : FilePath) → files q ≡ some dir → put_node p v files q ≡ some dir
        dir_kept q there =
            put_other p q v (some dir) files there (writable-apart p q files was there)
