-- ===== src/Engine/Copy/Succeeds/Streaming.antt =====
-- `stream` succeeds on a machine on which no call fails.
use omafile.Prelude.{
  ℕ, Bytes, List, [], ◌∷◌, ◌++◌, Bool, true, false, none, some, length, inl, ◌≡◌, refl, ap, ◌∙◌,
  arith,
}
use omafile.Prelude.Action.Post.{Post, pure-Post}
use omafile.Prelude.Action.Done.{Done, bind-Done, lift-Done, Done-map, Done-and}
use omafile.Paths.{FilePath}
use omafile.Error.{IoError, TransferError, io}
use omafile.Host.Machine.{file, World, Host, Read, chunk, failed, payload, read_error}
use omafile.Host.Calls.{open_read, write_at, report}
use omafile.Host.Works.{NoFaults, ReadsWhole, open_read-Done, read_tape-Done}
use omafile.Journal.{Journal}
use omafile.Engine.Stream.{add64, copy_chunks, stream, open_temp}
use omafile.Engine.Stream.Filled.{IsBounded, Streamed, stream-Streamed}
use omafile.Engine.Copy.Succeeds.Conditions.{Apart, temp_file}
use omafile.Engine.Copy.Succeeds.Recording.{Ok, At, dir_of-temp_file}
use omafile.Engine.Copy.Succeeds.Writing.{create-Holding, write-Holding, sync-Holding}

length_zero : (x : Bytes) → length x ≡ 0 → x ≡ []
length_zero [] h = refl
length_zero (b ∷ bs) h = absurd (omega (arith, h))

failed_some : (e : IoError) → read_error (failed e ∷ []) ≡ none → ⊥
failed_some e h = cc

module _ (host : Host) (works : NoFaults host) (journal : Journal) (src dst : FilePath) (c : Bytes)
    (d : Bool) (apart : Apart host journal src dst) where
  abbrev Okay : World → Type 0
  Okay t = Ok host works journal src dst c d apart t

  abbrev temp : FilePath
  temp = temp_file host journal src dst

  abbrev HasTemp : World → Type 0
  HasTemp t = (x : Bytes) × (b : Bool) × At host works journal src dst c d apart temp x b t

  copy_chunks-Done :
      (expected : ℕ) (reads : List Read) (total : ℕ) (t : World)
      → read_error reads ≡ none
      → HasTemp t
      → Post (Done (λ _ u. HasTemp u)) (copy_chunks host temp expected reads total) t
  unfolding copy_chunks report
  copy_chunks-Done expected [] total t none_failed h = pure-Post (Done (λ _ u. HasTemp u)) total t h
  copy_chunks-Done expected (failed e ∷ rs) total t none_failed h =
      absurd (failed_some e none_failed)
  copy_chunks-Done expected (chunk [] ∷ rs) total t none_failed h =
      pure-Post (Done (λ _ u. HasTemp u)) total t h
  copy_chunks-Done expected (chunk (b ∷ bs) ∷ rs) total t none_failed (x, f, h) =
      lift-Done
        (λ _ u. At host works journal src dst c d apart temp (write_at total (b ∷ bs) x) false u)
        (Done (λ _ u. HasTemp u)) _ io _ t
        (write-Holding host works journal src dst c d apart temp total (b ∷ bs) x f t apart.src_temp
          h)
        (λ _ u k.
          bind-Done (λ _ v. HasTemp v) (Done (λ _ u. HasTemp u)) _ _ u
            (write_at total (b ∷ bs) x, false, k)
            (λ _ v l. copy_chunks-Done expected rs (add64 total (length (b ∷ bs))) v none_failed l))

  abbrev reads_of : ℕ → List Read
  reads_of t = host.reads t c

  module _ (whole : ReadsWhole host c) where
    fill :
        (expected : ℕ) (t : World)
        → Okay t
        → Post (Done (λ _ u. Okay u)) (stream host src temp 0 expected) t
    unfolding stream open_temp
    fill expected t r =
        lift-Done (λ _ u. Okay u) (Done (λ _ u. Okay u)) _ io _ t
          (Done-map _ _ (open_read host src) t (open_read-Done host works src (file c d) t r.source)
            (λ _ u k. rw (k.1) r))
          (λ _ u r'.
            lift-Done (λ _ v. At host works journal src dst c d apart temp [] false v)
              (Done (λ _ u. Okay u)) _ io _ u
              (create-Holding host works journal src dst c d apart temp u r' apart.src_temp
                r'.temp_free (rw (dir_of-temp_file host works journal src dst c d apart) r'.into))
              (λ _ v h.
                bind-Done (λ reads v'. (reads ≡ host.reads v.clock c) × (v'.files ≡ v.files))
                  (Done (λ _ u. Okay u)) _ _ v
                  (read_tape-Done host works TransferError src c d v h.0.source)
                  (λ reads v' k.
                    bind-Done (λ _ n. HasTemp n) (Done (λ _ u. Okay u)) _ _ v'
                      (copy_chunks-Done expected reads 0 v'
                        (ap read_error (k.0) ∙ (whole v.clock).0) ([], false, (rw (k.1) h)))
                      (λ total n (x, b, full).
                        lift-Done (λ _ o. At host works journal src dst c d apart temp x true o)
                          (Done (λ _ u. Okay u)) _ io _ n
                          (sync-Holding host works journal src dst c d apart temp x b n
                            apart.src_temp full)
                          (λ _ o flushed. pure-Post (Done (λ _ u. Okay u)) total o flushed.0)))))

    -- The temporary file is then the source, flushed.
    pub stream-Holding :
        (expected : ℕ) (t : World)
        → IsBounded host
        → Okay t
        → Post
            (Done (λ n u. (n ≡ length c) × At host works journal src dst c d apart temp c true u))
            (stream host src temp 0 expected)
            t
    stream-Holding expected t bounded r =
        Done-and (λ _ u. Okay u) _ (Streamed host temp 0 (some (file c d)))
          (stream host src temp 0 expected) t (fill expected t r)
          (stream-Streamed host src temp expected 0 (some (file c d)) apart.src_temp bounded
            (omega arith) t (inl refl) r.source)
          (λ n u r' (old, at, empty, there, count).
            let same : old ++ payload (host.reads at c) ≡ c =
              rw (length_zero old empty, (whole at).1) refl in
            (count ∙ ap length same, (r', there ∙ ap (λ x. some (file x true)) same)))
