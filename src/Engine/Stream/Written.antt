-- ===== src/Engine/Stream/Written.antt =====
-- What `stream` leaves at the temporary path.
use native.Mathlib.Nat.{mod-eq_of_lt}
use omafile.Prelude.{
  ℕ, ◌+◌, ◌<◌, Bytes, List, [], ◌∷◌, ◌++◌, Bool, false, some, length, length-append, take-length,
  drop_all, ==_refl, list_eq, nat_eq, Result, ok, err, ◌≡◌, refl, sym, ◌∙◌, arith,
}
use mathlib.Core.List.{append-nil, append_assoc}
use omafile.Prelude.Action.Post.{Post, bind-Post, pure-Post, raise-Post, lift-bind-Post}
use omafile.Paths.{FilePath}
use omafile.Error.{IoError, TransferError, io}
use omafile.Host.Machine.{file, Read, chunk, failed, payload, copying, World, Host}
use omafile.Host.Calls.{write_at, write_all}
use omafile.Host.Keeps.{node_at, report-Keeps}
use omafile.Engine.Stream.{u64_mod, add64, copy_chunks}

write_at_end : (c x : Bytes) → write_at (length c) x c ≡ c ++ x
write_at_end c x = rw (take-length c, drop_all (length c + length x) c (omega arith), append-nil)

module _ (host : Host) (temp : FilePath) where
  -- On success the bytes written follow what the file held.
  abbrev pub Appended : Bytes → Bytes → Result IoError (Unit {0}) → World → Type 0
  Appended c x (ok _) w = node_at temp w ≡ some (file (c ++ x) false)
  Appended c x (err _) w = Unit {0}

  write_all-Appended :
      (c x : Bytes) (d : Bool) (w : World)
      → node_at temp w ≡ some (file c d)
      → Post (Appended c x) (write_all host temp (length c) x) w
  unfolding write_all
  write_all-Appended c x d w h = ground (arith, write_at_end c x, ==_refl temp)

  -- On success the file holds all that was read, and the count is its length.
  abbrev pub Filled : Bytes → Result TransferError ℕ → World → Type 0
  Filled c (ok n) w = (d : Bool) × (node_at temp w ≡ some (file c d)) × (n ≡ length c)
  Filled c (err _) w = Unit {0}

  add64_small : (a b : ℕ) → a + b < u64_mod → add64 a b ≡ a + b
  unfolding add64
  add64_small a b h = mod-eq_of_lt h

  -- The running total is the length of what has been written.
  total-length :
      (c x : Bytes) → length c + length x < u64_mod → add64 (length c) (length x) ≡ length (c ++ x)
  total-length c x h = add64_small _ _ h ∙ sym (length-append c x)

  pub copy_chunks-Filled :
      (expected : ℕ) (reads : List Read) (c : Bytes) (d : Bool) (w : World)
      → node_at temp w ≡ some (file c d)
      → length c + length (payload reads) < u64_mod
      → Post (Filled (c ++ payload reads)) (copy_chunks host temp expected reads (length c)) w
  unfolding copy_chunks
  copy_chunks-Filled expected [] c d w h small =
      rw append-nil (pure-Post (Filled c) (length c) w (d, h, refl))
  copy_chunks-Filled expected (failed e ∷ rest) c d w h small =
      raise-Post (Filled (c ++ [])) (io e) w tt
  copy_chunks-Filled expected (chunk [] ∷ rest) c d w h small =
      rw append-nil (pure-Post (Filled c) (length c) w (d, h, refl))
  copy_chunks-Filled expected (chunk (b ∷ bs) ∷ rest) c d w h small =
      lift-bind-Post (Appended c (b ∷ bs)) (Filled (c ++ (b ∷ bs ++ payload rest))) _ io _ w
        (write_all-Appended c (b ∷ bs) d w h)
        (λ _ t wrote.
          bind-Post (λ _ u. node_at temp u ≡ node_at temp t)
            (Filled (c ++ (b ∷ bs ++ payload rest))) _ _ t
            ((report-Keeps host temp copying _ _).at t)
            (λ _ u same.
              rw (total-length c (b ∷ bs) (omega (arith, length-append (b ∷ bs) (payload rest)))) (
                rw (← append_assoc c (b ∷ bs) (payload rest)) (
                  copy_chunks-Filled expected rest (c ++ (b ∷ bs)) false u (same ∙ wrote) (
                    omega
                      (arith, length-append (b ∷ bs) (payload rest), length-append c (b ∷ bs))))))
            (λ _ _ _. tt))
        (λ _ _ _. tt)
