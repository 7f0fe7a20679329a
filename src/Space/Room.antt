-- ===== src/Space/Room.antt =====
-- daemon/src/space.rs: what an answer about free space says, and when there is none.
use omafile.Prelude.{
  ℕ, ◌*◌, ◌-◌, ◌^◌, ◌≤◌, ◌<◌, min, Bytes, ltb, Bool-cases, ◌==◌, nat_eq, Result, ok, err, ◌≡◌, ◌⊎◌,
  inl, inr, refl, arith, ==_iff,
}
use native.Mathlib.Nat.{mul-le-mul_right}
use omafile.Paths.{FilePath, display}
use omafile.Paths.Text.{IsFree}
use omafile.Error.{IoError}
use omafile.Engine.Verify.{saturating_mul}
use omafile.Server.Rename.{contains}
use omafile.Server.Rename.Bare.{contains-IsFree, contains-true}
use omafile.Space.{StatVfs, Space, block_unit, query, answered, space_of}

module _ (io_text : IoError → Bytes) (statvfs : FilePath → Result IoError StatVfs)
    (path : FilePath) where
  -- The unit of the block counts: the fragment size, or the block size where there is none.
  abbrev pub IsUnit : ℕ → StatVfs → Type 0
  IsUnit unit st =
      ((0 < st.f_frsize) × (unit ≡ st.f_frsize)) ⊎ ((st.f_frsize ≡ 0) × (unit ≡ st.f_bsize))

  -- The whole is all blocks in bytes and the room is those free to a caller, each up to the largest
  -- u64; an error has no numbers, and is a path with a NUL, the call's own error, or a file system
  -- without a unit.
  abbrev pub IsRoom : Result Bytes Space → Type 0
  IsRoom (ok s) =
      IsFree 0 (display path)
      × ((st : StatVfs) × ((unit : ℕ) × ((statvfs path ≡ ok st)
              × ((IsUnit unit st × (0 < unit))
                  × ((s.total ≡ min (st.f_blocks * unit) (2 ^ 64 - 1))
                      × ((s.available ≡ min (st.f_bavail * unit) (2 ^ 64 - 1))
                          × (s.available ≤ s.total)))))))
  IsRoom (err text) =
      (¬ IsFree 0 (display path))
      ⊎ (((e : IoError) × (statvfs path ≡ err e))
          ⊎ ((st : StatVfs) × ((statvfs path ≡ ok st) × ((st.f_frsize ≡ 0) × (st.f_bsize ≡ 0)))))

  times_mono : (a b c : ℕ) → a ≤ b → saturating_mul a c ≤ saturating_mul b c
  unfolding saturating_mul
  times_mono a b c h = omega (arith, mul-le-mul_right c h)

  times-min : (a b : ℕ) → saturating_mul a b ≡ min (a * b) (2 ^ 64 - 1)
  unfolding saturating_mul
  times-min a b = refl

  block_unit-IsUnit : (st : StatVfs) → IsUnit (block_unit st) st
  unfolding block_unit
  block_unit-IsUnit st = elim (Bool-cases (ltb 0 st.f_frsize)) [
    | inl e ↦ rw e (inl (ground (arith, e), refl))
    | inr e ↦ rw e (inr (ground (arith, e), refl))
  ]

  no_unit : (st : StatVfs) → block_unit st ≡ 0 → (st.f_frsize ≡ 0) × (st.f_bsize ≡ 0)
  no_unit st e = elim (block_unit-IsUnit st) [
    | inl (some_size, same) ↦ absurd (omega (arith, some_size, same, e))
    | inr (none_there, same) ↦ (none_there, omega (arith, same, e))
  ]

  space_of-IsRoom :
      (st : StatVfs)
      → IsFree 0 (display path)
      → statvfs path ≡ ok st
      → st.f_bavail ≤ st.f_blocks
      → IsRoom (space_of path st)
  space_of-IsRoom st free e sane = elim (Bool-cases (block_unit st == 0)) [
    | inl h ↦ rw h (inr (inr (st, (e, no_unit st ((==_iff (block_unit st) 0).0 h)))))
    | inr h ↦ rw h (
      free,
      (
        st,
        (
          block_unit st,
          (
            e,
            (
              (block_unit-IsUnit st, ground (arith, h)),
              (
                times-min st.f_blocks (block_unit st),
                (
                  times-min st.f_bavail (block_unit st),
                  times_mono st.f_bavail st.f_blocks (block_unit st) sane,
                ),
              ),
            ),
          ),
        ),
      ),
    )
  ]

  answered-IsRoom :
      ((st : StatVfs) → statvfs path ≡ ok st → st.f_bavail ≤ st.f_blocks)
      → IsFree 0 (display path)
      → (r : Result IoError StatVfs) → statvfs path ≡ r
      → IsRoom (answered io_text path r)
  answered-IsRoom sane free (ok st) e = space_of-IsRoom st free e (sane st e)
  answered-IsRoom sane free (err x) e = inr (inl (x, e))

  -- Where a file system never offers more blocks than it has, an answer about free space is of the
  -- file system that was asked about: the whole is its blocks and the room is the blocks free to a
  -- caller, each times the fragment size, or the block size where no fragment size is reported, and
  -- at most the largest u64; the room is no more than the whole. There is an error instead of
  -- numbers only for a path with a NUL, where the call fails, and where neither size is reported.
  pub query-IsRoom :
      ((st : StatVfs) → statvfs path ≡ ok st → st.f_bavail ≤ st.f_blocks)
      → IsRoom (query io_text statvfs path)
  unfolding query
  query-IsRoom sane = elim (Bool-cases (contains 0 (display path))) [
    | inl e ↦ rw e (inl (contains-true 0 (display path) e))
    | inr e ↦ rw e (answered-IsRoom sane (contains-IsFree 0 (display path) e) (statvfs path) refl)
  ]
