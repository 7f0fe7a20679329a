-- ===== src/Trash/Date/Line.antt =====
-- daemon/src/trash.rs: a date is one line of the trash record.
use omafile.Prelude.{ℕ, ◌<◌, arith}
use omafile.Paths.Text.{IsFree}
use omafile.Trash.Restore.Undone.{IsLine}
use omafile.Trash.Date.{Civil, iso8601}

iso8601-IsFree : (at : ℕ) (c : Civil) → at < 45 → IsFree at (iso8601 c)
unfolding iso8601
iso8601-IsFree at c small = ground (arith, small)

pub iso8601-IsLine : (c : Civil) → IsLine (iso8601 c)
iso8601-IsLine c = (iso8601-IsFree 10 c (omega arith), iso8601-IsFree 13 c (omega arith))
