-- ===== src/Server/Protocol.antt =====
-- daemon/src/protocol.rs: what a client asks for, and what it is told. Paths in requests are given
-- as their components.
use omafile.Prelude.{ℕ, Bytes, List, Bool, Option}
use omafile.Paths.{FilePath}
use omafile.Host.Machine.{Phase}
use omafile.Engine.Types.{Conflict}

pub data Request : Type 0 where
  hello : ℕ → Bytes → Request
  state : ℕ → Request
  copy : ℕ → List FilePath → FilePath → Bool → Conflict → Request
  move : ℕ → List FilePath → FilePath → Bool → Conflict → Request
  conflicts : ℕ → List FilePath → FilePath → Request
  delete : ℕ → FilePath → Request
  can_trash : ℕ → FilePath → Request
  restore : ℕ → FilePath → FilePath → Request
  rename : ℕ → FilePath → Bytes → Request
  release : ℕ → Bytes → Request
  space : ℕ → FilePath → Request

pub record Landed : Type 0 where
  pub asked : Bytes
  pub name : Bytes

-- `done` is the quotient that the code takes of two numbers, not rounded to an f64.
pub record JobView : Type 0 where
  pub job : Bytes
  pub label : Bytes
  pub file : Bytes
  pub source : FilePath
  pub destination : FilePath
  pub phase : Option Phase
  pub done : ℕ × ℕ
  pub files_done : ℕ
  pub files_total : ℕ
  pub files_skipped : ℕ
  pub files_replaced : ℕ
  pub files_skipped_existing : ℕ
  pub bytes : ℕ
  pub expected : ℕ
  pub outcome : Option Bytes
  pub tier : Option Bytes
  pub strength : Option ℕ
  pub detail : Option Bytes
  pub landed_as : List Landed
  pub error : Option Bytes

unfoldable pub request_id : Request → ℕ
request_id (hello id version) = id
request_id (state id) = id
request_id (copy id sources dir checksum on_conflict) = id
request_id (move id sources dir checksum on_conflict) = id
request_id (conflicts id sources dir) = id
request_id (delete id path) = id
request_id (can_trash id path) = id
request_id (restore id trashed_as info) = id
request_id (rename id path new_name) = id
request_id (release id job) = id
request_id (space id path) = id

pub data Event : Type 0 where
  tick : ℕ → Event
  greeting : ℕ → Bytes → ℕ → Event
  snapshot : ℕ → List JobView → Event
  reply : ℕ → ℕ → Option Bytes → Option Bytes → Event
  deleted : ℕ → ℕ → FilePath → Bool → Option FilePath → Option FilePath → Option Bytes → Event
  trash_available : ℕ → ℕ → FilePath → Bool → Event
  restored : ℕ → ℕ → Option FilePath → Option Bytes → Event
  renamed : ℕ → ℕ → FilePath → Option FilePath → Option Bytes → Event
  in_the_way : ℕ → ℕ → List Bytes → Event
  room : ℕ → ℕ → FilePath → Option ℕ → Option ℕ → Option Bytes → Event
  progress finished failed : ℕ → JobView → Event
