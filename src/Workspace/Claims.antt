-- ===== src/Workspace/Claims.antt =====
-- workspace/queue_store.rs: how queued work items become active. The directories' listings, the texts of the log
-- of invalid artifacts and the decimal form of a number are those of the host, which std, serde_json and
-- time give.
pub mod Listing
pub mod Endings
pub mod Quarantine
pub mod QuarantineEnds
pub mod Documents
pub mod Select
pub mod Selected
pub mod Found
pub mod Claim
pub mod Returns
pub mod Claimed
pub mod OldestTask
pub mod Enqueue
pub mod Enqueued
pub mod EnqueueClaim
mod Examples
use millrace_rs.Base.{String, ℕ, List, ◌≡◌, true, some, Has}
use millrace_rs.Base.Text.{all_chars, is_digit}
use millrace_rs.Workspace.Files.{Files}

-- `read_dir` names the files of a directory, `decimal` is `Display` for an integer, and
-- `invalid_artifact_line` is the record of a quarantine: the error, the new name and the old one.
pub record Host : Type 0 where
  pub read_dir : Files → String → List String
  pub decimal : ℕ → String
  pub invalid_artifact_line : String → String → String → String

-- Numbers are printed in digits, and different numbers differently.
pub record HostLaws (host : Host) : Type 0 where
  pub digits : (k : ℕ) → all_chars is_digit (host.decimal k) ≡ true
  pub decimal_injective : (j k : ℕ) → host.decimal j ≡ host.decimal k → j ≡ k

-- The listing of a directory has every file in it.
unfoldable pub ListsAll : Host → Files → String → Type 0
ListsAll host files directory =
    (name content : String)
    → files directory name ≡ some content
    → Has name (host.read_dir files directory)
