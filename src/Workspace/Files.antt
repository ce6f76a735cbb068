-- ===== src/Workspace/Files.antt =====
-- The file operations of std::fs that the queue uses, on a table of files. A file is named by its directory
-- and its file name. Creating a directory has no effect on files, and the operations do not fail by
-- themselves.
pub mod Steps
use millrace_rs.Base.{
  String, ◌==◌, eq_iff, ◌≡◌, ◌≢◌, Bool, ◌&&◌, Option, none, some, is_some, unwrap_or, if◌then◌else◌,
  Result, ok, err, arith,
}
use millrace_rs.Base.Text.{concat}
use millrace_rs.Contracts.Error.{ContractError}

-- What `InvalidState` tells: a text, or the text of a contract error.
pub data StateMessage : Type 0 where
  text : String → StateMessage
  of_contract : ContractError → StateMessage

-- workspace/queue_store.rs: `io` has the path, and `work_document` has the file's directory and name, and the text of the document's error.
pub data QueueStoreError : Type 0 where
  invalid_state : StateMessage → QueueStoreError
  io : String → QueueStoreError
  work_document : String → String → String → QueueStoreError

abbrev pub Files : Type 0
Files = String → String → Option String

abbrev pub FilePath : Type 0
FilePath = String × String

-- A fallible operation that reads and writes files: on an error the files are as it left them.
abbrev pub StepOf : Type 0 → Type 0 → Type 0
StepOf E A = Files → Result E A × Files

abbrev pub FileStep : Type 0 → Type 0
FileStep = StepOf QueueStoreError

module _ {E A B : Type 0} where
  abbrev pub continue : Result E A → (A → StepOf E B) → StepOf E B
  continue (ok a) f files = f a files
  continue (err e) f files = (err e, files)

  infixl 5 ◌>>=◌
  unfoldable pub ◌>>=◌ : StepOf E A → (A → StepOf E B) → StepOf E B
  ◌>>=◌ m f files = let (r, files') = m files in continue r f files'

abbrev pub pure : {E A : Type 0} → A → StepOf E A
pure a files = (ok a, files)

abbrev pub fail : {A : Type 0} → String → FileStep A
fail message files = (err (invalid_state (text message)), files)

abbrev pub lift : {A : Type 0} → Result ContractError A → FileStep A
lift (ok a) files = (ok a, files)
lift (err e) files = (err (invalid_state (of_contract e)), files)

unfoldable pub is_at : String → String → String → String → Bool
is_at dir name d n = dir == d && name == n

unfoldable pub write : Files → String → String → Option String → Files
write files dir name content d n = if is_at dir name d n then content else files d n

-- `Path::exists`
abbrev pub exists : String → String → FileStep Bool
exists dir name files = (ok (is_some (files dir name)), files)

-- `fs::rename` of a file to another directory
unfoldable pub moved : Files → String → String → String → Files
moved files source destination name =
    write (write files source name none) destination name (files source name)

abbrev pub rename : String → String → String → FileStep (Unit {0})
rename source destination name files = (ok tt, moved files source destination name)

-- `fs::rename` within a directory
unfoldable pub renamed : Files → String → String → String → Files
renamed files dir name destination =
    write (write files dir name none) dir destination (files dir name)

-- `write_all` on a file opened for appending, which is created if it is missing
unfoldable pub appended : Files → String → String → String → Files
appended files dir name line =
    write files dir name (some (concat (unwrap_or (files dir name) "") line))

abbrev pub append : String → String → String → FileStep (Unit {0})
append dir name line files = (ok tt, appended files dir name line)

pub write-here :
    (files : Files) (dir name : String) (content : Option String)
    → write files dir name content dir name ≡ content
unfolding write is_at
write-here files dir name content = ground (arith, eq_iff dir dir, eq_iff name name)

pub write-other_dir :
    (files : Files) (dir name d n : String) (content : Option String)
    → dir ≢ d
    → write files dir name content d n ≡ files d n
unfolding write is_at
write-other_dir files dir name d n content apart = ground (arith, eq_iff dir d)

pub write-other_name :
    (files : Files) (dir name d n : String) (content : Option String)
    → name ≢ n
    → write files dir name content d n ≡ files d n
unfolding write is_at
write-other_name files dir name d n content apart = ground (arith, eq_iff name n)
