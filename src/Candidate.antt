-- ===== src/Candidate.antt =====
-- internal/candidate/write.go: the daemon leaves a configuration where the helper looks for it.
pub mod Handover
mod Tests
use ez_vpn_lego.Prelude.{
  ℕ, String, ◌<>◌, ◌||◌, Bool, true, false, Option, none, some, List, [], take, ◌==◌, string_eq,
  if◌then◌else◌,
}
use ez_vpn_lego.Helper.Disk.{File, World, held, synced}

pub data CandidateError : Type 0 where
  directory_failed create_failed write_failed sync_failed close_failed : CandidateError

-- The calls of the operating system that fail; a failing write has written some of the content.
pub record CandidateFaults : Type 0 where
  pub mkdir : Bool
  pub create : Bool
  pub write : Bool
  pub written : ℕ
  pub sync : Bool
  pub close : Bool

abbrev pub private_file : List ℕ → File
private_file content = record { content = content; mode = 0o600; regular = true }

abbrev stored : World → String → List ℕ → World
stored w path content = held w path (private_file content)

abbrev is_there : Option File → Bool
is_there none = false
is_there (some file) = true

-- What follows `os.OpenFile`; no step removes the file that it has made.
write_created : CandidateFaults → String → List ℕ → World → Option CandidateError × World
write_created f path content w =
    if f.write
    then (some write_failed, stored w path (take f.written content))
    else let full = stored w path content in
      if f.sync
      then (some sync_failed, full)
      else (if f.close then some close_failed else none, synced full path)

-- `Write`; a file that is there already is an error, by `O_EXCL`.
unfoldable pub write :
    CandidateFaults → String → String → List ℕ → World → Option CandidateError × World
unfolding write_created
write f directory revision_id content w =
    let path = directory <> "/" <> revision_id <> ".json" in
    if f.mkdir
    then (some directory_failed, w)
    else if f.create || is_there (w.disk path)
    then (some create_failed, w)
    else write_created f path content (stored w path [])
