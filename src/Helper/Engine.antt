-- ===== src/Helper/Engine.antt =====
-- internal/helper/apply.go, `Engine.Apply` with `readCandidate` and `readCurrent`; and
-- internal/helper/system.go, the validator and the service that it is given. `Env` says how the
-- operating system, the Xray binary and systemd answer during one call.
pub mod Vetting
pub mod Accepting
pub mod Early
pub mod Recovery
pub mod Sound
pub mod Outcomes
mod Tests
use Prim.Native.Nat.{bit_and}
use ez_vpn_lego.Prelude.{
  ℕ, ◌*◌, ◌+◌, String, ◌<>◌, Bool, true, false, ◌||◌, not, Option, none, some, List, [], ◌∷◌, take,
  length, ltb, Eq, ◌==◌, string_eq, nat_eq, bytes_eq, if◌then◌else◌,
}
use ez_vpn_lego.Prelude.Text.{byte_length, hex_decode}
use ez_vpn_lego.Uuid.{matches_revision}
use ez_vpn_lego.Helper.Disk.{File, Disk, World, WriteFaults, atomic_write, rollback}

pub record ApplyRequest : Type 0 where
  pub revision_id : String
  pub checksum : String  -- the field `SHA256`

pub record Engine : Type 0 where
  pub candidate_directory : String
  pub configuration_path : String

-- One constructor for each message.
pub data ApplyError : Type 0 where
  invalid_revision_id invalid_revision_checksum inspect_candidate candidate_not_private : ApplyError
  candidate_too_large open_candidate read_candidate_failed checksum_mismatch : ApplyError
  xray_rejected inspect_current current_not_regular read_current_failed : ApplyError
  install_failed rollback_configuration_failed recovery_restart_failed : ApplyError
  previous_configuration_restored : ApplyError

-- A step that has a value, or the error with which `Apply` returns.
pub data Result {ℓ} (Value : Type ℓ) : Type ℓ where
  err : ApplyError → Result Value
  ok : Value → Result Value

infixl 5 ◌>>=◌ ◌>>◌
abbrev pub ◌>>=◌ {ℓ} : {V W : Type ℓ} → Result V → (V → Result W) → Result W
err reason >>= next = err reason
ok value >>= next = next value

abbrev pub ◌>>◌ : {W : Type 0} → Result (Unit {0}) → Result W → Result W
err reason >> next = err reason
ok checked >> next = next

abbrev pub require : Bool → ApplyError → Result (Unit {0})
require true e = ok tt
require false e = err e

abbrev pub or_fail {ℓ} : {A : Type ℓ} → Option A → ApplyError → Result A
or_fail none e = err e
or_fail (some a) e = ok a

pub record Env : Type 0 where
  pub inspect_candidate_fails : Bool  -- `os.Lstat` fails, for another reason than absence
  pub open_candidate_fails : Bool
  pub read_candidate_fails : Bool
  pub accepts : List ℕ → Bool  -- `xray run -test` on a file with this content
  pub inspect_current_fails : Bool
  pub read_current_fails : Bool
  pub install : WriteFaults
  pub install_temporary : String
  pub restore : WriteFaults
  pub restore_temporary : String
  pub remove_fails : Bool
  pub restart_fails : Bool  -- `systemctl restart` or `systemctl is-active`, the first time
  pub recovery_fails : Bool  -- the same, after the rollback

abbrev pub max_candidate : ℕ
max_candidate = 4194304

-- `io.ReadAll(io.LimitReader(file, 4<<20+1))`
unfoldable pub limit_read : List ℕ → List ℕ
limit_read content = take (max_candidate + 1) content

-- `info.Size() > 4<<20`
unfoldable pub exceeds : List ℕ → Bool
exceeds content = ltb max_candidate (length content)

-- The end of `readCandidate`, from `os.Open` on.
unfoldable pub open_file : Env → File → Result (List ℕ)
open_file env file = do
  require (not env.open_candidate_fails) open_candidate
  require (not env.read_candidate_fails) read_candidate_failed
  ok (limit_read file.content)

-- `!info.Mode().IsRegular() || info.Mode().Perm()&0o022 != 0`
unfoldable pub is_unsafe : File → Bool
is_unsafe file = not file.regular || not (bit_and file.mode 0o022 == 0)

-- The tests of `readCandidate` on the file that `os.Lstat` has found.
unfoldable pub check_file : Env → File → Result (List ℕ)
check_file env file = do
  require (not (is_unsafe file)) candidate_not_private
  require (not (exceeds file.content)) candidate_too_large
  open_file env file

-- `readCandidate`
unfoldable pub read_candidate : Env → Option File → Result (List ℕ)
read_candidate env found = do
  require (not env.inspect_candidate_fails) inspect_candidate
  file ← or_fail found inspect_candidate
  check_file env file

-- `readCurrent`: the content and the mode, or `none` where there is no file.
unfoldable pub read_current : Env → Option File → Result (Option (List ℕ × ℕ))
read_current env found = do
  require (not env.inspect_current_fails) inspect_current
  elim found [
    | none ↦ ok none
    | some file ↦ do
      require file.regular current_not_regular
      require (not env.read_current_fails) read_current_failed
      ok (some (file.content, file.mode))
  ]

-- `equalHex`
unfoldable pub equal_hex : String → List ℕ → Bool
equal_hex encoded expected = elim (hex_decode encoded) [
  | none ↦ false
  | some decoded ↦ decoded == expected
]

-- `XrayValidator.Validate`: the binary reads the file at the path itself.
unfoldable pub validate : Env → Option File → Bool
validate env none = false
validate env (some file) = env.accepts file.content

-- `SystemdService.Restart`: the process loads what stands at the path, or is down.
abbrev pub restart : Bool → String → World → Bool × World
restart fails path w =
    if fails
    then (false, record w { running = none })
    else (true, record w { running = w.disk path })

module _ (sha256 : List ℕ → List ℕ) (engine : Engine) where
  abbrev pub candidate_path : ApplyRequest → String
  candidate_path request = engine.candidate_directory <> "/" <> request.revision_id <> ".json"

  -- `Apply` up to the validator: nothing is written yet.
  unfoldable pub vet : Env → ApplyRequest → Disk → Result (List ℕ)
  vet env request disk = do
    require (matches_revision request.revision_id) invalid_revision_id
    require (byte_length request.checksum == 64) invalid_revision_checksum
    candidate ← read_candidate env (disk (candidate_path request))
    require (equal_hex request.checksum (sha256 candidate)) checksum_mismatch
    require (validate env (disk (candidate_path request))) xray_rejected
    ok candidate

  -- What follows a restart that failed.
  unfoldable pub recover : Env → Option (List ℕ × ℕ) → World → Option ApplyError × World
  recover env previous w =
      let (back, restored) =
        rollback env.restore_temporary env.restore env.remove_fails engine.configuration_path
          previous w in
      if back
      then (let (up, w') = restart env.recovery_fails engine.configuration_path restored in
          (if up then some previous_configuration_restored else some recovery_restart_failed, w'))
      else (some rollback_configuration_failed, restored)

  -- The restart once the new configuration is in place.
  unfoldable pub settle : Env → Option (List ℕ × ℕ) → World → Option ApplyError × World
  settle env previous w =
      let (up, w') = restart env.restart_fails engine.configuration_path w in
      if up then (none, w') else recover env previous w'

  unfoldable pub install : Env → List ℕ → Option (List ℕ × ℕ) → World → Option ApplyError × World
  install env candidate previous w =
      let (written, w') =
        atomic_write env.install_temporary env.install engine.configuration_path candidate 0o640
          w in
      if written then settle env previous w' else (some install_failed, w')

  unfoldable pub prepare : Env → ApplyRequest → Disk → Result (List ℕ × Option (List ℕ × ℕ))
  prepare env request disk = do
    candidate ← vet env request disk
    previous ← read_current env (disk engine.configuration_path)
    ok (candidate, previous)

  unfoldable pub carry_out :
      Env → World → Result (List ℕ × Option (List ℕ × ℕ)) → Option ApplyError × World
  carry_out env w (err e) = (some e, w)
  carry_out env w (ok (candidate, previous)) = install env candidate previous w

  -- `Engine.Apply`, under its lock. `none` is success.
  unfoldable pub apply : Env → ApplyRequest → World → Option ApplyError × World
  apply env request w = carry_out env w (prepare env request w.disk)
