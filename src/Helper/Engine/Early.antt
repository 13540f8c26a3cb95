-- ===== src/Helper/Engine/Early.antt =====
-- Which errors `Engine.Apply` can report before it writes.
use ez_vpn_lego.Prelude.{◌≡◌, refl, ℕ, Bool, true, false, not, Option, none, some, List, arith}
use ez_vpn_lego.Prelude.{◌==◌, nat_eq}
use ez_vpn_lego.Prelude.Text.{byte_length}
use ez_vpn_lego.Uuid.{matches_revision}
use ez_vpn_lego.Helper.Disk.{File, Disk}
use ez_vpn_lego.Helper.Engine.{
  ApplyRequest, Engine, ApplyError, install_failed, rollback_configuration_failed,
  recovery_restart_failed, previous_configuration_restored, Result, ok, err, Env, open_file,
  check_file, read_candidate, read_current, require, or_fail, ◌>>◌, ◌>>=◌, vet, prepare,
  candidate_path, limit_read, exceeds, is_unsafe, equal_hex, validate, open_candidate,
  read_candidate_failed, candidate_not_private, candidate_too_large, inspect_candidate,
  invalid_revision_id, invalid_revision_checksum, checksum_mismatch, xray_rejected,
}

-- The errors that `Apply` reports before it writes anything.
abbrev pub is_early : ApplyError → Bool
is_early install_failed = false
is_early rollback_configuration_failed = false
is_early recovery_restart_failed = false
is_early previous_configuration_restored = false
is_early _ = true

pub record FailsEarly {A : Type 0} (r : Result A) : Type 0 where
  pub early : (e : ApplyError) → r ≡ err e → is_early e ≡ true

module _ {A : Type 0} where
  FailsEarly-ok : (a : A) → FailsEarly (ok a)
  FailsEarly-ok a = record { early = λ e h. cc }

  FailsEarly-or_fail :
      (o : Option A) (c : ApplyError) → is_early c ≡ true → FailsEarly (or_fail o c)
  FailsEarly-or_fail none c p = record { early = λ e h. ground arith }
  FailsEarly-or_fail (some a) c p = record { early = λ e h. cc }

module _ {A B : Type 0} where
  FailsEarly-bind :
      (m : Result A) (f : A → Result B)
      → FailsEarly m
      → ((a : A) → FailsEarly (f a))
      → FailsEarly (m >>= f)
  FailsEarly-bind (ok a) f km kf = kf a
  FailsEarly-bind (err c) f km kf = record { early = λ e h. km.early e (ground arith) }

FailsEarly-require :
    {B : Type 0} (b : Bool) (c : ApplyError) (k : Result B)
    → is_early c ≡ true
    → FailsEarly k
    → FailsEarly (require b c >> k)
FailsEarly-require true c k p q = q
FailsEarly-require false c k p q = record { early = λ e h. ground arith }

read_current-FailsEarly : (env : Env) (found : Option File) → FailsEarly (read_current env found)
unfolding read_current
read_current-FailsEarly env none = record { early = λ e h. ground arith }
read_current-FailsEarly env (some file) = record { early = λ e h. ground arith }

open_file-FailsEarly : (env : Env) (file : File) → FailsEarly (open_file env file)
unfolding open_file
open_file-FailsEarly env file =
    FailsEarly-require (not env.open_candidate_fails) open_candidate _ refl (
      FailsEarly-require (not env.read_candidate_fails) read_candidate_failed _ refl
        (FailsEarly-ok (limit_read file.content)))

check_file-FailsEarly : (env : Env) (file : File) → FailsEarly (check_file env file)
unfolding check_file
check_file-FailsEarly env file =
    FailsEarly-require (not (is_unsafe file)) candidate_not_private _ refl (
      FailsEarly-require (not (exceeds file.content)) candidate_too_large _ refl
        (open_file-FailsEarly env file))

read_candidate-FailsEarly :
    (env : Env) (found : Option File) → FailsEarly (read_candidate env found)
unfolding read_candidate
read_candidate-FailsEarly env found =
    FailsEarly-require (not env.inspect_candidate_fails) inspect_candidate _ refl (
      FailsEarly-bind (or_fail found inspect_candidate) (check_file env)
        (FailsEarly-or_fail found inspect_candidate refl) (check_file-FailsEarly env))

module _ (sha256 : List ℕ → List ℕ) (engine : Engine) (env : Env) (request : ApplyRequest) where
  compare_and_validate : Disk → List ℕ → Result (List ℕ)
  compare_and_validate disk candidate = do
    require (equal_hex request.checksum (sha256 candidate)) checksum_mismatch
    require (validate env (disk (candidate_path sha256 engine request))) xray_rejected
    ok candidate

  vet-FailsEarly : (disk : Disk) → FailsEarly (vet sha256 engine env request disk)
  unfolding vet compare_and_validate
  vet-FailsEarly disk =
      let found = disk (candidate_path sha256 engine request) in
      FailsEarly-require (matches_revision request.revision_id) invalid_revision_id _ refl (
        FailsEarly-require (byte_length request.checksum == 64) invalid_revision_checksum _ refl (
          FailsEarly-bind (read_candidate env found) (compare_and_validate disk)
            (read_candidate-FailsEarly env found)
            (λ candidate.
              FailsEarly-require (equal_hex request.checksum (sha256 candidate)) checksum_mismatch _
                refl
                (FailsEarly-require (validate env found) xray_rejected _ refl
                  (FailsEarly-ok candidate)))))

  pub prepare-FailsEarly : (disk : Disk) → FailsEarly (prepare sha256 engine env request disk)
  unfolding prepare
  prepare-FailsEarly disk =
      FailsEarly-bind (vet sha256 engine env request disk) _ (vet-FailsEarly disk) (λ candidate.
        FailsEarly-bind (read_current env (disk engine.configuration_path))
          (λ previous. ok (candidate, previous)) (read_current-FailsEarly env _)
          (λ previous. FailsEarly-ok (candidate, previous)))
