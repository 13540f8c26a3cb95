-- ===== src/Helper/Engine/Vetting.antt =====
-- What `Engine.Apply` has checked and read before it writes.
use ez_vpn_lego.Prelude.{
  ◌≡◌, ◌∙◌, refl, ap, ℕ, zero, suc, ◌≤◌, ◌+◌, Bool, true, false, not, Option, none, some, List, [],
  ◌∷◌, arith, take, length, ◌==◌, nat_eq, string_eq,
}
use ez_vpn_lego.Prelude.Text.{byte_length}
use ez_vpn_lego.Uuid.{matches_revision}
use ez_vpn_lego.Helper.Disk.{File, Disk}
use ez_vpn_lego.Helper.Disk.Laws.{restored_file}
use ez_vpn_lego.Helper.Engine.{
  ApplyRequest, Engine, ApplyError, Result, ok, err, Env, max_candidate, limit_read, exceeds,
  open_file, check_file, is_unsafe, candidate_not_private, invalid_revision_id,
  invalid_revision_checksum, checksum_mismatch, xray_rejected, candidate_too_large,
  inspect_candidate, equal_hex, read_candidate, read_current, validate, require, ◌>>◌, ◌>>=◌,
  candidate_path, vet, prepare,
}

pub take_of_length_le {ℓ} : {A : Type ℓ} (n : ℕ) (xs : List A) → length xs ≤ n → take n xs ≡ xs
take_of_length_le zero [] h = refl
take_of_length_le zero (x ∷ xs) h = absurd (omega arith)
take_of_length_le (suc n) [] h = refl
take_of_length_le (suc n) (x ∷ xs) h = ap (λ ys. x ∷ ys) (take_of_length_le n xs (omega arith))

limit_read_whole : (content : List ℕ) → exceeds content ≡ false → limit_read content ≡ content
unfolding limit_read exceeds
limit_read_whole content h = take_of_length_le (max_candidate + 1) content (ground arith)

require_ok :
    {A : Type 0} (b : Bool) (e : ApplyError) (k : Result A) {a : A}
    → (require b e >> k) ≡ ok a
    → (b ≡ true) × (k ≡ ok a)
require_ok true e k h = (refl, h)
require_ok false e k h = cc

open_file_ok :
    (env : Env) (file : File) {c : List ℕ} → open_file env file ≡ ok c → c ≡ limit_read file.content
unfolding open_file
open_file_ok env file h = ground arith

check_file_ok :
    (env : Env) (file : File) {c : List ℕ}
    → check_file env file ≡ ok c
    → (is_unsafe file ≡ false) × (c ≡ file.content)
unfolding check_file
check_file_ok env file h =
    let (safe, h1) = require_ok (not (is_unsafe file)) candidate_not_private _ h in
    let (small, h2) =
      require_ok (not (exceeds file.content)) candidate_too_large (open_file env file) h1 in
    (
      ground (arith, safe),
      open_file_ok env file h2 ∙ limit_read_whole file.content (ground (arith, small)),
    )

step_ok :
    {V W : Type 0} {w : W} (next : V → Result W) (step : Result V)
    → (step >>= next) ≡ ok w
    → (v : V) × (step ≡ ok v) × (next v ≡ ok w)
step_ok next (err reason) done = cc
step_ok next (ok v) done = (v, refl, done)

ok_injective : {A : Type 0} {a b : A} → ok a ≡ ok b → a ≡ b
ok_injective h = cc

-- A file that is readable as a candidate is safe and is read whole.
read_candidate_ok :
    (env : Env) (found : Option File) {c : List ℕ}
    → read_candidate env found ≡ ok c
    → (file : File) × (found ≡ some file) × (is_unsafe file ≡ false) × (c ≡ file.content)
unfolding read_candidate
read_candidate_ok env none h = ground arith
read_candidate_ok env (some file) h =
    let (_, h1) =
      require_ok (not env.inspect_candidate_fails) inspect_candidate (check_file env file) h in
    let (safe, whole) = check_file_ok env file h1 in (file, refl, safe, whole)

read_current_ok :
    (env : Env) (found : Option File) {previous : Option (List ℕ × ℕ)}
    → read_current env found ≡ ok previous
    → restored_file previous ≡ found
unfolding read_current
read_current_ok env none h = ground arith
read_current_ok env (some file) h = ground arith

module _ (sha256 : List ℕ → List ℕ) (engine : Engine) (env : Env) (request : ApplyRequest) where
  -- The request and the candidate passed every test.
  pub record IsVetted (disk : Disk) (file : File) : Type 0 where
    pub found : disk (candidate_path sha256 engine request) ≡ some file
    pub named : matches_revision request.revision_id ≡ true
    pub safe : is_unsafe file ≡ false
    pub checked : equal_hex request.checksum (sha256 file.content) ≡ true
    pub valid : env.accepts file.content ≡ true

  validate_ok :
      (found : Option File) {file : File}
      → found ≡ some file
      → validate env found ≡ true
      → env.accepts file.content ≡ true
  unfolding validate
  validate_ok none e h = cc
  validate_ok (some file) e h = ground arith

  vet_ok :
      (disk : Disk) {c : List ℕ}
      → vet sha256 engine env request disk ≡ ok c
      → (file : File) × IsVetted disk file × (c ≡ file.content)
  unfolding vet
  vet_ok disk h =
      let path = candidate_path sha256 engine request in
      let (named, h1) = require_ok (matches_revision request.revision_id) invalid_revision_id _ h in
      let (sized, h2) =
        require_ok (byte_length request.checksum == 64) invalid_revision_checksum _ h1 in
      let (candidate, read, h3) = step_ok _ (read_candidate env (disk path)) h2 in
      let (checked, h4) =
        require_ok (equal_hex request.checksum (sha256 candidate)) checksum_mismatch _ h3 in
      let (accepted, h5) = require_ok (validate env (disk path)) xray_rejected (ok candidate) h4 in
      let (file, found, safe, whole) = read_candidate_ok env (disk path) read in
      let checked' = rw whole at checked in
      (
        file,
        record {
          found = found;
          named = named;
          safe = safe;
          checked = checked';
          valid = validate_ok (disk path) found accepted;
        },
        cc,
      )

  pub prepare_ok :
      (disk : Disk) {c : List ℕ} {previous : Option (List ℕ × ℕ)}
      → prepare sha256 engine env request disk ≡ ok (c, previous)
      → (file : File) × IsVetted disk file
        × (c ≡ file.content)
        × (restored_file previous ≡ disk engine.configuration_path)
  unfolding prepare
  prepare_ok disk h =
      let (candidate, vetted, h1) = step_ok _ (vet sha256 engine env request disk) h in
      let (previous, read, h2) = step_ok _ (read_current env (disk engine.configuration_path)) h1 in
      let (file, good, whole) = vet_ok disk vetted in
      (
        file,
        good,
        cc,
        rw (← ap (λ (p : List ℕ × Option (List ℕ × ℕ)). p.1) (ok_injective h2))
            (read_current_ok env _ read),
      )
