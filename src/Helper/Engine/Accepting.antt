-- ===== src/Helper/Engine/Accepting.antt =====
-- Which candidates `Engine.Apply` lets through.
use ez_vpn_lego.Prelude.{◌≡◌, refl, ℕ, ◌≤◌, ◌+◌, false, some, List, arith, length, nat_eq, eq_self}
use ez_vpn_lego.Prelude.Text.{byte_length}
use ez_vpn_lego.Helper.Disk.{File, Disk}
use ez_vpn_lego.Helper.Engine.{
  ApplyRequest, Engine, Env, ok, max_candidate, limit_read, exceeds, open_file, is_unsafe,
  check_file, read_candidate, validate, vet,
}
use ez_vpn_lego.Helper.Engine.Vetting.{IsVetted, take_of_length_le}

-- The operating system reports no failure while the candidate is read.
pub record ReadsWell (env : Env) : Type 0 where
  pub inspects : env.inspect_candidate_fails ≡ false
  pub opens : env.open_candidate_fails ≡ false
  pub reads : env.read_candidate_fails ≡ false

limit_read_small :
    (content : List ℕ) → length content ≤ max_candidate → limit_read content ≡ content
unfolding limit_read
limit_read_small content small = take_of_length_le (max_candidate + 1) content (omega arith)

exceeds_small : (content : List ℕ) → length content ≤ max_candidate → exceeds content ≡ false
unfolding exceeds
exceeds_small content small = ground arith

read_candidate_accepts :
    (env : Env) (file : File)
    → ReadsWell env
    → is_unsafe file ≡ false
    → length file.content ≤ max_candidate
    → read_candidate env (some file) ≡ ok file.content
unfolding read_candidate check_file open_file
read_candidate_accepts env file calm safe small =
    rw
      (
        calm.inspects,
        safe,
        exceeds_small file.content small,
        calm.opens,
        calm.reads,
        limit_read_small file.content small,
      )
      refl

-- The checks pass for every request whose candidate `IsVetted`, if the checksum has 64 digits, the
-- file at most 4 MiB, and no call of the operating system fails.
pub vet_accepts :
    (sha256 : List ℕ → List ℕ) (engine : Engine) (env : Env) (request : ApplyRequest) (disk : Disk)
    (file : File)
    → IsVetted sha256 engine env request disk file
    → byte_length request.checksum ≡ 64
    → length file.content ≤ max_candidate
    → ReadsWell env
    → vet sha256 engine env request disk ≡ ok file.content
unfolding vet validate
vet_accepts sha256 engine env request disk file v sized small calm =
    rw
      (
        v.named,
        sized,
        eq_self {A = ℕ} 64,
        v.found,
        read_candidate_accepts env file calm v.safe small,
        v.checked,
        v.valid,
      )
      refl
