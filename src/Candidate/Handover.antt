-- ===== src/Candidate/Handover.antt =====
-- A candidate that the daemon has written is one that the helper accepts.
use ez_vpn_lego.Prelude.{
  ◌≡◌, ◌≢◌, refl, ap, ◌∙◌, ℕ, ◌*◌, ◌≤◌, String, ◌<>◌, true, none, some, List, arith, length, All,
  string_eq, nat_eq, bytes_eq, eq_self,
}
use ez_vpn_lego.Prelude.Text.{IsByte, hex_encode, hex_decode-hex_encode, byte_length-hex_encode}
use ez_vpn_lego.Uuid.{matches_revision}
use ez_vpn_lego.Helper.Disk.{World}
use ez_vpn_lego.Helper.Engine.{Engine, Env, ok, max_candidate, is_unsafe, equal_hex, vet}
use ez_vpn_lego.Helper.Engine.Accepting.{ReadsWell, vet_accepts}
use ez_vpn_lego.Candidate.{CandidateFaults, private_file, write}

module _ (f : CandidateFaults) (directory revision_id : String) (content : List ℕ) (w : World) where
  abbrev path : String
  path = directory <> "/" <> revision_id <> ".json"

  -- A `Write` that succeeds has made a private file that was not there.
  pub write_ok :
      (write f directory revision_id content w).0 ≡ none
      → (w.disk path ≡ none)
        × ((write f directory revision_id content w).1.disk path ≡ some (private_file content))
  unfolding write
  write_ok h = ground arith

  -- Whatever `Write` reports, it changes no file but the candidate, and not the process.
  pub write-others :
      (q : String) → q ≢ path → (write f directory revision_id content w).1.disk q ≡ w.disk q
  unfolding write
  write-others q ne = ground arith

  pub write-running : (write f directory revision_id content w).1.running ≡ w.running
  unfolding write
  write-running = ground arith

module _ (sha256 : List ℕ → List ℕ) (engine : Engine) (env : Env) where
  -- If a `Write` into the helper's candidate directory succeeds, under a revision ID of the right
  -- form, with at most 4 MiB that Xray accepts, then the helper's checks pass, for the checksum
  -- that the daemon sends, and read what was written: SHA-256 makes 32 bytes, and reading the file
  -- does not fail.
  pub vet-write :
      (f : CandidateFaults) (revision_id : String) (content : List ℕ) (w : World)
      → (write f engine.candidate_directory revision_id content w).0 ≡ none
      → matches_revision revision_id ≡ true
      → length content ≤ max_candidate
      → length (sha256 content) ≡ 32
      → All IsByte (sha256 content)
      → env.accepts content ≡ true
      → ReadsWell env
      → vet sha256 engine env
          (record { revision_id = revision_id; checksum = hex_encode (sha256 content) })
          (write f engine.candidate_directory revision_id content w).1.disk
        ≡ ok content
  unfolding is_unsafe equal_hex nat_eq
  vet-write f revision_id content w written named small sized bytes accepted calm =
      let (_, there) = write_ok f engine.candidate_directory revision_id content w written in
      vet_accepts sha256 engine env
        (record { revision_id = revision_id; checksum = hex_encode (sha256 content) }) _
        (private_file content)
        (record {
          found = there;
          named = named;
          safe = refl;
          checked =
              rw (equal_hex, hex_decode-hex_encode (sha256 content) bytes)
                (eq_self (sha256 content));
          valid = accepted;
        })
        (byte_length-hex_encode (sha256 content) bytes ∙ ap (λ (n : ℕ). 2 * n) sized) small calm
