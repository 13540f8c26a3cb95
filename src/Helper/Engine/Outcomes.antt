-- ===== src/Helper/Engine/Outcomes.antt =====
-- `Engine.Apply` as a whole: what it leaves behind on success and on each error.
use ez_vpn_lego.Prelude.{
  ◌≡◌, ◌≢◌, ◌⊎◌, inl, inr, refl, ℕ, String, true, Option, none, some, List, arith, nat_eq,
  string_eq,
}
use ez_vpn_lego.Helper.Disk.{File, World}
use ez_vpn_lego.Helper.Disk.Laws.{restored_file}
use ez_vpn_lego.Helper.Engine.{
  ApplyRequest, Engine, ApplyError, rollback_configuration_failed, previous_configuration_restored,
  Result, ok, err, Env, install, prepare, carry_out, apply,
}
use ez_vpn_lego.Helper.Engine.Vetting.{IsVetted, prepare_ok}
use ez_vpn_lego.Helper.Engine.Early.{is_early, prepare-FailsEarly}
use ez_vpn_lego.Helper.Engine.Recovery.{
  installed, install_ok, install-target, install-running, install-others,
}

Result-cases :
    {A : Type 0} (r : Result A) → ((a : A) × (r ≡ ok a)) ⊎ ((e : ApplyError) × (r ≡ err e))
Result-cases (ok a) = inl (a, refl)
Result-cases (err e) = inr (e, refl)

-- The names of the temporary files are not the name of the configuration.
pub record IsApart (engine : Engine) (env : Env) : Type 0 where
  pub install_apart : env.install_temporary ≢ engine.configuration_path
  pub restore_apart : env.restore_temporary ≢ engine.configuration_path

module _ (sha256 : List ℕ → List ℕ) (engine : Engine) (env : Env) (request : ApplyRequest)
    (w : World) where
  abbrev pub result : Option ApplyError × World
  result = apply sha256 engine env request w

  apply_rejected :
      (e : ApplyError) → prepare sha256 engine env request w.disk ≡ err e → result ≡ (some e, w)
  unfolding apply carry_out
  apply_rejected e p = rw p

  apply_installed :
      (c : List ℕ) (previous : Option (List ℕ × ℕ))
      → prepare sha256 engine env request w.disk ≡ ok (c, previous)
      → result ≡ install sha256 engine env c previous w
  unfolding apply carry_out
  apply_installed c previous p = rw p

  -- Either nothing was done, or the files were vetted and the installation decides.
  abbrev pub Installed : Type 0
  Installed =
      (file : File) × (previous : Option (List ℕ × ℕ)) × IsVetted sha256 engine env request w.disk
        file
      × (restored_file previous ≡ w.disk engine.configuration_path)
      × (result ≡ install sha256 engine env file.content previous w)

  pub apply_cases : ((e : ApplyError) × (is_early e ≡ true) × (result ≡ (some e, w))) ⊎ Installed
  apply_cases = elim (Result-cases (prepare sha256 engine env request w.disk)) [
    | inl ((c, previous), p) ↦
        let (file, vetted, whole, same) = prepare_ok sha256 engine env request w.disk p in
        inr (file, previous, vetted, same, rw whole at (apply_installed c previous p))
    | inr (e, p) ↦
        inl (e, (prepare-FailsEarly sha256 engine env request w.disk).early e p, apply_rejected e p)
  ]

module _ (sha256 : List ℕ → List ℕ) (engine : Engine) (env : Env) (request : ApplyRequest)
    (w : World) (apart : IsApart engine env) where
  -- If neither temporary name is the path of the configuration and `Apply` succeeds, then the
  -- request names a revision whose candidate file is a regular file that only its owner can write,
  -- has the requested checksum and is accepted by Xray; that content, with mode 0640, is now the
  -- configuration, and Xray runs with it.
  pub apply_ok :
      (apply sha256 engine env request w).0 ≡ none
      → (file : File) × IsVetted sha256 engine env request w.disk file
        × ((apply sha256 engine env request w).1.disk engine.configuration_path
            ≡ some (installed file.content))
        × ((apply sha256 engine env request w).1.running ≡ some (installed file.content))
  apply_ok h = elim (apply_cases sha256 engine env request w) [
    | inl (e, early, q) ↦ cc
    | inr (file, previous, vetted, same, q) ↦
        let (disk, running) =
          install_ok sha256 engine env apart.install_apart apart.restore_apart file.content previous
            w (rw q at h) in
        (file, vetted, rw q disk, rw q running)
  ]

  -- If neither temporary name is the path of the configuration and `Apply` fails with any error but
  -- that of a failed rollback, then the configuration file is what it was before, in content and
  -- mode, or is absent as before.
  pub apply_failed :
      (apply sha256 engine env request w).0 ≢ none
      → (apply sha256 engine env request w).0 ≢ some rollback_configuration_failed
      → (apply sha256 engine env request w).1.disk engine.configuration_path
        ≡ w.disk engine.configuration_path
  apply_failed h k = elim (apply_cases sha256 engine env request w) [
    | inl (e, early, q) ↦ rw q
    | inr (file, previous, vetted, same, q) ↦ rw q (
        install-target sha256 engine env apart.install_apart apart.restore_apart file.content
          previous w same (rw q at h) (rw q at k))
  ]

  -- If neither temporary name is the path of the configuration and `Apply` reports that the
  -- previous configuration was restored, then Xray runs with the configuration file that was there
  -- before, and that file is in place again.
  pub apply_restored :
      (apply sha256 engine env request w).0 ≡ some previous_configuration_restored
      → ((apply sha256 engine env request w).1.running ≡ w.disk engine.configuration_path)
        × ((apply sha256 engine env request w).1.disk engine.configuration_path
            ≡ w.disk engine.configuration_path)
  apply_restored h = (
    elim (apply_cases sha256 engine env request w) [
      | inl (e, early, q) ↦ absurd (ground (arith, early, h, q))
      | inr (file, previous, vetted, same, q) ↦ rw q (
          install-running sha256 engine env apart.install_apart apart.restore_apart file.content
            previous w same (rw q at h))
    ],
    apply_failed (λ e. cc) (λ e. cc),
  )

  -- If neither temporary name is the path of the configuration, then whatever `Apply` reports, every
  -- file but the configuration and the two temporary ones is what it was before.
  pub apply-others :
      (q : String)
      → q ≢ engine.configuration_path
      → q ≢ env.install_temporary
      → q ≢ env.restore_temporary
      → (apply sha256 engine env request w).1.disk q ≡ w.disk q
  apply-others q h k l = elim (apply_cases sha256 engine env request w) [
    | inl (e, early, p) ↦ rw p
    | inr (file, previous, vetted, same, p) ↦ rw p (
        install-others sha256 engine env apart.install_apart apart.restore_apart file.content
          previous w q h k l)
  ]
