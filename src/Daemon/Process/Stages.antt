-- ===== src/Daemon/Process/Stages.antt =====
-- What a run of the daemon has done by the time it answers, and what it leaves.
use ez_vpn_lego.Prelude.{
  ◌≡◌, ◌⊎◌, inl, inr, refl, ap, sym, ◌∙◌, eq_self, ℕ, String, Bool, true, false, Option, none, some,
  List, [], ◌==◌, string_eq, if◌then◌else◌,
}
use ez_vpn_lego.Config as Config
use ez_vpn_lego.Store.Rows.{Db}
use ez_vpn_lego.Secretbox as Secret
use ez_vpn_lego.Secretbox.{Aead, new}
use ez_vpn_lego.UnixSocket.{Files, ListenError, listen}
use ez_vpn_lego.UnixSocket.Serving as Serving
use ez_vpn_lego.UnixSocket.Serving.{
  Ending, listening, Run, answer_all, end_error, listen_and_serve, IsTidy, listen_and_serve-IsTidy,
}
use ez_vpn_lego.Services.{System}
use ez_vpn_lego.Http.{Request, Response}
use package.ez_vpn_lego.Daemon.{Conditions, Parts}
use package.ez_vpn_lego.Daemon.Process.{
  Startup, MigrateError, RunError, pool_failed, unreachable, serving, up, serving_error, handle,
  as_run, refused, with_key, migrated, run,
}
use package.ez_vpn_lego.Daemon.Process.Steps.{opposite, up_ok, up_failed, new_ok, new_keyed}

module _ (parts : Parts) (goose : Db → Bool × Db) (cipher : List ℕ → Option Aead)
    (configuration : Config.Daemon) (startup : Startup) (calls : List (Conditions × Request))
    (ending : Ending) (files : Files) where
  -- Every step up to the socket succeeds, from the database on.
  pub record IsReady (d : Db) : Type 0 where
    pub connected : startup.connect ≡ false
    pub answering : startup.migration_ping ≡ false
    pub dialect_set : startup.dialect ≡ false
    pub rows : Db
    pub migrated_rows : goose d ≡ (true, rows)
    pub pooled : startup.pool ≡ false
    pub reachable : startup.ping ≡ false
    pub aead : Aead
    pub keyed : cipher configuration.master_key ≡ some aead
    pub left : Files
    pub listening : listen startup.listen configuration.socket_path 0o660 files ≡ (none, left)

  -- Every step has succeeded, and the run has answered every request; its socket's path is empty.
  pub record HasServed (s : System) (r : Run RunError Response System) : Type 0 where
    pub ready : IsReady s.db
    pub ended : r.error ≡ serving_error (end_error ending)
    pub answered :
        Path
          (List Response × System)
          (r.answers, r.state)
          (answer_all
            (handle parts goose cipher configuration ready.aead)
            calls
            (record s { db = ready.rows }))
    pub closed : r.files configuration.socket_path ≡ none

  -- Some step has failed. The run has answered nothing; the rows are what they were, or what the
  -- migrations have made of them; and the files are what they were, or what a failing `Listen` leaves.
  pub record HasRefused (s : System) (r : Run RunError Response System) : Type 0 where
    pub unready : ¬ (IsReady s.db)
    pub reason : RunError
    pub failed : r.error ≡ some reason
    pub unanswered : r.answers ≡ []
    pub world_kept : r.state.world ≡ s.world
    pub rows_kept : (r.state.db ≡ s.db) ⊎ (r.state.db ≡ (goose s.db).1)
    pub files_kept :
        (r.files ≡ files)
        ⊎ ((e : ListenError) × (listen startup.listen configuration.socket_path 0o660 files
              ≡ (some e, r.files)))

  abbrev pub Stages : String → System → Run RunError Response System → Type 0
  Stages q s r = (HasServed s r ⊎ HasRefused s r) × IsTidy configuration.socket_path q files r.files

  IsReady-up : (d : Db) (ready : IsReady d) → up goose startup d ≡ (none, ready.rows)
  unfolding up
  IsReady-up d ready =
      rw (ready.connected, ready.answering, ready.dialect_set, ready.migrated_rows) refl

  -- A refusal before `Listen`.
  refusal :
      (s : System) (d : Db) (e : RunError)
      → ¬ (IsReady s.db)
      → (d ≡ s.db) ⊎ (d ≡ (goose s.db).1)
      → HasRefused s (refused e files (record s { db = d }))
  refusal s d e unready kept = record {
    unready = unready;
    reason = e;
    failed = refl;
    unanswered = refl;
    world_kept = refl;
    rows_kept = kept;
    files_kept = inl refl;
  }

  module _ (q : String) (apart : (q == configuration.socket_path) ≡ false) (s : System) where
    -- What holds once the migrations have succeeded.
    record IsMigrated (d : Db) : Type 0 where
      pub connected : startup.connect ≡ false
      pub answering : startup.migration_ping ≡ false
      pub dialect_set : startup.dialect ≡ false
      pub migrated_rows : goose s.db ≡ (true, d)

    migrated_kept : (d : Db) → IsMigrated d → (d ≡ s.db) ⊎ (d ≡ (goose s.db).1)
    migrated_kept d m = inr (ap (λ (x : Bool × Db). x.1) (sym m.migrated_rows))

    served :
        (d : Db) (a : Aead) (x : Option ListenError × Files)
        → IsMigrated d
        → startup.pool ≡ false
        → startup.ping ≡ false
        → cipher configuration.master_key ≡ some a
        → listen startup.listen configuration.socket_path 0o660 files ≡ x
        → HasServed s (
            as_run (
              Serving.serving
                (handle parts goose cipher configuration a)
                configuration.socket_path
                calls
                ending
                (record s { db = d })
                x))
          ⊎ HasRefused s (
              as_run (
                Serving.serving
                  (handle parts goose cipher configuration a)
                  configuration.socket_path
                  calls
                  ending
                  (record s { db = d })
                  x))
    served d a (some e, left) m pooled reachable key h = inr (record {
      unready = λ ready. elim (failing (sym h ∙ ready.listening)) [ ];
      reason = serving (listening e);
      failed = refl;
      unanswered = refl;
      world_kept = refl;
      rows_kept = migrated_kept d m;
      files_kept = inr (e, h);
    })
      where
        failing :
            {e : ListenError} {f g : Files}
            → Path (Option ListenError × Files) (some e, f) (none, g)
            → ⊥
        failing k = cc
    served d a (none, left) m pooled reachable key h = inl (record {
      ready = record {
        connected = m.connected;
        answering = m.answering;
        dialect_set = m.dialect_set;
        rows = d;
        migrated_rows = m.migrated_rows;
        pooled = pooled;
        reachable = reachable;
        aead = a;
        keyed = key;
        left = left;
        listening = h;
      };
      ended = refl;
      answered = refl;
      closed = rw (eq_self configuration.socket_path) refl;
    })

    with_key-Stages :
        (d : Db) (x : Secret.Result Aead)
        → IsMigrated d
        → startup.pool ≡ false
        → startup.ping ≡ false
        → new cipher configuration.master_key ≡ x
        → Stages q s (
            with_key parts goose cipher configuration startup calls ending files
              (record s { db = d })
              x)
    unfolding listen_and_serve
    with_key-Stages d (Secret.sealed_out e) m pooled reachable key = (
      inr (refusal s d _ (λ ready. keyless ready.aead ready.keyed) (migrated_kept d m)),
      (refl, inl refl),
    )
      where
        keyless : (a : Aead) → cipher configuration.master_key ≡ some a → ⊥
        keyless a k = failing (sym key ∙ new_keyed cipher configuration.master_key a k)
          where
            failing : Path (Secret.Result Aead) (Secret.sealed_out e) (Secret.done a) → ⊥
            failing l = cc
    with_key-Stages d (Secret.done a) m pooled reachable key = (
      served d a (listen startup.listen configuration.socket_path 0o660 files) m pooled reachable
          (new_ok cipher configuration.master_key a key) refl,
      listen_and_serve-IsTidy (handle parts goose cipher configuration a) startup.listen
          configuration.socket_path calls ending q files (record s { db = d }) apart,
    )

    migrated-Stages :
        (x : Option MigrateError × Db)
        → up goose startup s.db ≡ x
        → Stages q s (migrated parts goose cipher configuration startup calls ending files s x)
    migrated-Stages (some e, d) h = (
      inr (
          refusal s d _ (λ ready. failing (sym h ∙ IsReady-up s.db ready))
            (up_failed goose startup s.db d e h)),
      (refl, inl refl),
    )
      where
        failing : {c : Db} → Path (Option MigrateError × Db) (some e, d) (none, c) → ⊥
        failing k = cc
    migrated-Stages (none, d) h =
        let (connected, answering, dialect_set, rows) = up_ok goose startup s.db d h in
        reached
          (record {
            connected = connected;
            answering = answering;
            dialect_set = dialect_set;
            migrated_rows = rows;
          })
          startup.pool startup.ping refl refl
      where
        reached :
            IsMigrated d
            → (pool ping : Bool) → startup.pool ≡ pool
            → startup.ping ≡ ping
            → Stages q s (
                if pool
                then refused pool_failed files (record s { db = d })
                else if ping
                then refused unreachable files (record s { db = d })
                else with_key parts goose cipher configuration startup calls ending files
                    (record s { db = d })
                    (new cipher configuration.master_key))
        reached m true ping down unanswered = (
          inr (refusal s d _ (λ ready. opposite (sym down ∙ ready.pooled)) (migrated_kept d m)),
          (refl, inl refl),
        )
        reached m false true up' down = (
          inr (refusal s d _ (λ ready. opposite (sym down ∙ ready.reachable)) (migrated_kept d m)),
          (refl, inl refl),
        )
        reached m false false pooled reachable =
            with_key-Stages d (new cipher configuration.master_key) m pooled reachable refl

    pub run-Stages : Stages q s (run parts goose cipher configuration startup calls ending files s)
    unfolding run
    run-Stages = migrated-Stages (up goose startup s.db) refl
