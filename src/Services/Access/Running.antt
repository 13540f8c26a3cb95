-- ===== src/Services/Access/Running.antt =====
-- `Create` with the real helper and repository: what Xray serves when it has succeeded.
use ez_vpn_lego.Prelude.{◌≡◌, ℕ, String, Bool, ◌==◌, string_eq, some, List, [], ◌∷◌, ◌++◌, map}
use ez_vpn_lego.Prelude.Order.{Reordered}
use ez_vpn_lego.Store.Rows.{Db}
use ez_vpn_lego.Store.Tx as Store
use ez_vpn_lego.Postgres.Access as Access
use ez_vpn_lego.Store.Table.{find}
use ez_vpn_lego.Postgres.Access.Stored.{activated, staged_row, find-finalize}
use ez_vpn_lego.Postgres.Access.{AccessState}
use ez_vpn_lego.Reality.{configuration, client_of, clients_of}
use ez_vpn_lego.Reality.Order.{render_made}
use ez_vpn_lego.Helper.Engine.{Engine, Env}
use ez_vpn_lego.Helper.Engine.Outcomes.{IsApart}
use ez_vpn_lego.Helper.Client.{Delivery}
use ez_vpn_lego.Services.{System, got, Libraries}
use ez_vpn_lego.Services.Running.{helper_of, Serves, written-Serves}
use ez_vpn_lego.Services.Access.{
  CreateAccessRequest, CreateAccessResult, Repository, Randoms, Surroundings, Plan, settings_of,
  prepare, create,
}
use ez_vpn_lego.Services.Access.Outcomes.{HasCreated, create_got}
use ez_vpn_lego.Services.Access.Planned.{
  IsPlanned, prepare_got, open_credentials_names, shown, stored,
}

-- The repository of adapters/postgres.
abbrev pub postgres : (String → Bool) → Repository
postgres is_uuid = record {
  load = Access.load;
  stage = Access.stage is_uuid;
  finalize = Access.finalize is_uuid;
  fail = Access.fail;
}

-- The content of a plan is the configuration with the stored credentials and the new one.
pub record IsExtended (libraries : Libraries) (randoms : Randoms) (request : CreateAccessRequest)
    (state : AccessState) (p : Plan) : Type 0 where
  pub planned : IsPlanned libraries randoms request state p
  pub names : map shown planned.credentials ≡ map stored state.credentials
  pub bytes : List ℕ
  pub encoded :
      libraries.encode_config (
        configuration (record {
          settings = settings_of libraries planned.instance';
          credentials = planned.credentials ++ (planned.fresh ∷ []);
        }))
      ≡ some bytes
  pub content_bytes : p.content ≡ bytes ++ (10 ∷ [])
  pub clients :
      Reordered
        (map client_of (planned.credentials ++ (planned.fresh ∷ [])))
        (clients_of (planned.credentials ++ (planned.fresh ∷ [])))

IsPlanned-IsExtended :
    (libraries : Libraries) (randoms : Randoms) (request : CreateAccessRequest)
    (state : AccessState) (p : Plan)
    → IsPlanned libraries randoms request state p
    → IsExtended libraries randoms request state p
IsPlanned-IsExtended libraries randoms request state p planned =
    let (complete, checked, (bytes, encoded, content), sorted, clients) =
      render_made libraries.valid_target libraries.encode_config
        (settings_of libraries planned.instance') (planned.credentials ++ (planned.fresh ∷ []))
        planned.rendered in
    record {
      planned = planned;
      names = open_credentials_names libraries state.credentials planned.credentials planned.opened;
      bytes = bytes;
      encoded = encoded;
      content_bytes = content;
      clients = clients;
    }

-- The credential that a plan has staged is in its row, and active.
abbrev pub HasRow : Plan → Db → Type 0
HasRow p d =
    find (λ c. c.id == p.staged.credential_id) d.credentials
    ≡ some (activated (staged_row p.staged))

module _ (is_uuid : String → Bool) (libraries : Libraries) (engine : Engine) (env : Env)
    (delivery : Delivery) where
  -- With the repository of adapters/postgres, and with the helper behind its socket, whose temporary
  -- files are not the configuration: if `Create` returns a result, then it is that of the plan that
  -- was made of the request, the draws and the rows, and that plan was staged, written, applied and
  -- finalized. Xray runs with, and has at the configuration's path, the encoding of a configuration
  -- whose clients are those of every credential that `Load` gave, opened, under its identifier and
  -- name, and of the new one, each once; and the new one, which has the drawn UUID and short ID and
  -- the trimmed name, is the one whose URI is returned and whose sealed secret is in the row of its
  -- identifier, which is active.
  pub create_running :
      (randoms : Randoms) (around : Surroundings) (request : CreateAccessRequest)
      (before after : System) (r : CreateAccessResult)
      → IsApart engine env
      → create
          (postgres is_uuid)
          (helper_of libraries.sha256 engine env delivery)
          engine.candidate_directory
          around
          libraries
          randoms
          request
          before
        ≡ (got r, after)
      → (p : Plan) × (state : AccessState) × (d : Db) × (prepare
            (postgres is_uuid)
            libraries
            randoms
            request
            before.db
          ≡ got p)
        × (Access.load before.db ≡ Store.ok (state, d))
        × IsExtended libraries randoms request state p
        × HasCreated
            (postgres is_uuid)
            (helper_of libraries.sha256 engine env delivery)
            engine.candidate_directory
            around
            p
            before
            after
        × HasRow p after.db
        × (r ≡ p.result)
        × Serves engine after.world p.content
  create_running randoms around request before after r apart h =
      let (p, made, steps, result) =
        create_got (postgres is_uuid) (helper_of libraries.sha256 engine env delivery)
          engine.candidate_directory around libraries randoms request before after r h in
      let (state, d, read, planned) =
        prepare_got libraries (postgres is_uuid) randoms request before.db p made in
      (
        p,
        state,
        d,
        made,
        read,
        IsPlanned-IsExtended libraries randoms request state p planned,
        steps,
        find-finalize is_uuid around.stage_link around.finalize_link around.now p.staged p.finalized
            before.db steps.staged_db after.db planned.finalized_id steps.staged steps.finalized,
        result,
        written-Serves libraries.sha256 engine env delivery around.faults p.staged.revision_id
            p.staged.revision_hash p.content before.world after.world apart steps.written
            steps.applied,
      )
