-- ===== src/Daemon/Served.antt =====
-- What an answer of the daemon says of Xray.
use ez_vpn_lego.Prelude.{
  ◌≡◌, refl, ap, ◌∙◌, ℕ, String, Option, none, some, List, string_eq, Bool-cases, inl, inr, arith,
}
use ez_vpn_lego.Prelude.Text.{is_empty}
use ez_vpn_lego.Store.Rows.{Db}
use ez_vpn_lego.Store.Tx as Store
use ez_vpn_lego.Postgres.Access.{AccessState, load}
use ez_vpn_lego.Helper.Engine.Outcomes.{IsApart}
use ez_vpn_lego.Services.{
  System, ServiceError, index_out_of_range, invalid_argument, Outcome, failed, got,
}
use ez_vpn_lego.Services.Running.{helper_of, Serves}
use ez_vpn_lego.Services.Access as Access
use ez_vpn_lego.Services.Access.{CreateAccessResult, CreateAccessRequest}
use ez_vpn_lego.Services.Access.Outcomes.{HasCreated}
use ez_vpn_lego.Services.Access.Running.{postgres, IsExtended, HasRow, create_running}
use ez_vpn_lego.Http.{
  Request, Response, access, Answer, value, error, panic, decode_json, is_authentic,
  authenticate_admin,
}
use ez_vpn_lego.Http.Handlers.{access_response, create_access, with_body, respond}
use ez_vpn_lego.Http.Server.{dispatch, serve}
use package.ez_vpn_lego.Daemon.{Conditions, Parts, outcome_answer, ports_of, serve_daemon}

access_response_created :
    (a : Answer ServiceError CreateAccessResult)
    → (access_response a).status ≡ 201
    → (r : CreateAccessResult) × (a ≡ value r)
unfolding access_response
access_response_created (value r) h = (r, refl)
access_response_created (error invalid_argument) h = absurd (omega (arith, h))
access_response_created (error e) h = absurd (ground (arith, h))
access_response_created panic h = absurd (omega (arith, h))

outcome_value :
    {V : Type 0} (x : Outcome V × System) (r : V)
    → (outcome_answer x).0 ≡ value r
    → x ≡ (got r, (outcome_answer x).1)
outcome_value (got v, s) r h = cc
outcome_value (failed index_out_of_range, s) r h = cc
outcome_value (failed e, s) r h = absurd (ground (arith, h))

-- A handler behind `authenticateAdmin` that answers 201 was called.
admitted :
    {S : Type 0} (sha256 : String → List ℕ) (token_hash : List ℕ)
    (next : Request → S → Response × S) (request : Request) (s : S) (P : Response × S → Type 0)
    → ((next request s).0.status ≡ 201 → P (next request s))
    → (authenticate_admin sha256 token_hash next request s).0.status ≡ 201
    → P (authenticate_admin sha256 token_hash next request s)
admitted sha256 token_hash next request s P holds h =
    elim (Bool-cases (is_authentic sha256 token_hash request)) [
      | inl known ↦ elim (Bool-cases (is_empty request.admin_id)) [
        | inl bare ↦ absurd (omega (arith, rw (known, bare) at h))
        | inr named ↦ rw (known, named) (holds (rw (known, named) at h))
      ]
      | inr stranger ↦ absurd (omega (arith, rw stranger at h))
    ]

-- A POST with a body.
abbrev pub post : String → String → String → String → List ℕ → Request
post path authorization admin_id key body = record {
  method = "POST";
  path = path;
  authorization = authorization;
  admin_id = admin_id;
  idempotency_key = key;
  subject = "";
  body = body;
}

module _ (parts : Parts) (token : String) (c : Conditions) where
  open parts use {is_uuid, libraries, engine, decoders}

  -- The daemon with the helper's directory of candidates.
  abbrev pub daemon : Request → System → Response × System
  daemon = serve_daemon parts engine.candidate_directory token c

  -- The request of the service that a request with a name in its body comes to.
  abbrev pub asked : Request → String → CreateAccessRequest
  asked request name = record {
    admin_id = request.admin_id;
    name = name;
    idempotency_key = request.idempotency_key;
  }

  -- What a created access means: its plan was made of the request, the draws and the rows, and carried
  -- out; the answer is the plan's, and Xray serves the credentials before and the new one.
  pub record AccessStands (request : Request) (before : System) (out : Response × System)
      : Type 0 where
    pub name : String
    pub named : decode_json decoders.name_body request.body ≡ some name
    pub plan : Access.Plan
    pub state : AccessState
    pub rows : Db
    pub prepared :
        Access.prepare (postgres is_uuid) libraries c.access_randoms (asked request name) before.db
        ≡ got plan
    pub loaded : load before.db ≡ Store.ok (state, rows)
    pub extended : IsExtended libraries c.access_randoms (asked request name) state plan
    pub steps :
        HasCreated
          (postgres is_uuid)
          (helper_of libraries.sha256 engine c.env c.delivery)
          engine.candidate_directory
          c.access_around
          plan
          before
          out.1
    pub stored : HasRow plan out.1.db
    pub answered : out.0.payload ≡ access plan.result
    pub serves : Serves engine out.1.world plan.content

  access_stands :
      (request : Request) (name : String) (before : System)
      (x : Outcome CreateAccessResult × System)
      → decode_json decoders.name_body request.body ≡ some name
      → ((after : System) (r : CreateAccessResult)
          → x ≡ (got r, after)
          → (p : Access.Plan) × (state : AccessState) × (d : Db) × (Access.prepare
                (postgres is_uuid)
                libraries
                c.access_randoms
                (asked request name)
                before.db
              ≡ got p)
            × (load before.db ≡ Store.ok (state, d))
            × IsExtended libraries c.access_randoms (asked request name) state p
            × HasCreated
                (postgres is_uuid)
                (helper_of libraries.sha256 engine c.env c.delivery)
                engine.candidate_directory
                c.access_around
                p
                before
                after
            × HasRow p after.db
            × (r ≡ p.result)
            × Serves engine after.world p.content)
      → (respond access_response (outcome_answer x)).0.status ≡ 201
      → AccessStands request before (respond access_response (outcome_answer x))
  unfolding access_response
  access_stands request name before x named running h =
      let (r, made) = access_response_created (outcome_answer x).0 h in
      let (p, state, d, prepared, read, extended, steps, stored, result, serves) =
        running (outcome_answer x).1 r (outcome_value x r made) in
      record {
        name = name;
        named = named;
        plan = p;
        state = state;
        rows = d;
        prepared = prepared;
        loaded = read;
        extended = extended;
        steps = steps;
        stored = stored;
        answered =
            ap (λ (a : Answer ServiceError CreateAccessResult). (access_response a).payload) made
            ∙ ap access result;
        serves = serves;
      }

  create_access_stands :
      (request : Request) (s : System)
      → IsApart engine c.env
      → (create_access (ports_of parts engine.candidate_directory c) decoders request s).0.status
        ≡ 201
      → AccessStands request s
          (create_access (ports_of parts engine.candidate_directory c) decoders request s)
  unfolding create_access ports_of
  create_access_stands request s apart h =
      bodies (decode_json decoders.name_body request.body) refl h
    where
      handler : String → Response × System
      handler name =
          respond access_response
            ((ports_of parts engine.candidate_directory c).create_access (asked request name) s)

      bodies :
          (body : Option String)
          → decode_json decoders.name_body request.body ≡ body
          → (with_body body s handler).0.status ≡ 201
          → AccessStands request s (with_body body s handler)
      bodies none same h = absurd (omega (arith, h))
      bodies (some name) same h =
          access_stands request name s _ same
            (λ after r k.
              create_running is_uuid libraries engine c.env c.delivery c.access_randoms
                c.access_around (asked request name) s after r apart k)
            h

  -- If the daemon answers 201 to a POST to `/v1/access`, whatever token, administrator, key and body it
  -- has, and the helper's temporary files are not the configuration, then the body decodes to a name,
  -- and a plan was made of that name, the administrator, the key, the draws and the rows, was staged,
  -- written, applied and finalized, and its result is the answer. `Load` gave the stored credentials;
  -- Xray runs with, and has at the configuration's path, the encoding of a configuration whose clients
  -- are those of every one of them and of the new one, each once; and the new one, which has the drawn
  -- UUID and short ID and the trimmed name, is the one whose URI is answered and whose sealed secret is
  -- in the row of its identifier, which is active.
  pub created-AccessStands :
      (authorization admin_id key : String) (body : List ℕ) (s : System)
      → IsApart engine c.env
      → (daemon (post "/v1/access" authorization admin_id key body) s).0.status ≡ 201
      → AccessStands
          (post "/v1/access" authorization admin_id key body)
          s
          (daemon (post "/v1/access" authorization admin_id key body) s)
  unfolding serve_daemon serve dispatch string_eq
  created-AccessStands authorization admin_id key body s apart h =
      admitted parts.hash (parts.hash token)
        (create_access (ports_of parts engine.candidate_directory c) decoders)
        (post "/v1/access" authorization admin_id key body) s
        (AccessStands (post "/v1/access" authorization admin_id key body) s)
        (create_access_stands (post "/v1/access" authorization admin_id key body) s apart) h
