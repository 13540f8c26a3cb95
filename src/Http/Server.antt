-- ===== src/Http/Server.antt =====
-- `Server.Handler`: the routes and the authentication of each.
use ez_vpn_lego.Prelude.{
  ℕ, String, Bool, true, false, ◌&&◌, ◌||◌, List, [], ◌∷◌, ◌==◌, string_eq, if◌then◌else◌,
}
use ez_vpn_lego.Http.{
  Request, Response, Ports, Decoders, write_error, authenticate_adapter, authenticate_admin,
}
use ez_vpn_lego.Http.Handlers.{
  get_health, bootstrap_owner, create_telegram_pairing, claim_telegram_pairing, resolve_telegram,
  bootstrap_vpn, create_access, list_users, create_user,
}

pub record Route (S : Type 0) : Type 0 where
  pub method : String
  pub path : String
  pub handler : Request → S → Response × S

-- `GET` in a pattern of `http.ServeMux` stands for `HEAD` too.
abbrev pub method_matches : String → String → Bool
method_matches pattern method = pattern == method || pattern == "GET" && method == "HEAD"

-- The choice of `http.ServeMux` among patterns that are whole paths: 405 where only the method
-- differs, 404 where no path is the same.
unfoldable pub dispatch : {S : Type 0} → List (Route S) → Bool → Request → S → Response × S
dispatch [] known request s = (write_error (if known then 405 else 404) "", s)
dispatch (r ∷ rs) known request s =
    let later = dispatch rs known request s in
    let other = dispatch rs true request s in
    if r.path == request.path
    then (if method_matches r.method request.method then r.handler request s else other)
    else later

module _ {S : Type 0} (sha256 : String → List ℕ) (token_hash : List ℕ) (ports : Ports S)
    (decoders : Decoders) where
  abbrev pub adapter : (Request → S → Response × S) → Request → S → Response × S
  adapter next = authenticate_adapter sha256 token_hash next

  abbrev pub admin : (Request → S → Response × S) → Request → S → Response × S
  admin next = authenticate_admin sha256 token_hash next

  -- The routes that want a token, in the order of `Handler`.
  abbrev pub protected : List (Route S)
  protected =
      record {
        method = "POST";
        path = "/v1/bootstrap/owner";
        handler = adapter (bootstrap_owner ports decoders);
      }
      ∷ record {
        method = "POST";
        path = "/v1/auth/telegram/pairing";
        handler = admin (create_telegram_pairing ports decoders);
      }
      ∷ record {
        method = "POST";
        path = "/v1/auth/telegram/claim";
        handler = adapter (claim_telegram_pairing ports decoders);
      }
      ∷ record {
        method = "GET";
        path = "/v1/auth/telegram/resolve";
        handler = adapter (resolve_telegram ports decoders);
      }
      ∷ record {
        method = "POST";
        path = "/v1/bootstrap/vpn";
        handler = admin (bootstrap_vpn ports decoders);
      }
      ∷ record {
        method = "POST";
        path = "/v1/access";
        handler = admin (create_access ports decoders);
      }
      ∷ record { method = "GET"; path = "/v1/users"; handler = admin (list_users ports decoders) }
      ∷ record { method = "POST"; path = "/v1/users"; handler = admin (create_user ports decoders) }
      ∷ []

  -- `Handler`
  unfoldable pub serve : Request → S → Response × S
  serve request s =
      dispatch
        (record { method = "GET"; path = "/v1/health"; handler = get_health ports decoders }
          ∷ protected)
        false request s
