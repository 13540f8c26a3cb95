-- ===== src/Http/Tests.antt =====
-- The API at concrete data, over a counter of the calls that reach a service.
use ez_vpn_lego.Prelude.{
  ◌≡◌, refl, ℕ, ◌+◌, String, true, false, [], ◌==◌, string_eq, bytes_eq, nat_eq,
}
use ez_vpn_lego.Prelude.Text.{codes}
use ez_vpn_lego.Store.Tx as Store
use ez_vpn_lego.Http.{Request, Ports, Decoders, invalid, error, panic, is_authentic, trim_prefix}
use ez_vpn_lego.Http.Handlers.{}
use ez_vpn_lego.Http.Server.{serve}
use ez_vpn_lego.Http.Guarded.{IsRefusal, serve_unauthenticated, serve_anonymous}

abbrev counting : Ports ℕ
counting = record {
  ping = λ n. true;
  list_users = λ n. (panic, n + 1);
  create_user = λ request n. (error Store.no_rows, n + 1);
  bootstrap_owner = λ n. (panic, n + 1);
  create_pairing = λ id n. (panic, n + 1);
  claim_pairing = λ token subject n. (panic, n + 1);
  resolve_telegram = λ subject n. (panic, n + 1);
  bootstrap_vpn = λ request n. (panic, n + 1);
  create_access = λ request n. (panic, n + 1);
}

abbrev decoders : Decoders
decoders = record {
  name_body = λ bytes. invalid;
  claim_body = λ bytes. invalid;
  vpn_body = λ bytes. invalid;
}

abbrev listing : String → String → Request
listing authorization admin_id = record {
  method = "GET";
  path = "/v1/users";
  authorization = authorization;
  admin_id = admin_id;
  idempotency_key = "";
  subject = "";
  body = [];
}

wrong_token : is_authentic codes (codes "secret") (listing "Bearer guess" "a") ≡ false
unfolding is_authentic trim_prefix bytes_eq nat_eq
wrong_token = refl

elsewhere : (path : String) → path ≡ "/v1/health" → (path == "/v1/users") ≡ false
unfolding string_eq
elsewhere path e = rw e refl

serve_unauthenticated_example :
    IsRefusal 7 (serve codes (codes "secret") counting decoders (listing "Bearer guess" "a") 7)
serve_unauthenticated_example =
    serve_unauthenticated codes (codes "secret") counting decoders (listing "Bearer guess" "a") 7
      wrong_token (elsewhere "/v1/health" refl)

other_owner : ◌==◌ {A = String} "/v1/bootstrap/owner" "/v1/users" ≡ false
unfolding string_eq
other_owner = refl

other_claim : ◌==◌ {A = String} "/v1/auth/telegram/claim" "/v1/users" ≡ false
unfolding string_eq
other_claim = refl

other_resolve : ◌==◌ {A = String} "/v1/auth/telegram/resolve" "/v1/users" ≡ false
unfolding string_eq
other_resolve = refl

serve_anonymous_example :
    IsRefusal 7 (serve codes (codes "secret") counting decoders (listing "Bearer secret" "") 7)
serve_anonymous_example =
    serve_anonymous codes (codes "secret") counting decoders (listing "Bearer secret" "") 7 refl
      (elsewhere "/v1/health" refl) other_owner other_claim other_resolve
