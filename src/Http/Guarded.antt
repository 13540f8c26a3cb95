-- ===== src/Http/Guarded.antt =====
-- What a request can do that is not authenticated.
use ez_vpn_lego.Prelude.{
  ◌≡◌, ◌⊎◌, inl, inr, refl, ℕ, String, Bool, true, false, List, [], ◌∷◌, All, Bool-cases, ◌==◌,
  string_eq,
}
use ez_vpn_lego.Prelude.Text.{is_empty}
use ez_vpn_lego.Http.{
  Request, Response, Ports, Decoders, is_authentic, authenticate_adapter, authenticate_admin,
}
use ez_vpn_lego.Http.Handlers.{
  bootstrap_owner, create_telegram_pairing, claim_telegram_pairing, resolve_telegram, bootstrap_vpn,
  create_access, list_users, create_user,
}
use ez_vpn_lego.Http.Server.{Route, dispatch, method_matches, serve}

-- The state is the same and the status is one of a refusal.
abbrev pub IsRefusal : {S : Type 0} → S → Response × S → Type 0
IsRefusal s r = (r.1 ≡ s) × ((r.0.status ≡ 401) ⊎ ((r.0.status ≡ 404) ⊎ (r.0.status ≡ 405)))

-- The route is for another path, or its handler refuses the request.
abbrev IsClosed : {S : Type 0} → Request → S → Route S → Type 0
IsClosed request s r = ((r.path == request.path) ≡ false) ⊎ IsRefusal s (r.handler request s)

dispatch_refused :
    {S : Type 0} (routes : List (Route S)) (known : Bool) (request : Request) (s : S)
    → All (IsClosed request s) routes
    → IsRefusal s (dispatch routes known request s)
unfolding dispatch
dispatch_refused [] true request s h = (refl, inr (inr refl))
dispatch_refused [] false request s h = (refl, inr (inl refl))
dispatch_refused (r ∷ rs) known request s (inl differ, hs) =
    rw differ (dispatch_refused rs known request s hs)
dispatch_refused (r ∷ rs) known request s (inr h, hs) = elim (Bool-cases (r.path == request.path)) [
  | inl same ↦ elim (Bool-cases (method_matches r.method request.method)) [
    | inl fits ↦ rw (same, fits) h
    | inr other ↦ rw (same, other) (dispatch_refused rs true request s hs)
  ]
  | inr differ ↦ rw differ (dispatch_refused rs known request s hs)
]

module _ {S : Type 0} (sha256 : String → List ℕ) (token_hash : List ℕ) (ports : Ports S)
    (decoders : Decoders) where
  adapter_refused :
      (next : Request → S → Response × S) (request : Request) (s : S)
      → is_authentic sha256 token_hash request ≡ false
      → IsRefusal s (authenticate_adapter sha256 token_hash next request s)
  adapter_refused next request s h = rw h (refl, inl refl)

  admin_refused :
      (next : Request → S → Response × S) (request : Request) (s : S)
      → (is_authentic sha256 token_hash request ≡ false) ⊎ (is_empty request.admin_id ≡ true)
      → IsRefusal s (authenticate_admin sha256 token_hash next request s)
  admin_refused next request s (inl h) = rw h (refl, inl refl)
  admin_refused next request s (inr h) =
      elim (Bool-cases (is_authentic sha256 token_hash request)) [
        | inl known ↦ rw (known, h) (refl, inl refl)
        | inr stranger ↦ rw stranger (refl, inl refl)
      ]

  -- A request whose token is not the server's is refused, with 401, 404 or 405, and leaves the state
  -- as it is, whatever its method, headers and body are, unless its path is `/v1/health`.
  pub serve_unauthenticated :
      (request : Request) (s : S)
      → is_authentic sha256 token_hash request ≡ false
      → ("/v1/health" == request.path) ≡ false
      → IsRefusal s (serve sha256 token_hash ports decoders request s)
  unfolding serve
  serve_unauthenticated request s stranger elsewhere = dispatch_refused _ false request s (
    inl elsewhere,
    (
      inr (adapter_refused (bootstrap_owner ports decoders) request s stranger),
      (
        inr (admin_refused (create_telegram_pairing ports decoders) request s (inl stranger)),
        (
          inr (adapter_refused (claim_telegram_pairing ports decoders) request s stranger),
          (
            inr (adapter_refused (resolve_telegram ports decoders) request s stranger),
            (
              inr (admin_refused (bootstrap_vpn ports decoders) request s (inl stranger)),
              (
                inr (admin_refused (create_access ports decoders) request s (inl stranger)),
                (
                  inr (admin_refused (list_users ports decoders) request s (inl stranger)),
                  (inr (admin_refused (create_user ports decoders) request s (inl stranger)), tt),
                ),
              ),
            ),
          ),
        ),
      ),
    ),
  )

  -- A request that names no administrator is refused, with 401, 404 or 405, and leaves the state as
  -- it is, even with the right token, unless its path is that of the health check, of the owner's
  -- bootstrap, or of claiming or resolving a Telegram account.
  pub serve_anonymous :
      (request : Request) (s : S)
      → is_empty request.admin_id ≡ true
      → ("/v1/health" == request.path) ≡ false
      → ("/v1/bootstrap/owner" == request.path) ≡ false
      → ("/v1/auth/telegram/claim" == request.path) ≡ false
      → ("/v1/auth/telegram/resolve" == request.path) ≡ false
      → IsRefusal s (serve sha256 token_hash ports decoders request s)
  unfolding serve
  serve_anonymous request s nobody h1 h2 h3 h4 = dispatch_refused _ false request s (
    inl h1,
    (
      inl h2,
      (
        inr (admin_refused (create_telegram_pairing ports decoders) request s (inr nobody)),
        (
          inl h3,
          (
            inl h4,
            (
              inr (admin_refused (bootstrap_vpn ports decoders) request s (inr nobody)),
              (
                inr (admin_refused (create_access ports decoders) request s (inr nobody)),
                (
                  inr (admin_refused (list_users ports decoders) request s (inr nobody)),
                  (inr (admin_refused (create_user ports decoders) request s (inr nobody)), tt),
                ),
              ),
            ),
          ),
        ),
      ),
    ),
  )
