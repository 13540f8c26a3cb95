-- ===== src/Http/Statuses.antt =====
-- The statuses tell success from failure.
use ez_vpn_lego.Prelude.{◌≡◌, Bool, true, false, ltb, arith, List}
use ez_vpn_lego.Core.Model.{Admin, User}
use ez_vpn_lego.Postgres.Users.{CreateUserResult}
use ez_vpn_lego.Postgres.Admins.{PairingToken}
use ez_vpn_lego.Services.{ServiceError}
use ez_vpn_lego.Services.Access.{CreateAccessResult}
use ez_vpn_lego.Services.Bootstrap.{BootstrapVpnResult}
use ez_vpn_lego.Store.Tx as Store
use ez_vpn_lego.Http.{Response, Answer, value, error, panic}
use ez_vpn_lego.Http.Handlers.{
  pairing_response, claim_response, resolve_response, access_response, vpn_response, owner_response,
  users_response, user_response,
}

abbrev pub is_value : {E V : Type 0} → Answer E V → Bool
is_value (value v) = true
is_value (error e) = false
is_value panic = false

abbrev pub is_success : Response → Bool
is_success r = ltb r.status 400

pairing_status :
    (a : Answer Store.Error PairingToken) → is_success (pairing_response a) ≡ is_value a
unfolding pairing_response
pairing_status a = ground arith

claim_status : (a : Answer Store.Error Admin) → is_success (claim_response a) ≡ is_value a
unfolding claim_response
claim_status a = ground arith

resolve_status : (a : Answer Store.Error Admin) → is_success (resolve_response a) ≡ is_value a
unfolding resolve_response
resolve_status a = ground arith

access_status :
    (a : Answer ServiceError CreateAccessResult) → is_success (access_response a) ≡ is_value a
unfolding access_response
access_status a = ground arith

vpn_status : (a : Answer ServiceError BootstrapVpnResult) → is_success (vpn_response a) ≡ is_value a
unfolding vpn_response
vpn_status a = ground arith

owner_status : (a : Answer Store.Error Admin) → is_success (owner_response a) ≡ is_value a
unfolding owner_response
owner_status a = ground arith

users_status : (a : Answer Store.Error (List User)) → is_success (users_response a) ≡ is_value a
unfolding users_response
users_status a = ground arith

user_status : (a : Answer Store.Error CreateUserResult) → is_success (user_response a) ≡ is_value a
unfolding user_response
user_status a = ground arith

-- Each handler that calls a service writes a status below 400 exactly if the service returned a
-- value; an error or a panic of the service never looks like success.
pub responses-is_success :
    (p : Answer Store.Error PairingToken) (c r o : Answer Store.Error Admin)
    (x : Answer ServiceError CreateAccessResult) (v : Answer ServiceError BootstrapVpnResult)
    (l : Answer Store.Error (List User)) (u : Answer Store.Error CreateUserResult)
    → (is_success (pairing_response p) ≡ is_value p)
      × (is_success (claim_response c) ≡ is_value c)
      × (is_success (resolve_response r) ≡ is_value r)
      × (is_success (owner_response o) ≡ is_value o)
      × (is_success (access_response x) ≡ is_value x)
      × (is_success (vpn_response v) ≡ is_value v)
      × (is_success (users_response l) ≡ is_value l)
      × (is_success (user_response u) ≡ is_value u)
responses-is_success p c r o x v l u = (
  pairing_status p,
  claim_status c,
  resolve_status r,
  owner_status o,
  access_status x,
  vpn_status v,
  users_status l,
  user_status u,
)
