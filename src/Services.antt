-- ===== src/Services.antt =====
-- services: the operations that span the database, the candidate file and the helper. A service
-- meets the helper and the repository only by the interfaces `Helper` and `Repository`.
pub mod Access
pub mod Bootstrap
pub mod Running
pub mod Samples
use ez_vpn_lego.Prelude.{◌≡◌, refl, ℕ, String, Bool, true, false, Option, none, some, List}
use ez_vpn_lego.Store.Rows.{Db}
use ez_vpn_lego.Helper.Disk.{World}
use ez_vpn_lego.Store.Tx as Store
use ez_vpn_lego.Secretbox as Secret
use ez_vpn_lego.Reality as Driver
use ez_vpn_lego.Candidate.{CandidateError}

-- What the services change: the rows, and the files with the process that runs on them.
pub record System : Type 0 where
  pub db : Db
  pub world : World

pub data ServiceError : Type 0 where
  invalid_argument entropy_failed helper_failed undecodable : ServiceError
  index_out_of_range : ServiceError  -- a panic of the runtime
  driver : Driver.RealityError → ServiceError
  secret : Secret.SecretError → ServiceError
  storage : Store.Error → ServiceError
  candidate : CandidateError → ServiceError
  not_finalized : Store.Error → ServiceError

-- What a method returns: a value, or its error.
pub data Outcome (Value : Type 0) : Type 0 where
  failed : ServiceError → Outcome Value
  got : Value → Outcome Value

infixl 5 ◌>>=◌ ◌>>◌
abbrev pub ◌>>=◌ : {V W : Type 0} → Outcome V → (V → Outcome W) → Outcome W
failed reason >>= next = failed reason
got value >>= next = next value

abbrev pub ◌>>◌ : {W : Type 0} → Outcome (Unit {0}) → Outcome W → Outcome W
failed reason >> next = failed reason
got checked >> next = next

abbrev pub require : Bool → ServiceError → Outcome (Unit {0})
require true e = got tt
require false e = failed e

abbrev pub drawn : {V : Type 0} → Option V → Outcome V
drawn none = failed entropy_failed
drawn (some value) = got value

abbrev pub by_driver : {V : Type 0} → Driver.Result V → Outcome V
by_driver (Driver.refused e) = failed (driver e)
by_driver (Driver.made value) = got value

abbrev pub by_secrets : {V : Type 0} → Secret.Result V → Outcome V
by_secrets (Secret.sealed_out e) = failed (secret e)
by_secrets (Secret.done value) = got value

pub stepped :
    {V W : Type 0} {w : W} (step : Outcome V) (next : V → Outcome W)
    → (step >>= next) ≡ got w
    → (v : V) × (step ≡ got v) × (next v ≡ got w)
stepped (failed reason) next h = cc
stepped (got v) next h = (v, refl, h)

pub required :
    {W : Type 0} {w : W} (test : Bool) (e : ServiceError) (next : Outcome W)
    → (require test e >> next) ≡ got w
    → (test ≡ true) × (next ≡ got w)
required true e next h = (refl, h)
required false e next h = cc

-- The interface of the helper: revision ID and checksum; true if it has applied them.
abbrev pub Helper : Type 0
Helper = String → String → World → Bool × World

-- The secrets that the services seal, and what the libraries make of them as JSON.
pub record InstanceSecret : Type 0 where
  pub private_key : String
  pub public_key : String
  pub target : String
  pub server_names : List String
  pub port : ℕ

pub record CredentialSecret : Type 0 where
  pub uuid : String
  pub short_id : String

-- The libraries that a service calls. `encode_…` is `json.Marshal`, which has no error on these
-- types, and `decode_…` is `json.Unmarshal`.
pub record Libraries : Type 0 where
  pub sha256 : List ℕ → List ℕ
  pub aead : Secret.Aead
  pub valid_target : String → Bool
  pub is_ip : String → Bool
  pub query_escape : String → String
  pub path_escape : String → String
  pub encode_config : Driver.Config → Option (List ℕ)
  pub encode_instance : InstanceSecret → List ℕ
  pub decode_instance : List ℕ → Option InstanceSecret
  pub encode_credential : CredentialSecret → List ℕ
  pub decode_credential : List ℕ → Option CredentialSecret
