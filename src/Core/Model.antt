-- ===== src/Core/Model.antt =====
-- core/domain/model.go: the records. Times are seconds; `ExpiresAt` may be missing.
use ez_vpn_lego.Prelude.{ℕ, String}
use ez_vpn_lego.Core.Status.{LifecycleStatus}

pub data AdminRole : Type 0 where
  owner operator viewer : AdminRole

pub record Admin : Type 0 where
  pub id : String
  pub role : AdminRole
  pub status : LifecycleStatus
  pub created_at : ℕ
  pub updated_at : ℕ

pub record User : Type 0 where
  pub id : String
  pub name : String
  pub status : LifecycleStatus
  pub created_at : ℕ
  pub updated_at : ℕ
