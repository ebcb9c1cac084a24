-- ===== src/Finance.antt =====
-- internal/repository/finance/repository.go and internal/service/finance/service.go.
use frego_finance.Db.Sessions.{TenantSessionManager}
use frego_finance.Storage.Types.{DocumentUploader}

pub record Repository : Type 0 where
  pub sessions : TenantSessionManager

unfoldable pub new_with_sessions : TenantSessionManager → Repository
new_with_sessions sessions = record { sessions = sessions }

-- `S` is the state of the object store.
pub record Service (S : Type 0) : Type 0 where
  pub repo : Repository
  pub uploader : DocumentUploader S

unfoldable pub new_service : {S : Type 0} → Repository → DocumentUploader S → Service S
new_service repo uploader = record { repo = repo; uploader = uploader }
