-- ===== src/Infrastructure/Credentials.antt =====
-- infrastructure/credentials/store.rs: the errors of a credential store.
use reprodb.Common.Text.{Text}

pub data CredentialOperation : Type 0 where
  get set delete : CredentialOperation

pub data CredentialError : Type 0 where
  not_found : CredentialError
  store_unavailable operation_failed background_task_failed : CredentialOperation → CredentialError

abbrev pub SecretString : Type 0
SecretString = Text
