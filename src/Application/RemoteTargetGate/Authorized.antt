-- ===== src/Application/RemoteTargetGate/Authorized.antt =====
-- What `authorize` lets through once the dump is known.
use reprodb.Common.{◌≡◌, ◌↔◌, Bool, true, false, arith, ok}
use reprodb.Common.Text.{text_eq, text_eq_iff}
use reprodb.Domain.Names.{DatabaseName}
use reprodb.Domain.Artifact.{DumpArtifactMetadata}
use reprodb.Application.Compatibility.{versions_are_restore_compatible, is_same_major_downgrade}
use reprodb.Application.RemoteTargetGate.{GuardedRemoteTarget, AuthorizedRemoteTarget, authorize}

-- The dump may be imported into the database: its own server only where its profile accepts pushes,
-- never its own database there, and an older series of its major version only by consent.
pub record IsAuthorized (remote : GuardedRemoteTarget) (database : DatabaseName)
    (metadata : DumpArtifactMetadata) (source_accepts_push allow_downgrade : Bool) : Type 0 where
  pub source :
      remote.server_uuid ≡ metadata.source_server_uuid
      → (source_accepts_push ≡ true) × (text_eq database metadata.database ≡ false)
  pub downgrade :
      is_same_major_downgrade metadata.source_version remote.server_version ≡ true
      → allow_downgrade ≡ true
  pub compatible :
      is_same_major_downgrade metadata.source_version remote.server_version ≡ false
      → versions_are_restore_compatible metadata.source_version metadata.client_version
          remote.server_version remote.client.version
        ≡ true

pub authorize-IsAuthorized :
    (remote : GuardedRemoteTarget) (database : DatabaseName) (metadata : DumpArtifactMetadata)
    (accepted allow_downgrade : Bool) (target : AuthorizedRemoteTarget)
    → authorize remote database metadata accepted allow_downgrade ≡ ok target
    → IsAuthorized remote database metadata accepted allow_downgrade
unfolding authorize
authorize-IsAuthorized remote database metadata accepted allow_downgrade target h = record {
  source = λ e.
      let same = (text_eq_iff remote.server_uuid metadata.source_server_uuid).1 e in ground arith;
  downgrade = λ e. ground arith;
  compatible = λ e. ground arith;
}

abbrev pub authorized :
    GuardedRemoteTarget → DatabaseName → DumpArtifactMetadata → AuthorizedRemoteTarget
authorized remote database metadata = record {
  target = remote;
  database = database;
  downgrade = is_same_major_downgrade metadata.source_version remote.server_version;
}

IsAuthorized-authorize :
    (remote : GuardedRemoteTarget) (database : DatabaseName) (metadata : DumpArtifactMetadata)
    (accepted allow_downgrade : Bool)
    → IsAuthorized remote database metadata accepted allow_downgrade
    → authorize remote database metadata accepted allow_downgrade
      ≡ ok (authorized remote database metadata)
unfolding authorize
IsAuthorized-authorize remote database metadata accepted allow_downgrade a = ground (
  arith,
  text_eq_iff remote.server_uuid metadata.source_server_uuid,
  a.source,
  a.downgrade,
  a.compatible,
)

-- `authorize` returns the bound destination exactly if the dump may be imported there: the server it
-- came from only where its profile accepts pushes and into another database, an older series of the
-- same major version only if that is allowed, and otherwise only compatible versions.
pub authorize_iff :
    (remote : GuardedRemoteTarget) (database : DatabaseName) (metadata : DumpArtifactMetadata)
    (accepted allow_downgrade : Bool)
    → (authorize remote database metadata accepted allow_downgrade
        ≡ ok (authorized remote database metadata))
      ↔ IsAuthorized remote database metadata accepted allow_downgrade
authorize_iff remote database metadata accepted allow_downgrade = (
  authorize-IsAuthorized remote database metadata accepted allow_downgrade _,
  IsAuthorized-authorize remote database metadata accepted allow_downgrade,
)

pub authorize-authorized :
    (remote : GuardedRemoteTarget) (database : DatabaseName) (metadata : DumpArtifactMetadata)
    (accepted allow_downgrade : Bool) (target : AuthorizedRemoteTarget)
    → authorize remote database metadata accepted allow_downgrade ≡ ok target
    → authorized remote database metadata ≡ target
authorize-authorized remote database metadata accepted allow_downgrade target h = cc (
  h,
  IsAuthorized-authorize remote database metadata accepted allow_downgrade
      (authorize-IsAuthorized remote database metadata accepted allow_downgrade target h),
)
