-- ===== src/Application/Compatibility.antt =====
-- application/restore_engine.rs and application/remote_target_gate.rs: which versions of a dump a
-- server may import.
use reprodb.Common.{Bool, ◌&&◌, ◌||◌, ltb, leb, ◌==◌}
use reprodb.Domain.Version.{MysqlVersion, same_series}

-- `mysql_series(a) >= mysql_series(b)`, the order of the pairs.
abbrev pub series_ge : MysqlVersion → MysqlVersion → Bool
series_ge a b = ltb b.major a.major || a.major == b.major && leb b.minor a.minor

unfoldable pub versions_are_restore_compatible :
    MysqlVersion → MysqlVersion → MysqlVersion → MysqlVersion → Bool
unfolding same_series
versions_are_restore_compatible source_server source_client target_server target_client =
    same_series source_server source_client
    && same_series target_server target_client
    && source_server.major == target_server.major
    && series_ge target_server source_server

unfoldable pub is_same_major_downgrade : MysqlVersion → MysqlVersion → Bool
is_same_major_downgrade source destination =
    source.major == destination.major && ltb destination.minor source.minor
