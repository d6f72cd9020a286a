-- ===== src/Restore/Runs/Episode.antt =====
-- The runs of one restore share one undo point (`begin_run`).
use session_restore.Restore.Runs.Shared.{Shared}
use session_restore.Common.{ℕ_eq, String_eq}
use session_restore.Store.Db.{Db}
