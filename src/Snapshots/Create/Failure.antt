-- ===== src/Snapshots/Create/Failure.antt =====
-- What a creation that fails leaves in the store.
use glusterd.Prelude.{string_eq}
