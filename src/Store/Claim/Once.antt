-- ===== src/Store/Claim/Once.antt =====
-- internal/store: a run that a node was given is given to no node again, whatever the store does between.
use pingachock.Store.Db.{Db}
