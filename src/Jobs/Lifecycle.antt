-- ===== src/Jobs/Lifecycle.antt =====
-- pwnproxy/services/jobs/lifecycle.py: the commands over the job table. A command that logs an
-- exception and goes on returns only the table.
use pwnproxy.Prelude.{ℕ, String, none, some}
use pwnproxy.Jobs.State.{Result}
use pwnproxy.Jobs.Storage
use pwnproxy.Jobs.Storage.{Db, Others, transition_status}

module _ (others : Others) (now id : ℕ) where
  unfoldable pub start : Db → Db × Result String
  start db = transition_status others now id "running" none none db

  unfoldable pub request_stop : Db → Db × Result String
  request_stop db = transition_status others now id "cancelled" none none db

  unfoldable pub complete : Db → Db × Result String
  complete db = transition_status others now id "completed" none none db

  unfoldable pub fail : String → Db → Db × Result String
  fail error db = transition_status others now id "failed" (some error) none db

  unfoldable pub safe_request_stop : Db → Db
  safe_request_stop db = (request_stop db).0

  unfoldable pub safe_fail : String → Db → Db
  safe_fail error db = (fail error db).0

  unfoldable pub safe_cancel : Db → Db
  safe_cancel db = safe_request_stop db

unfoldable pub update_stats : ℕ → String → Db → Db
update_stats id stats db = Storage.update_stats id stats db

unfoldable pub recover_stale : (ℕ → Others) → ℕ → Db → Db × ℕ
recover_stale others now db = Storage.mark_stale_running_failed others now db
