-- ===== src/Router/Pipeline/Errors.antt =====
-- What an error is by the time that it leaves the router.
use cron_manager.Base.Eq.{list_eq}
use cron_manager.Base.Text.{Text}
