-- ===== src/Shell/Tests.antt =====
-- The theorem on the routes at a visit without a session.
use procovar_notify.Prelude.{◌≡◌, false, some}
use procovar_notify.Shell.{elsewhere, Auth, visit}
use procovar_notify.Shell.Visits.{settled, visit-settled}

abbrev nobody : Auth
nobody = record { admin = false; checking = false }

visit-settled_example : visit 3 nobody elsewhere ≡ some (settled false false elsewhere)
visit-settled_example = visit-settled 0 nobody elsewhere
