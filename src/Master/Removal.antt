-- ===== src/Master/Removal.antt =====
-- The DELETE requests of clients: handle_client and handle_request of src/master.c, and worker_delete of
-- src/worker_admin.c.
use pekar_drive.Result.{◌>>=◌}
use pekar_drive.Memory.{Memory}
