-- ===== src/Logger/Examples.antt =====
-- A run of src/util/logger.c.
use pekar_drive.Common.{◌≡◌, none, some, [], ◌∷◌, ◌++◌, arith}
use pekar_drive.Result.{ok}
use pekar_drive.Memory.Strings.{codes}
use pekar_drive.Memory.Sample.{zeroed}
use pekar_drive.Logger.{warning, log_buffer, logger}
use pekar_drive.Logger.Messages.{filled, logger_lem}

logger_lem_example :
    logger zeroed warning (codes "PekarDrive" ++ 0 ∷ []) (codes "hi" ++ 0 ∷ []) none
    ≡ ok (record {
      returned = filled (codes "PekarDrive") (codes "hi") (zeroed.malloc 1000);
      printed = 27 ∷ codes "[33mPekarDrive: hi" ++ (27 ∷ codes "[0m\n");
      log_msg = some (filled (codes "PekarDrive") (codes "hi") (zeroed.malloc 1000));
    })
unfolding log_buffer
logger_lem_example =
    logger_lem zeroed (codes "PekarDrive") (codes "hi") [] [] (ground arith) (ground arith) none
      (zeroed.length-malloc 1000) warning (ground arith)
