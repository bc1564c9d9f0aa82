-- ===== src/Matter/Checkin/Replays.antt =====
-- server/src/matter/checkin.rs: the same check-in a second time is a replay.
use rs_matter_server.Prelude.{nat_ord}
