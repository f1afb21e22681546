-- ===== src/Server/Machine/Drive.antt =====
-- Where `drive_machine` stops.
use synthetic_client.World.{World}
use synthetic_client.Conn.{Conn}
use synthetic_client.Server.Machine.Parked.{Stops}
