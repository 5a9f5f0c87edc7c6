-- ===== src/Tests/Starting.antt =====
-- An example for the theorem on the start of src/urf-daemon.c.
use urfkill.Prelude.{true, some, [], ◌∷◌}
use urfkill.Arbitrator.Events.{short, full, add}
use urfkill.Daemon.Start.{Surroundings}
use urfkill.Tests.Fixtures.{bus, event}

abbrev pub surroundings : Surroundings
surroundings = record {
  registered = true;
  opened = true;
  reads = short ∷ full (event 0 1 add true) ∷ [];
  input_devices = some (
      record {
        platform_parent = true;
        input_parent = some (some "hotkeys");
        devnode = some "/dev/input/event5";
      }
      ∷ []);
  opens = λ path. some 9;
  connects = true;
  connects_bus = true;
  bus = bus;
  seats = some ("/seat/1" ∷ []);
}
