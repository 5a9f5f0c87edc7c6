-- ===== src/Tests/Running.antt =====
-- Examples for the theorems on src/urf-main.c and on the objects of liburfkill-glib.
use urfkill.Prelude.{
  ◌≡◌, refl, true, false, none, some, String, List, [], ◌∷◌, ◌++◌, map, arith, pos, ℤ,
}
use urfkill.Store.{DevicePath, device_path}
use urfkill.Config.{Config}
use urfkill.Daemon.{urf_daemon_enumerate_devices}
use urfkill.Daemon.Start.{Service, succeeds}
use urfkill.Daemon.Properties.{device_property, kernel_property}
use urfkill.Device.Names.{get_name}
use urfkill.Client.{
  RemoteDevice, Properties, Remote, Client, is_absolute, urf_client_enumerate_devices_sync,
}
use urfkill.Client.Mirror.{MirrorsAll, answer_of, enumerate_mirrors}
use urfkill.Client.Switches.{SwitchBus, Switches}
use urfkill.Client.Switches.Kept.{SwitchEvent, new, given_back, changed, run, Kept, run-Kept}
use urfkill.Main.{Args, System, child, Action, Files, new_service, main, load_config}
use urfkill.Main.Privileges.{Exited, main_lem}
use urfkill.Tests.Fixtures.{Table, table, world, with_card, daemon, config, empty_store}
use urfkill.Tests.Profiles.{texts, stored, directory, key_file}
use urfkill.Tests.Starting.{surroundings}

abbrev print : DevicePath → String
print (device_path i) = "/org/freedesktop/URfkill/devices/3"

print-absolute : (p : DevicePath) → is_absolute (print p) ≡ true
print-absolute (device_path i) = refl

abbrev card_properties : Properties
card_properties = record {
  index = 3;
  type = 1;
  platform = false;
  name = none;
  urftype = some "org.freedesktop.URfkill.Device.Kernel";
  soft = some false;
  hard = some false;
}

abbrev remote : Remote
remote = record { properties = λ path. some card_properties; specialized = λ path. true }

abbrev fresh : Client
fresh = record { proxy = true; devices = []; is_enumerated = false; signals = [] }

enumerate_mirrors_example :
    let devices = map with_card.store.heap with_card.devices in
    let answer = answer_of print (urf_daemon_enumerate_devices (daemon with_card)).replies in
    let x = urf_client_enumerate_devices_sync remote answer fresh in
    (x.0 ≡ true)
    × (x.1.is_enumerated ≡ true)
    × ((rs : List RemoteDevice) × (x.1.devices ≡ [] ++ rs) × MirrorsAll "unknown" print devices rs)
unfolding device_property kernel_property get_name
enumerate_mirrors_example =
    enumerate_mirrors "unknown" print remote (daemon with_card) fresh print-absolute (
      record {
        properties = card_properties;
        there = refl;
        specialized = refl;
        index = refl;
        type = refl;
        platform = refl;
        name = refl;
        urftype = refl;
        soft = refl;
        hard = refl;
      },
      tt,
    )

abbrev switch_bus : SwitchBus
switch_bus = λ path. some (some (pos 0))

abbrev no_switches : Switches
no_switches = λ t. none

abbrev life : List SwitchEvent
life = new switch_bus 1 ∷ new switch_bus 1 ∷ changed 1 (pos 2) ∷ given_back 1 ∷ []

run-Kept_example :
    (table' : Switches) × (run life no_switches ≡ some table') × Kept life no_switches table'
run-Kept_example =
    run-Kept life no_switches
      ((omega arith, (λ p. (pos 0, refl))), ((omega arith, (λ p. (pos 0, refl))), (tt, (tt, tt))))
      (λ t k h. cc)

abbrev args : Args
args = record {
  timed_exit = false;
  immediate_exit = false;
  fork_daemon = true;
  debug = false;
  username = some "urfkill";
  conf_file = none;
}

abbrev system : System
system = record {
  getpwnam = λ name. some (record { pw_uid = 7; pw_gid = 8 });
  initgroups = λ name gid. true;
  setgid = λ gid. true;
  setuid = λ uid. true;
  fork = child;
}

abbrev files : Files stored
files = record {
  key_file = λ name. some key_file;
  persistence = none;
  saved_profile = none;
  hardware_info = none;
  dir = directory;
  header = none;
  writable = false;
}

abbrev loaded : Config Table
loaded = record config {
  options = record { key_control = false; master_key = true; force_sync = false; persist = true };
}

main_lem_example :
    (s : Service Table) × (code : ℤ) × (acts : List Action) × (new_service table stored texts world
        empty_store.heap loaded
      ≡ some s)
    × (main table stored texts world "urfkill.conf" empty_store.heap files surroundings system args
        ≡ some (code, acts))
    × Exited system args (some "urfkill") (succeeds table world surroundings s) code acts
unfolding load_config
main_lem_example =
    main_lem table stored texts world "urfkill.conf" empty_store.heap files surroundings system args
      loaded refl refl refl refl refl (tt, ((λ e. omega arith), tt))
