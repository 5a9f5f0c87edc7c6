-- ===== src/Tests/Library.antt =====
-- A run of liburfkill-glib/urf-client.c.
use urfkill.Prelude.{true, false, some, List, [], ◌∷◌, refl, ◌≡◌}
use urfkill.Client.{
  Remote, Properties, DaemonSignal, added, removed, changed, Client, hear_signals, urf_device_init,
  urf_device_set_object_path_sync,
}

abbrev wlan : Properties
wlan = record {
  index = 0;
  type = 1;
  platform = true;
  name = some "phy0";
  urftype = some "org.freedesktop.URfkill.Device.Kernel";
  soft = some false;
  hard = some true;
}

abbrev remote : Remote
remote = record { properties = λ path. some wlan; specialized = λ path. true }

abbrev client : Client
client = record { proxy = true; devices = []; is_enumerated = true; signals = [] }

abbrev news : List DaemonSignal
news = added "/devices/0" ∷ added "/devices/1" ∷ changed "/devices/1" ∷ removed "/devices/0" ∷ []

one_left :
    (hear_signals remote news client).devices
    ≡ (urf_device_set_object_path_sync remote "/devices/1" urf_device_init).1 ∷ []
unfolding hear_signals urf_device_set_object_path_sync
one_left = refl
