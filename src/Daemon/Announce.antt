-- ===== src/Daemon/Announce.antt =====
-- src/urf-daemon.c: the signals on the bus for the three signals of the arbitrator.
use urfkill.Prelude.{Option, none, some, String, List, [], ◌∷◌, ◌++◌}
use urfkill.Store.{
  DevicePath, Output, write_change_all, set_online, get_properties, switch_changed,
  device_state_changed, device_added, device_removed, device_changed,
}
use urfkill.Client.{DaemonSignal, added, removed, changed}

-- The callbacks; a path of NULL only makes a warning, as an emission that fails does.
unfoldable pub urf_daemon_device_added_cb : (object_path : Option String) → List DaemonSignal
urf_daemon_device_added_cb none = []
urf_daemon_device_added_cb (some object_path) = added object_path ∷ []

unfoldable pub urf_daemon_device_removed_cb : (object_path : Option String) → List DaemonSignal
urf_daemon_device_removed_cb none = []
urf_daemon_device_removed_cb (some object_path) = removed object_path ∷ []

unfoldable pub urf_daemon_device_changed_cb : (object_path : Option String) → List DaemonSignal
urf_daemon_device_changed_cb none = []
urf_daemon_device_changed_cb (some object_path) = changed object_path ∷ []

-- The connections that urf_daemon_init makes, with `print` for the text of a path.
unfoldable pub announce : (print : DevicePath → String) → Output → List DaemonSignal
unfolding urf_daemon_device_added_cb urf_daemon_device_removed_cb urf_daemon_device_changed_cb
announce print (device_added path) = urf_daemon_device_added_cb (some (print path))
announce print (device_removed path) = urf_daemon_device_removed_cb (some (print path))
announce print (device_changed path) = urf_daemon_device_changed_cb (some (print path))
announce print (write_change_all type soft) = []
announce print (set_online modem online) = []
announce print (get_properties modem) = []
announce print (switch_changed type state) = []
announce print (device_state_changed soft hard) = []

-- The signals for a list of outputs, the latest first, in the order of time.
unfoldable pub announced : (print : DevicePath → String) → List Output → List DaemonSignal
unfolding announce
announced print [] = []
announced print (o ∷ os) = announced print os ++ announce print o
