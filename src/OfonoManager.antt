-- ===== src/OfonoManager.antt =====
-- src/urf-ofono-manager.c: the modems that oFono knows, which become devices of the arbitrator.
pub mod Modems
pub mod Refine
pub mod Restart
use urfkill.Prelude.{
  ℕ, ◌+◌, ◌-◌, ◌^◌, Bool, true, false, Option, none, some, String, List, [], ◌∷◌, ◌++◌, str_eq,
  ◌==◌, ◌>>=◌, remove, is_empty, if◌then◌else◌,
}
use urfkill.Store.{Outside, Store}
use urfkill.Device.{urf_device_ofono_get_path}
use urfkill.Device.Register.{urf_device_ofono_new}
use urfkill.Config.{KeyFile}
use urfkill.Arbitrator.{Arbitrator, urf_arbitrator_add_device, drop_device}

-- struct _UrfOfonoManager, with the static modem_idx. `arbitrator` is none before the start,
-- `proxy` tells whether the pointer is not NULL, `cancelled` is the state of the cancellable, and
-- `asked` whether an answer to GetModems is waited for.
pub record OfonoManager (File : Type 0) : Type 0 where
  pub arbitrator : Arbitrator File
  pub proxy : Bool
  pub cancelled : Bool
  pub asked : Bool
  pub devices : List ℕ
  pub modem_idx : ℕ

-- What oFono says while its proxy is there: a signal with the path of a modem, or the answer to
-- GetModems, where none is an error.
pub data OfonoEvent : Type 0 where
  signal : (signal_name object_path : String) → OfonoEvent
  modems : Option (List String) → OfonoEvent

-- `g_strcmp0 (path, object_path) == 0` where path may be NULL.
abbrev pub is_path : String → Option String → Bool
is_path object_path none = false
is_path object_path (some path) = str_eq path object_path

-- The loop of urf_ofono_manager_remove_modem.
unfoldable pub find_modem : Store → List ℕ → (object_path : String) → Option ℕ
find_modem s [] object_path = none
find_modem s (p ∷ ps) object_path =
    if is_path object_path (urf_device_ofono_get_path (s.heap p))
    then some p
    else find_modem s ps object_path

module _ {File : Type 0} where
  unfoldable pub urf_ofono_manager_remove_modem :
      (object_path : String) → OfonoManager File → Option (OfonoManager File)
  unfolding find_modem
  urf_ofono_manager_remove_modem object_path m =
      elim (find_modem m.arbitrator.store m.devices object_path)
        as (λ _. Option (OfonoManager File)) [
          | none ↦ some m
          | some device ↦
              drop_device device m.arbitrator
              >>= (λ a. some (record m { devices = remove device m.devices; arbitrator = a }))
        ]

  -- It only makes a log line.
  unfoldable pub urf_ofono_manager_remove_all_modems : OfonoManager File → OfonoManager File
  urf_ofono_manager_remove_all_modems m = m

  unfoldable pub ofono_proxy_ready_cb : (error : Bool) → OfonoManager File → OfonoManager File
  ofono_proxy_ready_cb true m = record m { proxy = false }
  ofono_proxy_ready_cb false m = record m { proxy = true; cancelled = false; asked = true }

  unfoldable pub on_ofono_appeared : OfonoManager File → OfonoManager File
  on_ofono_appeared m = record m { cancelled = false }

  unfoldable pub on_ofono_vanished : OfonoManager File → OfonoManager File
  unfolding urf_ofono_manager_remove_all_modems
  on_ofono_vanished m =
      let gone = record m { cancelled = true; proxy = false } in
      if is_empty m.devices
      then gone
      else urf_ofono_manager_remove_all_modems (record gone { modem_idx = 100 })

  -- urf_ofono_manager_startup on a manager that urf_ofono_manager_init has made.
  unfoldable pub urf_ofono_manager_startup : Arbitrator File → OfonoManager File
  urf_ofono_manager_startup a = record {
    arbitrator = a;
    proxy = false;
    cancelled = false;
    asked = false;
    devices = [];
    modem_idx = 100;
  }

module _ {File : Type 0} (kf : KeyFile File) (w : Outside) where
  -- modem_idx is a gint, and to count over its end is a fault.
  unfoldable pub urf_ofono_manager_add_modem :
      (object_path : String) → OfonoManager File → Option (OfonoManager File)
  unfolding urf_arbitrator_add_device urf_device_ofono_new
  urf_ofono_manager_add_modem object_path m =
      let added : Option (OfonoManager File) = (do
        (device, s) ← urf_device_ofono_new m.modem_idx object_path m.arbitrator.store
        a ← urf_arbitrator_add_device kf w device (record m.arbitrator { store = s })
        some (record m {
          arbitrator = a;
          devices = m.devices ++ device ∷ [];
          modem_idx = m.modem_idx + 1;
        })) in
      if m.modem_idx == 2 ^ 31 - 1 then none else added

  -- The loop of ofono_get_modems_cb.
  unfoldable pub add_modems : List String → OfonoManager File → Option (OfonoManager File)
  unfolding urf_ofono_manager_add_modem
  add_modems [] m = some m
  add_modems (modem_path ∷ paths) m = urf_ofono_manager_add_modem modem_path m >>= add_modems paths

  -- Without a proxy the call is finished on NULL: there is no error and no answer to read.
  unfoldable pub ofono_get_modems_cb :
      (answer : Option (List String)) → OfonoManager File → Option (OfonoManager File)
  unfolding add_modems
  ofono_get_modems_cb answer m =
      let m' = record m { asked = false } in
      let read : Option (OfonoManager File) = elim answer as (λ _. Option (OfonoManager File)) [
        | none ↦ some m'
        | some paths ↦ add_modems paths m'
      ] in
      if m.proxy then read else none

  unfoldable pub ofono_signal_cb :
      (signal_name object_path : String) → OfonoManager File → Option (OfonoManager File)
  unfolding urf_ofono_manager_add_modem urf_ofono_manager_remove_modem
  ofono_signal_cb signal_name object_path m =
      if str_eq signal_name "ModemAdded"
      then urf_ofono_manager_add_modem object_path m
      else if str_eq signal_name "ModemRemoved"
      then urf_ofono_manager_remove_modem object_path m
      else some m

  unfoldable pub hear_ofono : OfonoEvent → OfonoManager File → Option (OfonoManager File)
  unfolding ofono_signal_cb ofono_get_modems_cb
  hear_ofono (signal name object_path) m = ofono_signal_cb name object_path m
  hear_ofono (modems answer) m = ofono_get_modems_cb answer m

  unfoldable pub hear_all : List OfonoEvent → OfonoManager File → Option (OfonoManager File)
  unfolding hear_ofono
  hear_all [] m = some m
  hear_all (e ∷ es) m = hear_ofono e m >>= hear_all es
