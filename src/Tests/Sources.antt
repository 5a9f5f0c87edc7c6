-- ===== src/Tests/Sources.antt =====
-- Examples for the theorems on src/urf-input.c and src/urf-ofono-manager.c.
use urfkill.Prelude.{
  ℕ, ◌≡◌, refl, Bool, true, false, Option, none, some, String, List, [], ◌∷◌, ◌==◌, arith,
  if◌then◌else◌,
}
use urfkill.Utils.{no_adapter, unblocked}
use urfkill.Killswitch.{Killswitch, urf_killswitch_new}
use urfkill.Arbitrator.Invariant.{of_type}
use urfkill.Store.{ofono}
use urfkill.Device.Ofono.{ofono_fields}
use urfkill.Device.Register.{is_exported}
use urfkill.Input.{
  InputRead, stopped, whole, InputDevice, Input, urf_input_init, input_dev_open_channel, read_keys,
  input_event_cb, urf_input_startup,
}
use urfkill.Input.Choice.{best_node, urf_input_startup_lem}
use urfkill.Daemon.{Daemon}
use urfkill.Daemon.Pressing.{press_keys, Pressed, keys_lem}
use urfkill.Arbitrator.{Arbitrator, urf_arbitrator_init}
use urfkill.Arbitrator.Table.{IsGood}
use urfkill.OfonoManager.{
  OfonoManager, OfonoEvent, signal, modems, urf_ofono_manager_startup, ofono_proxy_ready_cb,
  on_ofono_vanished, urf_ofono_manager_add_modem, hear_all,
}
use urfkill.OfonoManager.Modems.{IsManaged, Stepped, modem_paths}
use urfkill.OfonoManager.Refine.{announced_all, paths_after_all, hear_all_refines}
use urfkill.OfonoManager.Restart.{index_reused}
use urfkill.Tests.Fixtures.{
  Table, table, world, start, start-IsGood, with_card, with_card-IsValid, daemon,
}

abbrev at_keyboard : InputDevice
at_keyboard = record {
  platform_parent = true;
  input_parent = some (some "AT Translated Set 2 keyboard");
  devnode = some "/dev/input/event0";
}

abbrev hotkeys : InputDevice
hotkeys = record {
  platform_parent = true;
  input_parent = some (some "Asus WMI hotkeys");
  devnode = some "/dev/input/event5";
}

abbrev opens : String → Option ℕ
opens path = some 9

urf_input_startup_lem_example :
    urf_input_startup (some (at_keyboard ∷ hotkeys ∷ [])) opens urf_input_init
    ≡ (elim (best_node (at_keyboard ∷ hotkeys ∷ [])) as (λ _. Bool × Input) [
      | none ↦ (false, urf_input_init)
      | some dev_node ↦ input_dev_open_channel opens dev_node urf_input_init
    ])
urf_input_startup_lem_example =
    urf_input_startup_lem (at_keyboard ∷ hotkeys ∷ []) opens urf_input_init

hotkeys_watched :
    urf_input_startup (some (at_keyboard ∷ hotkeys ∷ [])) opens urf_input_init
    ≡ (true, record { fd = some 9; channel = some "/dev/input/event5" })
unfolding urf_input_startup
hotkeys_watched = refl

-- KEY_WLAN is pressed and released, then the key A is pressed.
abbrev reads : List InputRead
reads =
    whole (record { value = 1; code = 238 })
    ∷ whole (record { value = 0; code = 238 })
    ∷ whole (record { value = 1; code = 30 })
    ∷ stopped
    ∷ []

keys_lem_example :
    (d' : Daemon Table) × (press_keys table world (input_event_cb true reads).1 (daemon with_card)
      ≡ some d')
    × Pressed table world (read_keys reads) (daemon with_card) d'
keys_lem_example =
    keys_lem table world reads (daemon with_card) with_card-IsValid refl
      ((λ e. ground arith), ((λ e. ground arith), ((λ e. ground arith), (tt, tt))))

abbrev manager : OfonoManager Table
manager = ofono_proxy_ready_cb false (urf_ofono_manager_startup start)

manager-IsManaged : IsManaged manager
unfolding ofono_proxy_ready_cb urf_ofono_manager_startup urf_arbitrator_init is_exported
manager-IsManaged = record {
  good = start-IsGood;
  first = omega arith;
  unused = λ i le. refl;
  below = λ p m. absurd (ground arith);
  listed = λ p m. absurd (ground arith);
  modems = λ p m. absurd (ground arith);
  distinct = tt;
}

-- Two modems are listed, one of them goes.
abbrev words : List OfonoEvent
words = modems (some ("/ril_0" ∷ "/ril_1" ∷ [])) ∷ signal "ModemRemoved" "/ril_0" ∷ []

hear_all_refines_example :
    (m' : OfonoManager Table) × (hear_all table world words manager ≡ some m')
    × Stepped (announced_all words) (paths_after_all words (modem_paths manager)) manager m'
unfolding ofono_proxy_ready_cb urf_ofono_manager_startup
hear_all_refines_example =
    hear_all_refines table world words manager manager-IsManaged refl (omega arith)

-- A modem is registered.
abbrev modem_switch : Killswitch
modem_switch = record { devices = 0 ∷ []; type = 5; saved_state = no_adapter; state = unblocked }

abbrev with_modem : Arbitrator Table
with_modem = record start {
  devices = 0 ∷ [];
  killswitch = λ t. if t == 5 then some modem_switch else start.killswitch t;
  store = record { heap = λ p. ofono (ofono_fields 100 "/ril_0"); next = 1; out = [] };
}

with_modem-IsGood : IsGood with_modem
unfolding urf_arbitrator_init urf_killswitch_new of_type ofono_fields
with_modem-IsGood = record {
  valid = record {
    no_all = refl;
    switches = λ t lo hi. ground arith;
    distinct = (refl, tt);
    fresh = λ p m. ground arith;
    typed = λ p m. (omega arith, omega arith);
  };
  unique = λ p q m n e. ground arith;
}

abbrev busy : OfonoManager Table
busy = record {
  arbitrator = with_modem;
  proxy = true;
  cancelled = false;
  asked = false;
  devices = 0 ∷ [];
  modem_idx = 101;
}

busy-IsManaged : IsManaged busy
unfolding ofono_fields is_exported
busy-IsManaged = record {
  good = with_modem-IsGood;
  first = omega arith;
  unused = λ i le. ground (arith, le);
  below = λ p m. omega arith;
  listed = λ p m. m;
  modems = λ p m. omega arith;
  distinct = (refl, tt);
}

index_reused_example :
    urf_ofono_manager_add_modem table world "/ril_1" (on_ofono_vanished busy) ≡ none
unfolding ofono_fields
index_reused_example = index_reused table world busy 0 "/ril_1" busy-IsManaged refl refl
