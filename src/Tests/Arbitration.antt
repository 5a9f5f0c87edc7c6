-- ===== src/Tests/Arbitration.antt =====
-- Examples for the theorems on src/urf-arbitrator.c, src/urf-killswitch.c and src/urf-config.c.
use urfkill.Prelude.{
  ℕ, none, String, ◌≡◌, ◌≢◌, ◌↔◌, ◌≤◌, refl, Bool, true, false, some, List, [], ◌∷◌, ◌++◌, ◌||◌,
  if◌then◌else◌, arith, All, mem, remove, is_empty, pos, inr,
}
use urfkill.Utils.{unblocked, no_adapter, rank, state_eq, of_bool}
use urfkill.Store.{OfonoDevice, boolean, switch_changed}
use urfkill.Device.{get_state, is_hardware_blocked}
use urfkill.Device.Laws.{Same, wanted}
use urfkill.Device.Ofono.{get_properties_cb, modem_signal_cb, lookup}
use urfkill.Device.Modem.{online_calls, modem_signal_cb_lem, get_properties_cb_lem}
use urfkill.Killswitch.{
  current_state, urf_killswitch_state_refresh, urf_killswitch_set_software_blocked,
}
use urfkill.Killswitch.Aggregate.{current_state-unblocked_iff, device-le-switch}
use urfkill.Killswitch.Block.{set_software_blocked_lem, refresh_lem}
use urfkill.Config.{Config, urf_config_set_persist_state, urf_config_get_persist_state}
use urfkill.Arbitrator.{
  Arbitrator, urf_arbitrator_add_device, drop_device, urf_arbitrator_set_block,
}
use urfkill.Arbitrator.Events.{handle_events, urf_arbitrator_startup, short, full, add}
use urfkill.Arbitrator.Startup.{startup_lem}
use urfkill.Arbitrator.Invariant.{IsValid}
use urfkill.Arbitrator.Devices.{add_device-IsValid, drop_device_lem}
use urfkill.Arbitrator.Block.{Blocked, set_block_lem, get-set_persist_state}
use urfkill.Arbitrator.Table.{view, table_after_all, Follows, IsGood}
use urfkill.Arbitrator.Refine.{handle_events_refines}
use urfkill.Tests.Fixtures.{
  event, Table, table, world, config, start, start-IsGood, start-AllListed, card, wlan_switch,
  with_card, with_card-IsValid, events, events-IsKernelEvent, events-NewIndices,
}

handle_events_refines_example :
    (a' : Arbitrator Table) × (handle_events table world events start ≡ some a')
    × Follows (table_after_all events (view start)) a'
handle_events_refines_example =
    handle_events_refines table world events start start-IsGood events-IsKernelEvent
      events-NewIndices

set_block_lem_example :
    (r : Bool) × (a' : Arbitrator Table) × (urf_arbitrator_set_block table world
        (pos 1)
        true
        with_card
      ≡ some (r, a'))
    × Blocked table world 1 true with_card r a'
set_block_lem_example =
    set_block_lem table world with_card 1 true with_card-IsValid (omega arith) (omega arith)

drop_device_lem_example :
    (a' : Arbitrator Table) × (drop_device 0 with_card ≡ some a')
    × IsValid a'
    × (a'.devices ≡ remove 0 with_card.devices)
    × (a'.store.heap ≡ with_card.store.heap)
drop_device_lem_example = drop_device_lem with_card 0 with_card-IsValid refl

-- A second card, which is not registered yet.
abbrev two_cards : Arbitrator Table
two_cards = record with_card { store = record { heap = λ p. card; next = 2; out = [] } }

two_cards-IsValid : IsValid two_cards
two_cards-IsValid = record {
  no_all = with_card-IsValid.no_all;
  switches = with_card-IsValid.switches;
  distinct = with_card-IsValid.distinct;
  fresh = λ p m. ground (arith, with_card-IsValid.fresh p m);
  typed = with_card-IsValid.typed;
}

add_device-IsValid_example :
    (a' : Arbitrator Table) × (urf_arbitrator_add_device table world 1 two_cards ≡ some a')
    × IsValid a'
    × (a'.devices ≡ two_cards.devices ++ 1 ∷ [])
    × Same two_cards.store a'.store
add_device-IsValid_example =
    add_device-IsValid table world two_cards 1 two_cards-IsValid refl (omega arith) (omega arith)
      (omega arith)

get-set_persist_state_example :
    (c' : Config Table) × (urf_config_set_persist_state table config (pos 2) (of_bool true)
      ≡ some c')
    × (urf_config_get_persist_state table c' (pos 2) ≡ some true)
get-set_persist_state_example = get-set_persist_state table world config 2 true (omega arith)

current_state-unblocked_iff_example :
    (current_state (λ p. card) (0 ∷ []) ≡ unblocked)
    ↔ ((◌≢◌ {A = List ℕ} (0 ∷ []) []) × All {A = ℕ} (λ p. get_state card ≡ unblocked) (0 ∷ []))
current_state-unblocked_iff_example = current_state-unblocked_iff (λ p. card) (0 ∷ [])

device-le-switch_example : rank (get_state card) ≤ rank (current_state (λ p. card) (0 ∷ 1 ∷ []))
device-le-switch_example =
    device-le-switch (λ p. card) (0 ∷ 1 ∷ []) 1 refl
      (inr ((λ e. absurd (cc e)), ((λ e. absurd (cc e)), tt)))

set_software_blocked_lem_example :
    let (result, s') = urf_killswitch_set_software_blocked world wlan_switch true with_card.store in
    (result ≡ true → (q : ℕ) → mem q (0 ∷ []) ≡ true → wanted (s'.heap q) ≡ true)
    × ((q : ℕ) → mem q (0 ∷ []) ≡ false → s'.heap q ≡ card)
    × ((q : ℕ) → is_hardware_blocked (s'.heap q) ≡ false)
set_software_blocked_lem_example =
    set_software_blocked_lem world wlan_switch true with_card.store (refl, tt)

refresh_lem_example :
    let (ks', s') = urf_killswitch_state_refresh wlan_switch with_card.store in
    let now = current_state with_card.store.heap (0 ∷ []) in
    (ks'.state ≡ now)
    × (s'.out ≡ (
        if is_empty wlan_switch.devices || state_eq unblocked now
        then []
        else switch_changed 1 now ∷ []))
    × (ks'.saved_state ≡ no_adapter)
refresh_lem_example = refresh_lem wlan_switch with_card.store

-- The read of a new card comes after one that is too short.
startup_lem_example :
    (a' : Arbitrator Table) × (urf_arbitrator_startup table world true
        (short ∷ full (event 0 1 add false) ∷ [])
        start
      ≡ some (true, a'))
    × IsGood a'
startup_lem_example =
    startup_lem table world (short ∷ full (event 0 1 add false) ∷ []) start start-IsGood
      start-AllListed (tt, ((λ e. omega arith), tt))

abbrev modem : OfonoDevice
modem = record {
  index = 100;
  object_path = "/modem";
  name = none;
  properties = [];
  soft = true;
  proxy = true;
}

modem_signal_cb_lem_example :
    let (d', out') = modem_signal_cb modem "Powered" (boolean true) [] in
    (lookup "Powered" d'.properties ≡ some (boolean true))
    × ((key : String) → "Powered" ≢ key → lookup key d'.properties ≡ lookup key [])
    × (d'.soft ≡ true)
    × (out' ≡ online_calls true "/modem" true (("Powered", boolean true) ∷ []) [])
modem_signal_cb_lem_example = modem_signal_cb_lem modem "Powered" (boolean true) []

get_properties_cb_lem_example :
    ((get_properties_cb modem (("Powered", boolean true) ∷ []) []).0.soft ≡ true)
    × ((get_properties_cb modem (("Powered", boolean true) ∷ []) []).1
        ≡ online_calls true "/modem" true (("Powered", boolean true) ∷ []) [])
get_properties_cb_lem_example = get_properties_cb_lem modem (("Powered", boolean true) ∷ []) []
