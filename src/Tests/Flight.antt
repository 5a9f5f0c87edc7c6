-- ===== src/Tests/Flight.antt =====
-- Examples for the theorems on the flight mode of src/urf-arbitrator.c.
use urfkill.Prelude.{
  ℕ, ◌≡◌, refl, Bool, true, false, some, arith, mem, [], ◌∷◌, ◌==◌, if◌then◌else◌,
}
use urfkill.Utils.{unblocked, no_adapter}
use urfkill.Store.{ofono}
use urfkill.Device.Ofono.{ofono_fields}
use urfkill.Killswitch.{Killswitch, urf_killswitch_new}
use urfkill.Device.Laws.{wanted}
use urfkill.Device.Orders.{orders, Sent}
use urfkill.Arbitrator.{Arbitrator, urf_arbitrator_init, urf_arbitrator_set_flight_mode}
use urfkill.Arbitrator.Invariant.{of_type, IsValid}
use urfkill.Arbitrator.FlightMode.{IsOf}
use urfkill.Arbitrator.Restore.{flight_mode_on, Uniform, flight_mode_restores, flight_mode_twice}
use urfkill.Tests.Fixtures.{Table, table, world, start, with_card, with_card-IsValid}

-- A modem is registered, and has its proxy.
abbrev modem_switch : Killswitch
modem_switch = record { devices = 0 ∷ []; type = 5; saved_state = no_adapter; state = unblocked }

abbrev with_proxy : Arbitrator Table
with_proxy = record start {
  devices = 0 ∷ [];
  killswitch = λ t. if t == 5 then some modem_switch else start.killswitch t;
  store = record {
    heap = λ p. ofono (record (ofono_fields 100 "/ril_0") { proxy = true });
    next = 1;
    out = [];
  };
}

with_proxy-IsValid : IsValid with_proxy
unfolding urf_arbitrator_init urf_killswitch_new of_type ofono_fields
with_proxy-IsValid = record {
  no_all = refl;
  switches = λ t lo hi. ground arith;
  distinct = (refl, tt);
  fresh = λ p m. ground arith;
  typed = λ p m. (omega arith, omega arith);
}

flight_mode_on_example :
    (r : Bool) × (a' : Arbitrator Table) × (urf_arbitrator_set_flight_mode table world true
        with_proxy
      ≡ some (r, a'))
    × IsValid a'
    × ((p : ℕ)
        → mem p with_proxy.devices ≡ true
        → (wanted (a'.store.heap p) ≡ true)
          × Sent (orders (with_proxy.store.heap p) true) with_proxy.store.out a'.store.out)
flight_mode_on_example = flight_mode_on table world with_proxy with_proxy-IsValid (λ out t b. refl)

with_card-Uniform : Uniform table world 1 false with_card
with_card-Uniform = λ p of. (refl, refl, refl)

flight_mode_restores_example :
    (r : Bool) × (a1 : Arbitrator Table) × (r' : Bool) × (a2 : Arbitrator Table)
    × (urf_arbitrator_set_flight_mode table world true with_card ≡ some (r, a1))
    × (urf_arbitrator_set_flight_mode table world false a1 ≡ some (r', a2))
    × ((p : ℕ)
        → IsOf with_card 1 p
        → (wanted (a1.store.heap p) ≡ true) × (wanted (a2.store.heap p) ≡ false))
flight_mode_restores_example =
    flight_mode_restores table world with_card 1 false with_card-IsValid (λ out t b. refl)
      (omega arith, omega arith) with_card-Uniform

flight_mode_twice_example :
    (r : Bool) × (a1 : Arbitrator Table) × (r' : Bool) × (a2 : Arbitrator Table) × (r'' : Bool)
    × (a3 : Arbitrator Table) × (urf_arbitrator_set_flight_mode table world true with_card
        ≡ some (r, a1))
    × (urf_arbitrator_set_flight_mode table world true a1 ≡ some (r', a2))
    × (urf_arbitrator_set_flight_mode table world false a2 ≡ some (r'', a3))
    × ((p : ℕ) → IsOf with_card 1 p → wanted (a3.store.heap p) ≡ true)
flight_mode_twice_example =
    flight_mode_twice table world with_card 1 false with_card-IsValid (λ out t b. refl)
      (omega arith, omega arith) with_card-Uniform
