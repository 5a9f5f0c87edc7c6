-- ===== src/Client/Calls.antt =====
-- The methods of the daemon as liburfkill-glib/urf-client.c and liburfkill-glib/urf-device.c call
-- them.
pub mod Answers
use urfkill.Prelude.{
  ℕ, Bool, true, false, not, Option, none, some, String, ◌||◌, leb, ℤ, pos, negsuc, to_guint,
  if◌then◌else◌,
}
use urfkill.Utils.{num_rfkill_types, rfkill_type_wlan, rfkill_type_bluetooth, rfkill_type_wwan}
use urfkill.Daemon.{
  Call, block, block_idx, is_inhibited, inhibit, uninhibit, Reply, boolean, cookie,
}
use urfkill.Client.{Client, RemoteDevice}

-- A call over the bus that is waited for: the answer, none if the bus or the daemon gives an error
-- or none in time, and what the call makes of the world outside.
abbrev pub Bus : Type 0 → Type 0
Bus World = Call → World → Option Reply × World

-- `status` after g_variant_get (retval, "(b)", &status), or as it was before an error.
abbrev pub status : Option Reply → Bool
status (some (boolean b)) = b
status _ = false

-- The same of `cookie` and "(u)".
abbrev pub cookie_of : Option Reply → ℕ
cookie_of (some (cookie k)) = k
cookie_of _ = 0

abbrev pub is_negative : ℤ → Bool
is_negative (pos n) = false
is_negative (negsuc n) = true

module _ {World : Type 0} (call : Bus World) where
  unfoldable pub urf_client_set_block : Client → (type : ℕ) → Bool → World → Bool × World
  urf_client_set_block c type b world =
      let (answer, after) = call (block type b) world in
      if not c.proxy || leb num_rfkill_types type then (false, world) else (status answer, after)

  unfoldable pub urf_client_set_block_idx : Client → (index : ℤ) → Bool → World → Bool × World
  urf_client_set_block_idx c index b world =
      let (answer, after) = call (block_idx (to_guint index) b) world in
      if not c.proxy || is_negative index then (false, world) else (status answer, after)

  unfoldable pub urf_client_is_inhibited : Client → World → Bool × World
  urf_client_is_inhibited c world =
      let (answer, after) = call is_inhibited world in
      if not c.proxy then (false, world) else (status answer, after)

  unfoldable pub urf_client_inhibit : Client → (reason : String) → World → ℕ × World
  urf_client_inhibit c reason world =
      let (answer, after) = call (inhibit reason) world in
      if not c.proxy then (0, world) else (cookie_of answer, after)

  -- The call is not waited for, and no answer is looked at.
  unfoldable pub urf_client_uninhibit : Client → (cookie : ℕ) → World → World
  urf_client_uninhibit c k world = if not c.proxy then world else (call (uninhibit k) world).1

  unfoldable pub urf_client_set_wlan_block : Client → Bool → World → Bool × World
  unfolding urf_client_set_block
  urf_client_set_wlan_block c = urf_client_set_block c rfkill_type_wlan

  unfoldable pub urf_client_set_bluetooth_block : Client → Bool → World → Bool × World
  unfolding urf_client_set_block
  urf_client_set_bluetooth_block c = urf_client_set_block c rfkill_type_bluetooth

  unfoldable pub urf_client_set_wwan_block : Client → Bool → World → Bool × World
  unfolding urf_client_set_block
  urf_client_set_wwan_block c = urf_client_set_block c rfkill_type_wwan

  -- `connected` tells whether the proxy that the function makes for itself can be made. What comes
  -- back (set_block_idx_cb) only makes a log line.
  unfoldable pub urf_device_set_block : (connected : Bool) → RemoteDevice → Bool → World → World
  urf_device_set_block connected d b world =
      if connected then (call (block_idx d.index b) world).1 else world
