-- ===== src/OfonoManager/Restart.antt =====
-- A restart of oFono while there are modems (src/urf-ofono-manager.c).
use urfkill.Prelude.{
  none, ℕ, ◌≡◌, refl, sym, ◌∙◌, ap, true, false, String, List, [], ◌∷◌, is_empty, mem,
}
use urfkill.Store.{ofono, Outside}
use urfkill.Device.{get_index}
use urfkill.Device.Ofono
use urfkill.Device.Register.{exported, urf_device_ofono_new, register_again, exported-made}
use urfkill.Config.{KeyFile}
use urfkill.OfonoManager.{OfonoManager, on_ofono_vanished, urf_ofono_manager_add_modem}
use urfkill.OfonoManager.Modems.{IsManaged}

module _ {File : Type 0} (kf : KeyFile File) (w : Outside) where
  not_empty : (p : ℕ) (ps : List ℕ) → mem p ps ≡ true → is_empty ps ≡ false
  not_empty p [] h = cc
  not_empty p (q ∷ qs) h = refl

  vanished_lem :
      (m : OfonoManager File) (p : ℕ)
      → mem p m.devices ≡ true
      → on_ofono_vanished m ≡ record m { cancelled = true; proxy = false; modem_idx = 100 }
  unfolding on_ofono_vanished
  vanished_lem m p l = rw (not_empty p m.devices l) refl

  -- If oFono vanishes while the first modem, of index 100, is registered with a well-formed
  -- manager, the next modem that is added gets the same index, whose path the bus still has an
  -- object at: the registration ends the program.
  pub index_reused :
      (m : OfonoManager File) (p : ℕ) (object_path : String)
      → IsManaged m
      → mem p m.devices ≡ true
      → get_index (m.arbitrator.store.heap p) ≡ 100
      → urf_ofono_manager_add_modem kf w object_path (on_ofono_vanished m) ≡ none
  unfolding urf_ofono_manager_add_modem urf_device_ofono_new Ofono.ofono_fields
  index_reused m p object_path h l first =
      let s = m.arbitrator.store in
      let d = ofono (Ofono.ofono_fields 100 object_path) in
      let made = exported-made s p (h.good.valid.fresh p (h.listed p l)) in
      let taken : exported s 100 ≡ true = ap (exported s) (sym first) ∙ made in
      let m1 = record m { cancelled = true; proxy = false; modem_idx = 100 } in
      let ended : urf_ofono_manager_add_modem kf w object_path m1 ≡ none =
        rw (register_again d s taken) refl in
      ap (urf_ofono_manager_add_modem kf w object_path) (vanished_lem m p l) ∙ ended
