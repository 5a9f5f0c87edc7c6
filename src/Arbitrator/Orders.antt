-- ===== src/Arbitrator/Orders.antt =====
-- What a block of a type sends out (urf_arbitrator_set_block of src/urf-arbitrator.c).
use urfkill.Prelude.{ℕ, ◌≡◌, sym, Bool, true, some, ◌<◌, arith, mem, pos, subst}
use urfkill.Utils.{num_rfkill_types}
use urfkill.Store.{Outside}
use urfkill.Device.Orders.{orders, Grows, Sent}
use urfkill.Killswitch.{Killswitch, urf_killswitch_set_software_blocked}
use urfkill.Killswitch.Orders.{block-Grows, block-Sent}
use urfkill.Config.{KeyFile}
use urfkill.Arbitrator.{Arbitrator, urf_arbitrator_set_block}

module _ {File : Type 0} (kf : KeyFile File) (w : Outside) where
  set_block-out :
      (a : Arbitrator File) (t : ℕ) (b : Bool) (ks : Killswitch) {r : Bool} {a' : Arbitrator File}
      → a.killswitch t ≡ some ks
      → t < num_rfkill_types
      → urf_arbitrator_set_block kf w (pos t) b a ≡ some (r, a')
      → a'.store.out ≡ (urf_killswitch_set_software_blocked w ks b a.store).1.out
  unfolding urf_arbitrator_set_block
  set_block-out a t b ks {r} {a'} e h done = ground arith

  pub set_block-Grows :
      (a : Arbitrator File) (t : ℕ) (b : Bool) (ks : Killswitch) {r : Bool} {a' : Arbitrator File}
      → a.killswitch t ≡ some ks
      → t < num_rfkill_types
      → urf_arbitrator_set_block kf w (pos t) b a ≡ some (r, a')
      → Grows a.store.out a'.store.out
  set_block-Grows a t b ks {r} {a'} e h done =
      subst (Grows a.store.out) (sym (set_block-out a t b ks {r = r} {a' = a'} e h done))
        (block-Grows w ks b a.store)

  -- A block of a type sends the order of each device of its switch.
  pub set_block-Sent :
      (a : Arbitrator File) (t : ℕ) (b : Bool) (ks : Killswitch) {r : Bool} {a' : Arbitrator File}
      → a.killswitch t ≡ some ks
      → t < num_rfkill_types
      → urf_arbitrator_set_block kf w (pos t) b a ≡ some (r, a')
      → (p : ℕ) → mem p ks.devices ≡ true
      → Sent (orders (a.store.heap p) b) a.store.out a'.store.out
  set_block-Sent a t b ks {r} {a'} e h done p m =
      subst (Sent (orders (a.store.heap p) b) a.store.out)
        (sym (set_block-out a t b ks {r = r} {a' = a'} e h done)) (block-Sent w ks b a.store p m)
