-- ===== src/Arbitrator/BlockIndex.antt =====
-- What blocking one device does (urf_arbitrator_set_block_idx of src/urf-arbitrator.c).
use urfkill.Prelude.{
  ℕ, ◌≡◌, ◌≢◌, refl, ap, Bool, true, false, none, some, ◌∙◌, pos, Option-cases, inl, inr,
}
use urfkill.Store.{Outside}
use urfkill.Device.{get_index, set_soft, urf_device_set_software_blocked}
use urfkill.Device.Laws.{wanted, set_soft-wanted, assign_self, assign_other}
use urfkill.Config.{KeyFile}
use urfkill.Arbitrator.{
  Arbitrator, find_from, urf_arbitrator_find_device, urf_arbitrator_set_block_idx,
}
use urfkill.Arbitrator.Lookup.{find_from_found}

module _ {File : Type 0} where
  pub record BlockedIndex (index : ℕ) (b : Bool) (a : Arbitrator File) (r : Bool)
      (a' : Arbitrator File) : Type 0 where
    pub missing : find_from a.store.heap a.devices index ≡ none → (r ≡ false) × (a' ≡ a)
    pub set :
        (p : ℕ)
        → find_from a.store.heap a.devices index ≡ some p
        → r ≡ true
        → wanted (a'.store.heap p) ≡ b
    pub others : (q : ℕ) → get_index (a.store.heap q) ≢ index → a'.store.heap q ≡ a.store.heap q
    pub devices : a'.devices ≡ a.devices
    pub switches : a'.killswitch ≡ a.killswitch

  pub set_block_idx_lem :
      (kf : KeyFile File) (w : Outside) (index : ℕ) (b : Bool) (a : Arbitrator File)
      → let x = urf_arbitrator_set_block_idx kf w (pos index) b a in BlockedIndex index b a x.0 x.1
  unfolding urf_arbitrator_set_block_idx urf_arbitrator_find_device urf_device_set_software_blocked
  set_block_idx_lem kf w index b a = elim (Option-cases (find_from a.store.heap a.devices index)) [
    | inl absent ↦
        rw (absent, urf_arbitrator_set_block_idx)
          (record {
            missing = λ none_there. (refl, refl);
            set = λ p found done. cc;
            others = λ q other. refl;
            devices = refl;
            switches = refl;
          })
    | inr (p, found) ↦
        let result = set_soft w (a.store.heap p) b a.store.out in
        rw (found, urf_arbitrator_set_block_idx)
          (record {
            missing = λ absent. cc;
            set = λ q again done.
                let same : p ≡ q = cc in
                rw (← same) (
                  ap wanted (assign_self a.store.heap p result.1)
                  ∙ set_soft-wanted w (a.store.heap p) b a.store.out done);
            others = λ q other. assign_other a.store.heap p q result.1 (λ same.
                other (rw (← same) (find_from_found a.store.heap a.devices index found).1));
            devices = refl;
            switches = refl;
          })
  ]
