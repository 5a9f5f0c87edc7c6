-- ===== src/Device/Orders.antt =====
-- What a block of a device sends out (urf_device_set_software_blocked of src/urf-device.c).
use urfkill.Prelude.{
  ℕ, ◌≡◌, refl, sym, ◌∙◌, ap, Bool, not, List, [], ◌∷◌, ◌++◌, append_assoc, arith, if◌then◌else◌,
}
use urfkill.Store.{Device, kernel, ofono, Output, write_change_all, set_online, Outside, Store}
use urfkill.Device.{set_soft, urf_device_set_software_blocked}
use urfkill.Device.Laws.{but_soft, Same}

-- The order for a device: the kernel's radios are blocked by a write, a modem with a proxy is told
-- whether to be online.
abbrev pub orders : Device → Bool → List Output
orders (kernel d) b = write_change_all d.type b ∷ []
orders (ofono d) b = if d.proxy then set_online d.object_path (not b) ∷ [] else []

orders-but_soft : (d : Device) (b : Bool) → orders (but_soft d) b ≡ orders d b
orders-but_soft (kernel d) b = refl
orders-but_soft (ofono d) b = refl

pub orders-Same :
    {s s' : Store} (p : ℕ) (b : Bool) → Same s s' → orders (s'.heap p) b ≡ orders (s.heap p) b
orders-Same {s} {s'} p b same =
    sym (orders-but_soft (s'.heap p) b)
    ∙ ap (λ d. orders d b) (same.frames p)
    ∙ orders-but_soft (s.heap p) b

-- The later outputs hold the earlier ones.
pub record Grows (out out' : List Output) : Type 0 where
  pub outs : List Output
  pub new : out' ≡ outs ++ out

pub Grows-refl : (out : List Output) → Grows out out
Grows-refl out = record { outs = []; new = refl }

pub Grows-trans : {out mid out' : List Output} → Grows out mid → Grows mid out' → Grows out out'
Grows-trans {out} g h = record {
  outs = h.outs ++ g.outs;
  new = h.new ∙ ap (λ x. h.outs ++ x) g.new ∙ sym (append_assoc h.outs g.outs out);
}

-- The messages came out, one after the other, between the earlier outputs and the later ones.
pub record Sent (ms out out' : List Output) : Type 0 where
  pub before : List Output
  pub start : Grows out before
  pub after : Grows (ms ++ before) out'

pub Sent-later :
    {ms out mid out' : List Output} → Sent ms out mid → Grows mid out' → Sent ms out out'
Sent-later s g = record { before = s.before; start = s.start; after = Grows-trans s.after g }

pub Sent-earlier :
    {ms out mid out' : List Output} → Grows out mid → Sent ms mid out' → Sent ms out out'
Sent-earlier g s = record { before = s.before; start = Grows-trans g s.start; after = s.after }

set_soft-orders :
    (w : Outside) (d : Device) (b : Bool) (out : List Output)
    → (set_soft w d b out).2 ≡ orders d b ++ out
unfolding set_soft
set_soft-orders w (kernel d) b out = ground arith
set_soft-orders w (ofono d) b out = ground arith

-- A block of a device sends its order, and no other output.
set_software_blocked-orders :
    (w : Outside) (p : ℕ) (b : Bool) (s : Store)
    → (urf_device_set_software_blocked w p b s).1.out ≡ orders (s.heap p) b ++ s.out
unfolding urf_device_set_software_blocked
set_software_blocked-orders w p b s = set_soft-orders w (s.heap p) b s.out

pub set_software_blocked-Grows :
    (w : Outside) (p : ℕ) (b : Bool) (s : Store)
    → Grows s.out (urf_device_set_software_blocked w p b s).1.out
set_software_blocked-Grows w p b s = record {
  outs = orders (s.heap p) b;
  new = set_software_blocked-orders w p b s;
}

pub set_software_blocked-Sent :
    (w : Outside) (p : ℕ) (b : Bool) (s : Store)
    → Sent (orders (s.heap p) b) s.out (urf_device_set_software_blocked w p b s).1.out
set_software_blocked-Sent w p b s = record {
  before = s.out;
  start = Grows-refl s.out;
  after = record { outs = []; new = set_software_blocked-orders w p b s };
}
