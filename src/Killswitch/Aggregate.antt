-- ===== src/Killswitch/Aggregate.antt =====
-- What the state of a switch says about its devices (src/urf-killswitch.c).
use urfkill.Prelude.{
  ℕ, ◌≡◌, refl, ◌≢◌, ◌↔◌, Bool, true, false, not, ◌||◌, List, [], ◌∷◌, arith, if◌then◌else◌, All,
  ◌≤◌, Bool-cases, inl, inr, ◌∙◌, mem, ◌⊎◌, ap, is_empty,
}
use native.Mathlib.Decide.{ℕ_discrete}
use urfkill.Utils.{KillswitchState, no_adapter, unblocked, rank, gtb, event_to_state}
use urfkill.Store.{Device, kernel, ofono}
use urfkill.Device.{get_state, is_platform}
use urfkill.Killswitch.{Scan, scan_start, scan_device, scan, aggregate_states, current_state}

-- A device always has a state of its own.
get_state_cases : (d : Device) → (rank (get_state d) ≤ 3) × (1 ≤ rank (get_state d))
unfolding get_state event_to_state
get_state_cases (kernel d) = ground arith
get_state_cases (ofono d) = ground arith

-- The worse of two states.
worse : KillswitchState → KillswitchState → KillswitchState
worse a b = if gtb b a then b else a

-- The worst state among the platform devices, or among the other devices.
worst : (ℕ → Device) → Bool → List ℕ → KillswitchState
worst heap platform [] = no_adapter
worst heap platform (p ∷ ps) =
    let rest = worst heap platform ps in
    if is_platform (heap p)
    then if platform then worse (get_state (heap p)) rest else rest
    else if platform
    then rest
    else worse (get_state (heap p)) rest

has_platform : (ℕ → Device) → List ℕ → Bool
has_platform heap [] = false
has_platform heap (p ∷ ps) = is_platform (heap p) || has_platform heap ps

worse_assoc : (a b c : KillswitchState) → worse (worse a b) c ≡ worse a (worse b c)
unfolding worse
worse_assoc a b c = ground arith

worse-no_adapter : (a : KillswitchState) → worse a no_adapter ≡ a
unfolding worse
worse-no_adapter a = ground arith

no_adapter-worse : (a : KillswitchState) → worse no_adapter a ≡ a
unfolding worse
no_adapter-worse a = ground arith

scan_device_lem :
    (d : Device) (v : Scan)
    → scan_device d v ≡ (
        if is_platform d
        then record v { platform_checked = true; platform = worse v.platform (get_state d) }
        else record v { new_state = worse v.new_state (get_state d) })
unfolding scan_device worse
scan_device_lem d v = refl

-- The loop finds the two worst states.
scan_lem :
    (heap : ℕ → Device) (ps : List ℕ) (v : Scan)
    → scan heap ps v ≡ record {
      platform_checked = v.platform_checked || has_platform heap ps;
      platform = worse v.platform (worst heap true ps);
      new_state = worse v.new_state (worst heap false ps);
    }
unfolding scan has_platform worst
scan_lem heap [] v = ground (arith, worse-no_adapter v.platform, worse-no_adapter v.new_state)
scan_lem heap (p ∷ ps) v =
    scan_lem heap ps (scan_device (heap p) v)
    ∙ ground (
      arith,
      scan_device_lem (heap p) v,
      worse_assoc v.platform (get_state (heap p)) (worst heap true ps),
      worse_assoc v.new_state (get_state (heap p)) (worst heap false ps),
    )

current_state_lem :
    (heap : ℕ → Device) (ps : List ℕ)
    → current_state heap ps ≡ (
        if has_platform heap ps
        then aggregate_states (worst heap true ps) (worst heap false ps)
        else worst heap false ps)
unfolding current_state
current_state_lem heap ps = ground (
  arith,
  scan_lem heap ps scan_start,
  no_adapter-worse (worst heap true ps),
  no_adapter-worse (worst heap false ps),
)

worst_empty :
    (heap : ℕ → Device) (ps : List ℕ)
    → has_platform heap ps ≡ false
    → worst heap true ps ≡ no_adapter
unfolding has_platform worst
worst_empty heap [] h = refl
worst_empty heap (p ∷ ps) h = ground (arith, worst_empty heap ps)

worst_present :
    (heap : ℕ → Device) (ps : List ℕ) → has_platform heap ps ≡ true → 1 ≤ rank (worst heap true ps)
unfolding has_platform worst worse
worst_present heap [] h = cc
worst_present heap (p ∷ ps) h = ground (arith, worst_present heap ps, get_state_cases (heap p))

-- Every device is at most as blocked as the worst one of its kind.
mem-le-worst :
    (heap : ℕ → Device) (p : ℕ) (ps : List ℕ)
    → mem p ps ≡ true
    → rank (get_state (heap p)) ≤ rank (worst heap (is_platform (heap p)) ps)
unfolding worst worse
mem-le-worst heap p [] h = cc
mem-le-worst heap p (q ∷ qs) h = elim (ℕ_discrete q p) [
  | yes e ↦ rw e (ground arith)
  | no n ↦ ground (arith, mem-le-worst heap p qs)
]

-- While the worst states are no block, nothing is blocked.
All-of_worst :
    (heap : ℕ → Device) (ps : List ℕ)
    → rank (worst heap true ps) ≤ 1
    → rank (worst heap false ps) ≤ 1
    → All (λ p. get_state (heap p) ≡ unblocked) ps
unfolding worst worse
All-of_worst heap [] h k = tt
All-of_worst heap (p ∷ ps) h k =
    (ground (arith, get_state_cases (heap p)), All-of_worst heap ps (ground arith) (ground arith))

worst_of_All :
    (heap : ℕ → Device) (ps : List ℕ)
    → All (λ p. get_state (heap p) ≡ unblocked) ps
    → (worst heap true ps ≡ (if has_platform heap ps then unblocked else no_adapter))
      × (rank (worst heap false ps) ≤ 1)
      × (ps ≢ [] → has_platform heap ps ≡ false → worst heap false ps ≡ unblocked)
unfolding worst worse has_platform
worst_of_All heap [] h = (refl, ground arith, λ ne. absurd (ne refl))
worst_of_All heap (p ∷ ps) h =
    let (a, b, _) = worst_of_All heap ps h.1 in
    (ground arith, ground arith, λ ne none. ground arith)

worst_platform_unblocked :
    (heap : ℕ → Device) (ps : List ℕ)
    → All (λ q. is_platform (heap q) ≡ true → get_state (heap q) ≡ unblocked) ps
    → rank (worst heap true ps) ≤ 1
unfolding worst worse
worst_platform_unblocked heap [] h = ground arith
worst_platform_unblocked heap (p ∷ ps) h = elim (Bool-cases (is_platform (heap p))) [
  | inl e ↦ ground (arith, worst_platform_unblocked heap ps h.1, h.0 e)
  | inr e ↦ ground (arith, worst_platform_unblocked heap ps h.1)
]

current_state-nil : (heap : ℕ → Device) → current_state heap [] ≡ no_adapter
unfolding current_state scan
current_state-nil heap = refl

pub current_state-empty :
    (heap : ℕ → Device) (ps : List ℕ) → is_empty ps ≡ true → current_state heap ps ≡ no_adapter
current_state-empty heap [] h = current_state-nil heap
current_state-empty heap (p ∷ ps) h = cc

-- A switch shows UNBLOCKED exactly when it has a device and all its devices are unblocked.
pub current_state-unblocked_iff :
    (heap : ℕ → Device) (ps : List ℕ)
    → (current_state heap ps ≡ unblocked)
      ↔ ((ps ≢ []) × All (λ p. get_state (heap p) ≡ unblocked) ps)
unfolding aggregate_states
current_state-unblocked_iff heap ps = (
  λ h. (
    λ e. cc (h, ap (current_state heap) e, current_state-nil heap),
    All-of_worst heap ps (ground (arith, current_state_lem heap ps, worst_empty heap ps))
        (ground (arith, current_state_lem heap ps, worst_empty heap ps)),
  ),
  λ h. ground (arith, current_state_lem heap ps, worst_of_All heap ps h.1),
)

-- A switch is at least as blocked as each of its platform devices, and, while no platform device
-- is blocked, as each of its devices.
pub device-le-switch :
    (heap : ℕ → Device) (ps : List ℕ) (p : ℕ)
    → mem p ps ≡ true
    → (is_platform (heap p) ≡ true)
      ⊎ All (λ q. is_platform (heap q) ≡ true → get_state (heap q) ≡ unblocked) ps
    → rank (get_state (heap p)) ≤ rank (current_state heap ps)
unfolding aggregate_states
device-le-switch heap ps p m (inl h) =
    ground (arith, current_state_lem heap ps, mem-le-worst heap p ps, worst_empty heap ps)
device-le-switch heap ps p m (inr h) = ground (
  arith,
  current_state_lem heap ps,
  mem-le-worst heap p ps,
  worst_platform_unblocked heap ps h,
  worst_present heap ps,
  worst_empty heap ps,
)

has_platform-mem :
    (heap : ℕ → Device) (p : ℕ) (ps : List ℕ)
    → mem p ps ≡ true
    → is_platform (heap p) ≡ true
    → has_platform heap ps ≡ true
unfolding has_platform
has_platform-mem heap p [] m h = cc
has_platform-mem heap p (q ∷ qs) m h = elim (ℕ_discrete q p) [
  | yes e ↦ rw e (ground arith)
  | no n ↦ ground (arith, has_platform-mem heap p qs)
]

-- A switch with a device is not NO_ADAPTER.
pub current_state-present :
    (heap : ℕ → Device) (ps : List ℕ) (p : ℕ) → mem p ps ≡ true → 1 ≤ rank (current_state heap ps)
unfolding aggregate_states
current_state-present heap ps p m = elim (Bool-cases (has_platform heap ps)) [
  | inl e ↦ ground (arith, current_state_lem heap ps, worst_present heap ps)
  | inr e ↦ ground (
    arith,
    current_state_lem heap ps,
    mem-le-worst heap p ps,
    has_platform-mem heap p ps,
    get_state_cases (heap p),
  )
]

has_other : (ℕ → Device) → List ℕ → Bool
has_other heap [] = false
has_other heap (p ∷ ps) = not (is_platform (heap p)) || has_other heap ps

worst_uniform :
    (heap : ℕ → Device) (ps : List ℕ) (s : KillswitchState)
    → ((p : ℕ) → mem p ps ≡ true → get_state (heap p) ≡ s)
    → 1 ≤ rank s
    → (worst heap true ps ≡ (if has_platform heap ps then s else no_adapter))
      × (worst heap false ps ≡ (if has_other heap ps then s else no_adapter))
unfolding worst worse has_platform has_other
worst_uniform heap [] s h lo = (refl, refl)
worst_uniform heap (p ∷ ps) s h lo =
    let head = h p (ground arith) in
    let (a, b) = worst_uniform heap ps s (λ q m. h q (ground arith)) lo in
    elim (Bool-cases (is_platform (heap p))) [
      | inl e ↦ (ground arith, ground arith)
      | inr e ↦ (ground arith, ground arith)
    ]

-- A switch whose devices all have one state shows it.
pub current_state-uniform :
    (heap : ℕ → Device) (ps : List ℕ) (p : ℕ) (s : KillswitchState)
    → mem p ps ≡ true
    → ((q : ℕ) → mem q ps ≡ true → get_state (heap q) ≡ s)
    → 1 ≤ rank s
    → current_state heap ps ≡ s
unfolding aggregate_states has_platform has_other
current_state-uniform heap [] p s m h lo = cc
current_state-uniform heap (q ∷ qs) p s m h lo =
    let (a, b) = worst_uniform heap (q ∷ qs) s h lo in
    ground (arith, current_state_lem heap (q ∷ qs))

-- The state of a switch depends on its own devices only.
scan_cong :
    (heap heap' : ℕ → Device) (ps : List ℕ) (v : Scan)
    → ((p : ℕ) → mem p ps ≡ true → heap' p ≡ heap p)
    → scan heap' ps v ≡ scan heap ps v
unfolding scan
scan_cong heap heap' [] v h = refl
scan_cong heap heap' (p ∷ ps) v h =
    scan_cong heap heap' ps (scan_device (heap' p) v) (λ q m. h q (ground arith))
    ∙ ap (λ d. scan heap ps (scan_device d v)) (h p (ground arith))

pub current_state_cong :
    (heap heap' : ℕ → Device) (ps : List ℕ)
    → ((p : ℕ) → mem p ps ≡ true → heap' p ≡ heap p)
    → current_state heap' ps ≡ current_state heap ps
unfolding current_state
current_state_cong heap heap' ps h =
    ap (λ v. if v.platform_checked then aggregate_states v.platform v.new_state else v.new_state)
      (scan_cong heap heap' ps scan_start h)
