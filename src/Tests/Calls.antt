-- ===== src/Tests/Calls.antt =====
-- Examples for the theorems on the calls of liburfkill-glib and on the properties of the daemon.
use urfkill.Prelude.{
  ℕ, ◌≡◌, refl, true, false, Option, none, some, List, [], ◌∷◌, length, ◌==◌, if◌then◌else◌, arith,
  ap, pos,
}
use urfkill.Arbitrator.{urf_arbitrator_has_devices}
use urfkill.Session.{
  SessionChecker, find_cookie, find_inhibitor_by_bus_name, urf_session_checker_is_inhibited,
}
use urfkill.Session.Consistent.{Inhibited}
use urfkill.Daemon.{Daemon, Call, Reply, boolean, cookie, reply, handle_method_call}
use urfkill.Daemon.Properties.{device}
use urfkill.Daemon.Properties.Typed.{IsTyped, handle_get_property-IsTyped}
use urfkill.Client.{Client}
use urfkill.Client.Calls.{
  urf_client_set_block_idx, urf_client_is_inhibited, urf_client_inhibit, urf_client_uninhibit,
}
use urfkill.Client.Calls.Answers.{Delivers, SetIndex, client_block_idx, client_inhibit}
use urfkill.Tests.Fixtures.{
  Table, table, world, with_card, bus, checker-IsConsistent, caller, daemon, card,
}

abbrev draws : List ℕ
draws = 4 ∷ 9 ∷ []

-- The reply that a call has added.
abbrev answer : List Reply → List Reply → Option Reply
answer old [] = none
answer old (r ∷ rs) = if length old == length (r ∷ rs) then none else some r

abbrev call : Call → Daemon Table → Option Reply × Daemon Table
call c d = elim (handle_method_call table world bus draws (caller (some true)) c d) [
  | none ↦ (none, d)
  | some d' ↦ (answer d.replies d'.replies, d')
]

same_length : (old rs : List Reply) → rs ≡ old → answer old rs ≡ none
same_length old [] e = refl
same_length old (r ∷ rs) e = ground (arith, ap length e)

one_more : (old rs : List Reply) (r : Reply) → rs ≡ old → answer old (r ∷ rs) ≡ some r
one_more old rs r e = ground (arith, ap length e)

delivers : Delivers table world bus draws (caller (some true)) call
delivers = record {
  answered = λ c d d' r done e.
      rw (done, call) (ap (λ x. (x, reply r d')) (one_more d.replies d'.replies r e));
  silent =
      λ c d d' done e. rw (done, call) (ap (λ x. (x, d')) (same_length d.replies d'.replies e));
}

abbrev client : Client
client = record { proxy = true; devices = []; is_enumerated = false; signals = [] }

-- The card has the index 3.
client_block_idx_example :
    let x = urf_client_set_block_idx call client (pos 3) true (daemon with_card) in
    SetIndex (pos 3) true (daemon with_card) x.0 x.1
unfolding urf_arbitrator_has_devices
client_block_idx_example =
    client_block_idx table world bus draws (caller (some true)) call delivers client refl (pos 3)
      true (daemon with_card) refl refl refl (omega arith)

client_inhibit_example :
    (k : ℕ) × (c' : SessionChecker) × (let d' =
        reply (cookie k) (record (daemon with_card) { session_checker = c' }) in
      let told = urf_session_checker_is_inhibited c' in
      (urf_client_inhibit call client "keys" (daemon with_card) ≡ (k, d'))
      × Inhibited ":1.5" (daemon with_card).session_checker k c'
      × (urf_client_is_inhibited call client d' ≡ (told, reply (boolean told) d'))
      × (urf_client_uninhibit call client k d' ≡ reply (cookie k) (daemon with_card)))
unfolding find_cookie find_inhibitor_by_bus_name
client_inhibit_example =
    client_inhibit table world bus draws (caller (some true)) call delivers client refl "keys"
      (daemon with_card) 4 checker-IsConsistent ((λ e. ground arith), ((λ e. ground arith), tt))
      refl refl refl

handle_get_property-IsTyped_example : IsTyped {File = Table} "0.6.0" "unknown" (device card)
handle_get_property-IsTyped_example = handle_get_property-IsTyped "0.6.0" "unknown" (device card)
