-- ===== src/Tests/Following.antt =====
-- An example for the theorem on a client of liburfkill-glib that follows the daemon.
use urfkill.Prelude.{
  ℕ, zero, suc, ◌≡◌, refl, ap, ◌∙◌, sym, true, false, some, String, List, [], ◌++◌,
}
use Prim.Native.Char.{char}
use urfkill.Store.{DevicePath, device_path, Output}
use urfkill.Arbitrator.{Arbitrator}
use urfkill.Arbitrator.Events.{handle_events}
use urfkill.Arbitrator.Table.{IsGood}
use urfkill.Arbitrator.Outputs.{out_of}
use urfkill.Daemon.Announce.{announced}
use urfkill.Client.{Properties, Remote, Client, hear_signals}
use urfkill.Client.Sync.{Sees, IsInjective}
use urfkill.Client.Following.{after_enumeration, client_follows}
use urfkill.Tests.Fixtures.{
  Table, table, world, start, start-IsGood, events, events-IsKernelEvent, events-NewIndices, daemon,
}

-- As many strokes as the index.
abbrev strokes : ℕ → String
strokes zero = ""
strokes (suc n) = String.◌∷◌ (char 73 tt) (strokes n)

abbrev count : String → ℕ
count String.[] = zero
count (String.◌∷◌ c s) = suc (count s)

abbrev rest : String → String
rest String.[] = ""
rest (String.◌∷◌ c s) = s

count-strokes : (n : ℕ) → count (strokes n) ≡ n
count-strokes zero = refl
count-strokes (suc n) = ap suc (count-strokes n)

abbrev index_of : DevicePath → ℕ
index_of (device_path i) = i

abbrev print : DevicePath → String
print p = String.◌∷◌ (char 47 tt) (strokes (index_of p))

print-IsInjective : IsInjective print
print-IsInjective (device_path i) (device_path j) e =
    ap device_path (sym (count-strokes i) ∙ ap (λ s. count (rest s)) e ∙ count-strokes j)

abbrev radio : Properties
radio = record {
  index = 0;
  type = 1;
  platform = false;
  name = some "phy0";
  urftype = some "org.freedesktop.URfkill.Device.Kernel";
  soft = some false;
  hard = some false;
}

abbrev remote : Remote
remote = record { properties = λ path. some radio; specialized = λ path. true }

abbrev listener : Client
listener = record { proxy = true; devices = []; is_enumerated = false; signals = [] }

client_follows_example :
    (a' : Arbitrator Table) × (handle_events table world events start ≡ some a')
    × IsGood a'
    × ((outs : List Output) × (out_of a' ≡ outs ++ out_of start)
        × Sees print a' (
            hear_signals remote
              (announced print outs)
              (after_enumeration print remote (daemon start) listener)))
client_follows_example =
    client_follows table world print remote events (daemon start) listener print-IsInjective
      (λ p. record { absolute = refl; properties = radio; there = refl }) events-IsKernelEvent
      events-NewIndices start-IsGood refl
