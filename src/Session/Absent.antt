-- ===== src/Session/Absent.antt =====
-- src/urf-session-checker-none.c: the checker of a build without sessions.
use urfkill.Prelude.{ℕ, Bool, true, false, String}
use urfkill.Session.{SessionChecker}

unfoldable pub none_is_inhibited : SessionChecker → Bool
none_is_inhibited c = false

unfoldable pub none_inhibit : (bus_name reason : String) → SessionChecker → ℕ × SessionChecker
none_inhibit bus_name reason c = (0, c)

unfoldable pub none_uninhibit : (cookie : ℕ) → SessionChecker → SessionChecker
none_uninhibit cookie c = c

unfoldable pub none_startup : SessionChecker → Bool × SessionChecker
none_startup c = (true, c)
