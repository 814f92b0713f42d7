-- ===== src/Iq/Cleaning.antt =====
-- A round of the clean-up takes away what has expired, and nothing else.
use zowpy.Prelude.{Text, ℕ, ◌≡◌}
use zowpy.Python.Dict.{lookup, IsDict, unless_test, lookup-discard_where}
use zowpy.Iq.{Callbacks, is_expired, cleanup}

-- After a round at a time, the callback of an id is the one from before, if that has not expired.
pub lookup-cleanup :
    (now : ℕ) (i : Text) (table : Callbacks)
    → IsDict table
    → lookup i (cleanup now table) ≡ unless_test (is_expired now) (lookup i table)
unfolding cleanup
lookup-cleanup now i table h = lookup-discard_where (is_expired now) i table h
