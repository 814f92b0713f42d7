-- ===== src/Jids.antt =====
-- Jids as addresses: zowpy/utils/jid.py, and how the client corrects the jid of a group.
use zowpy.Prelude.{
  leb, ◌==◌, if◌then◌else◌, length, Text, codes, text_eq, ℕ, zero, suc, ◌+◌, ◌-◌, Bool, true, false,
  not, ◌&&◌, ◌||◌, Option, none, some, [], ◌∷◌, ◌++◌,
}
use zowpy.Result.{value_error, Result, ok, err}
use zowpy.Python.{before, contains}
use zowpy.Python.Decimal.{strip}
use zowpy.Phone.Codes.{digits_of}
pub mod Digits
mod Examples

-- `s.startswith(pattern)`
unfoldable pub starts_with : Text → Text → Bool
starts_with [] s = true
starts_with (p ∷ pattern) [] = false
starts_with (p ∷ pattern) (c ∷ s) = p == c && starts_with pattern s

-- `pattern in s`
unfoldable pub has_part : Text → Text → Bool
unfolding starts_with
has_part pattern [] = starts_with pattern []
has_part pattern (c ∷ s) = starts_with pattern (c ∷ s) || has_part pattern s

-- `s.endswith(pattern)`
unfoldable pub ends_with : Text → Text → Bool
ends_with pattern [] = text_eq pattern []
ends_with pattern (c ∷ s) = text_eq pattern (c ∷ s) || ends_with pattern s

-- `s.replace(pattern, "")`, where so many characters are still to be left out.
unfoldable pub without_from : ℕ → Text → Text → Text
unfolding starts_with
without_from n pattern [] = []
without_from (suc n) pattern (c ∷ s) = without_from n pattern s
without_from zero pattern (c ∷ s) =
    let skipped = without_from (length pattern - 1) pattern s in
    let kept = without_from zero pattern s in
    if starts_with pattern (c ∷ s) then skipped else c ∷ kept

abbrev pub user_server : Text
user_server = codes "@s.whatsapp.net"

abbrev pub group_server : Text
group_server = codes "@g.us"

unfoldable pub is_group_jid : Text → Bool
unfolding contains has_part
is_group_jid jid =
    contains b'-' jid
    || ((not (contains b'.' jid) && not (contains b':' jid) && leb 15 (length jid))
        || (has_part group_server jid || text_eq jid (codes "status@broadcast")))

abbrev pub or_none : Text → Option Text
or_none [] = none
or_none (c ∷ cs) = some (c ∷ cs)

unfoldable pub normalize : Text → Option Text
unfolding without_from digits_of
normalize [] = none
normalize (c ∷ cs) = or_none (
    digits_of (
      without_from 0 group_server
        (without_from 0 (codes "+") (without_from 0 user_server (c ∷ cs)))))

unfoldable pub with_server : Option Text → Result Text
unfolding is_group_jid ends_with
with_server none = err value_error
with_server (some jid) =
    if is_group_jid jid
    then (if ends_with (codes "@broadcast") jid then ok jid else ok (jid ++ group_server))
    else ok (jid ++ user_server)

-- `to_whatsapp_jid`, which does not look at its `is_group`.
unfoldable pub to_whatsapp_jid : Text → Result Text
unfolding normalize with_server
to_whatsapp_jid jid = with_server (normalize jid)

-- `_normalize_and_fix_group_jid` of the client, after its test for an empty jid.
unfoldable pub fix_group_jid : Text → Text
unfolding contains has_part is_group_jid before
fix_group_jid jid =
    if contains b'@' jid
    then (if has_part group_server jid || has_part (codes "@broadcast") jid
        then jid
        else if is_group_jid jid
        then before b'@' jid ++ group_server
        else jid)
    else if is_group_jid jid
    then jid ++ group_server
    else jid ++ user_server

unfoldable pub normalize_and_fix_group_jid : Text → Text
unfolding strip fix_group_jid
normalize_and_fix_group_jid [] = []
normalize_and_fix_group_jid (c ∷ cs) = fix_group_jid (strip (c ∷ cs))
