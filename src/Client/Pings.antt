-- ===== src/Client/Pings.antt =====
-- The pings that wait for an answer. Times are in microseconds.
use zowpy.Prelude.{
  ltb, leb, length, Text, text_eq, ℕ, ◌-◌, ◌*◌, ◌^◌, ◌≡◌, refl, ap, ◌∙◌, Bool, true, false, not,
  ◌&&◌, none, some, List, [], ◌∷◌, arith,
}
use zowpy.Python.Dict.{
  lookup, store, discard, lookup-store, lookup-store_other, lookup-discard, lookup-discard_other,
  IsDict, keys_where, discard_all, unless_test, lookup-discard_where, store-IsDict,
}

-- The id of a ping and the time it was sent.
abbrev pub PingQueue : Type 0
PingQueue = List (Text × ℕ)

-- `_got_pong`
unfoldable pub got_pong : Text → PingQueue → PingQueue
unfolding discard
got_pong ping_id queue = discard ping_id queue

-- `ts and (now - ts) > 60`
abbrev pub is_old : ℕ → ℕ → Bool
is_old now ts = ltb 0 ts && ltb (60 * 10 ^ 6) (now - ts)

abbrev is_empty : List Text → Bool
is_empty [] = true
is_empty (i ∷ ids) = false

-- `_wait_pong`: the queue, and whether the client disconnects.
unfoldable pub wait_pong : ℕ → Text → PingQueue → PingQueue × Bool
unfolding store keys_where discard_all
wait_pong now ping_id queue =
    let added = store ping_id now queue in
    let old = keys_where (is_old now) added in
    let left = discard_all old added in (left, leb 3 (length left) && not (is_empty old))

-- A ping waits until its answer comes or another ping is sent more than 60 seconds after it; a ping
-- that is sent waits, and its answer takes no other away.
pub lookup-wait_pong :
    (now : ℕ) (ping_id other : Text) (queue : PingQueue)
    → IsDict queue
    → text_eq other ping_id ≡ false
    → let after = (wait_pong now ping_id queue).0 in
      (lookup ping_id after ≡ some now)
      × (lookup other after ≡ unless_test (is_old now) (lookup other queue))
      × (lookup ping_id (got_pong ping_id after) ≡ none)
      × (lookup other (got_pong ping_id after) ≡ lookup other after)
unfolding wait_pong got_pong
lookup-wait_pong now ping_id other queue h k =
    let added = store ping_id now queue in
    let dict = store-IsDict ping_id now queue h in
    let young : is_old now now ≡ false = ground arith in
    (
      lookup-discard_where (is_old now) ping_id added dict
          ∙ rw (lookup-store ping_id now queue, young) refl,
      lookup-discard_where (is_old now) other added dict
          ∙ ap (unless_test (is_old now)) (lookup-store_other other ping_id now queue k),
      lookup-discard ping_id _,
      lookup-discard_other other ping_id _ k,
    )
