-- ===== src/Sdk/WebSocket/Reconnecting.antt =====
-- A read loop whose connection is lost again and again.
use agentmsg.Prelude.{ℕ, zero, suc, ◌+◌, ◌-◌, ◌≡◌, Bool, true, false, List, [], ◌∷◌, arith}
use agentmsg.Sdk.WebSocket.{
  WebSocketClient, Event, Reading, reconnect_loop, can_reconnect, read_loop,
}

-- `n` errors of reading, each followed by a dial that the server accepts, or does not.
abbrev pub losses : ℕ → Bool → List Event
losses zero dialed = []
losses (suc n) dialed = Event.lost dialed ∷ losses n dialed

-- The loop has returned without passing anything on, and its goroutine is gone.
abbrev pub GaveUp : WebSocketClient → Reading → Type 0
GaveUp c r = (r.returned ≡ true) × (r.passed ≡ []) × (r.client.readers ≡ c.readers - 1)

-- A loop that is not closed and has a retry left, and loses its connection any number of times, each
-- time getting another: it is still running, may reconnect again, and has started one more read
-- loop and one more write loop each time.
pub read_loop_leaks :
    (n : ℕ) (c : WebSocketClient)
    → c.closed ≡ false
    → can_reconnect c ≡ true
    → let r = read_loop (losses n true) c in
      (r.returned ≡ false)
      × (can_reconnect r.client ≡ true)
      × (r.client.readers ≡ c.readers + n)
      × (r.client.writers ≡ c.writers + n)
unfolding read_loop reconnect_loop can_reconnect
read_loop_leaks zero c open_still more = ground arith
read_loop_leaks (suc n) c open_still more =
    ground (arith, read_loop_leaks n (reconnect_loop true c) (ground arith) (ground (arith, more)))
