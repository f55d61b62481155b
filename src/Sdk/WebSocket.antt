-- ===== src/Sdk/WebSocket.antt =====
-- `WebSocketClient` (sdk/go/agentmsg/websocket.go). The goroutines are counted, and a read loop is
-- followed over the list of what happens to it; the other goroutines share the state, and are taken
-- not to act meanwhile. What goes through the channels `sendCh` and `recvCh` has room there.
pub mod Reconnecting
use Prim.Native.Nat.{min}
use agentmsg.Prelude.{
  ℕ, ◌+◌, ◌-◌, ◌*◌, Bool, true, false, not, ◌&&◌, Option, none, some, String, List, [], ◌∷◌, ltb,
  if◌then◌else◌,
}
use agentmsg.Model.Json.{Json}
use agentmsg.Model.Scalars.{Time}
use agentmsg.Services.Redis.{second}
use agentmsg.Sdk.Http.{ClientError, Reply, ok, err}

pub record WsMessage : Type 0 where
  pub kind : String
  pub body : Json

-- `conn` says whether the pointer is set, `closed` whether `doneCh` has been closed. `readers` and
-- `writers` count the goroutines of the two loops.
pub record WebSocketClient : Type 0 where
  pub conn : Bool
  pub should_reconnect : Bool
  pub max_retries : ℕ
  pub retries : ℕ
  pub closed : Bool
  pub readers : ℕ
  pub writers : ℕ

unfoldable pub new_web_socket_client : WebSocketClient
new_web_socket_client = record {
  conn = false;
  should_reconnect = false;
  max_retries = 5;
  retries = 0;
  closed = false;
  readers = 0;
  writers = 0;
}

-- `Connect`; `dialed` says whether the server accepts the connection.
unfoldable pub connect : Bool → WebSocketClient → Reply (Unit {0}) × WebSocketClient
connect dialed c =
    if dialed
    then (
      ok tt,
      record c {
        conn = true;
        should_reconnect = true;
        retries = 0;
        readers = c.readers + 1;
        writers = c.writers + 1;
      },
    )
    else (err (ClientError.other "websocket dial failed"), c)

-- What `Close` does; closing a channel a second time panics.
pub data Closing : Type 0 where
  done : WebSocketClient → Closing
  panics : Closing

unfoldable pub close : WebSocketClient → Closing
close c = if c.closed then panics else done (record c { should_reconnect = false; closed = true })

-- `Send`; `written` is the result of `WriteMessage`.
unfoldable pub send : Reply (Unit {0}) → WebSocketClient → Reply (Unit {0})
send written c = if c.conn then written else err (ClientError.other "connection is nil")

unfoldable pub can_reconnect : WebSocketClient → Bool
can_reconnect c = c.should_reconnect && ltb c.retries c.max_retries

-- How long `reconnectLoop` sleeps.
unfoldable pub backoff : ℕ → Time
backoff retries = min (retries * second) (30 * second)

unfoldable pub reconnect_loop : Bool → WebSocketClient → WebSocketClient
unfolding connect
reconnect_loop dialed c = (connect dialed (record c { retries = c.retries + 1 })).1

-- What happens to a read: a message that does not decode or that does, or an error, with whether the
-- server would accept a connection after it.
pub data Event : Type 0 where
  undecodable : Event
  received : WsMessage → Event
  lost : Bool → Event

-- A read loop waits for its next event, or has returned; with the messages it has passed on, and the
-- state.
pub record Reading : Type 0 where
  pub returned : Bool
  pub passed : List WsMessage
  pub client : WebSocketClient

abbrev stop_reading : WebSocketClient → Reading
stop_reading c = record {
  returned = true;
  passed = [];
  client = record c { readers = c.readers - 1 };
}

abbrev pass : WsMessage → Reading → Reading
pass m r = record r { passed = m ∷ r.passed }

-- `readLoop`
unfoldable pub read_loop : List Event → WebSocketClient → Reading
read_loop [] c =
    if c.closed then stop_reading c else record { returned = false; passed = []; client = c }
read_loop (undecodable ∷ evs) c =
    let rest = read_loop evs c in if c.closed then stop_reading c else rest
read_loop (received m ∷ evs) c =
    let rest = pass m (read_loop evs c) in if c.closed then stop_reading c else rest
read_loop (lost dialed ∷ evs) c =
    let rest = read_loop evs (reconnect_loop dialed c) in
    if not c.closed && can_reconnect c then rest else stop_reading c
