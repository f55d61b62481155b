-- ===== src/Tests/WebSocket.antt =====
-- The WebSocket client at work.
use agentmsg.Prelude.{◌+◌, ◌≡◌, refl, true, false}
use agentmsg.Sdk.WebSocket.{
  WebSocketClient, new_web_socket_client, connect, can_reconnect, read_loop,
}
use agentmsg.Sdk.WebSocket.Reconnecting.{losses, read_loop_leaks}

abbrev connected : WebSocketClient
connected = record {
  conn = true;
  should_reconnect = true;
  max_retries = 5;
  retries = 0;
  closed = false;
  readers = 1;
  writers = 1;
}

new_connected : (connect true new_web_socket_client).1 ≡ connected
unfolding connect new_web_socket_client
new_connected = refl

read_loop_leaks_example :
    let r = read_loop (losses 7 true) connected in
    (r.returned ≡ false)
    × (can_reconnect r.client ≡ true)
    × (r.client.readers ≡ connected.readers + 7)
    × (r.client.writers ≡ connected.writers + 7)
unfolding can_reconnect
read_loop_leaks_example = read_loop_leaks 7 connected refl refl
