-- ===== src/Server/State.antt =====
-- host/src/network/server.cpp and host/include/network/server.h: ServerConfig, ClientState and
-- the members of NetworkServer, with what a call makes the outside world see.
pub mod Clients
use immersive.Base.{
  ℕ, ◌+◌, Bool, true, false, List, [], ◌∷◌, Option, none, some, ◌==◌, if◌then◌else◌, ◌≡◌, arith,
  count_if, length,
}
use immersive.Protocol.Messages.{InputMouse, InputKeyboard, StreamConfig, VirtualDisplayCreate}
use immersive.Server.Auth.{Auth}
use immersive.Server.Flow.{Link}

pub record ServerConfig : Type 0 where
  pub tcp_port : ℕ
  pub udp_port : ℕ
  pub max_clients : ℕ

pub record ClientState (S : Type 0) : Type 0 where
  pub id : ℕ
  pub tcp_socket : ℕ
  pub address : ℕ
  pub udp_addr_set : Bool
  pub tcp_media : Bool
  pub authed : Bool
  pub name : List ℕ
  pub link : Link S

-- The pin_ member is in `auth`. An unordered_map is a list: its order is the order in which the
-- map is walked.
pub record Server (S : Type 0) : Type 0 where
  pub config : ServerConfig
  pub auth : Auth
  pub next_client_id : ℕ
  pub monitor_count : ℕ
  pub host_flags : ℕ
  pub host_name : List ℕ
  pub clients : List (ClientState S)

-- The callbacks of INetworkServer, all of which main.cpp sets before it calls start().
pub data Callback : Type 0 where
  client_connected client_disconnected : ℕ → Callback
  monitor_select : ℕ → ℕ → Callback
  multi_monitor_select : ℕ → List ℕ → Callback
  stream_config : ℕ → StreamConfig → Callback
  input_mouse : ℕ → InputMouse → Callback
  input_keyboard : ℕ → InputKeyboard → Callback
  request_keyframe : ℕ → ℕ → Callback
  virtual_display_create : ℕ → VirtualDisplayCreate → Callback
  virtual_display_remove : ℕ → ℕ → Callback
  screen_off : ℕ → Bool → Callback
  pin_requested : ℕ → Callback

-- What happens outside, in order: bytes written to a socket in whole, a write that failed on the
-- way, a shutdown, a close, a datagram to an address and port, a callback, a pause.
pub data Effect : Type 0 where
  wrote : ℕ → List ℕ → Effect
  broken shut closed : ℕ → Effect
  datagram : ℕ → ℕ → List ℕ → Effect
  call : Callback → Effect
  slept : ℕ → Effect

module _ {S : Type 0} where
  -- clients_.find(id)
  pub find_client : ℕ → List (ClientState S) → Option (ClientState S)
  find_client id [] = none
  find_client id (c ∷ cs) = if c.id == id then some c else find_client id cs

  -- A change of the entry that find() returns.
  pub change_client :
      ℕ → (ClientState S → ClientState S) → List (ClientState S) → List (ClientState S)
  change_client id f [] = []
  change_client id f (c ∷ cs) = if c.id == id then f c ∷ cs else c ∷ change_client id f cs

  pub erase_client : ℕ → List (ClientState S) → List (ClientState S)
  erase_client id [] = []
  erase_client id (c ∷ cs) = if c.id == id then cs else c ∷ erase_client id cs

  -- How many clients a HELLO has paired.
  pub paired : List (ClientState S) → ℕ
  paired [] = 0
  paired (c ∷ cs) = (if c.authed then 1 else 0) + paired cs

  pub client_count : Server S → ℕ
  client_count srv = length srv.clients
