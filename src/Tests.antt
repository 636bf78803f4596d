-- ===== src/Tests.antt =====
-- Concrete inputs for the theorems: a system that moves a few bytes at a time, fixed-point numbers
-- for the rate control, and a server.
pub mod Media
pub mod Clients
pub mod Requests
pub mod Panel
pub mod Worker
pub mod Usb
pub mod Codec
use immersive.Base.{
  ℕ, ◌+◌, ◌-◌, ◌*◌, ◌/◌, ◌≡◌, ◌≤◌, ◌<◌, min, Bool, true, false, List, [], ◌∷◌, ltb, leb, arith,
  length, secs, refl,
}
use immersive.Server.Rate.{Float32, RateControl}
use immersive.Server.Stream.{Kernel}
use immersive.Server.Flow.{Link, FlowState, fresh_flow}
use immersive.Server.Auth.{Auth}
use immersive.Server.State.{Server, ServerConfig, ClientState}
use immersive.Server.Sending.{Net}

-- At most two bytes for each recv() and three for each send().
abbrev pub slow_kernel : Kernel
slow_kernel = record {
  recv = λ n stream. min 2 (min n (length stream));
  send = λ bytes. min 3 (length bytes);
  recv-le = λ n stream. omega arith;
  recv-le-length = λ n stream. omega arith;
  recv-pos = λ n stream h k. omega arith;
  send-le-length = λ bytes. omega arith;
}

pub ltb-leb : (a b : ℕ) → ltb a b ≡ true → leb a b ≡ true
ltb-leb a b h = ground arith

pub leb-leb : (a b : ℕ) → leb a b ≡ true → (leb a a ≡ true) × (leb b b ≡ true)
leb-leb a b h = ground arith

pub leb_trans : (a b c : ℕ) → leb a b ≡ true → leb b c ≡ true → leb a c ≡ true
leb_trans a b c h k = ground arith

pub cut-leb : (x : ℕ) → leb 500 x ≡ true → leb x 10000 ≡ true → leb (x * 7000 / 10000) x ≡ true
cut-leb x h k = ground arith

pub leb-raise :
    (x : ℕ) → leb 500 x ≡ true → leb x 10000 ≡ true → leb x (x * 11000 / 10000 + 200) ≡ true
leb-raise x h k = ground arith

-- Shares in hundredths of a percent.
abbrev pub fixed_point : Float32
fixed_point = record {
  Float = ℕ;
  lt = ltb;
  le = leb;
  mul = λ a b. a * b / 10000;
  add = ◌+◌;
  half = 5000;
  one = 10000;
  k_min_rate_scale = 500;
  cut_factor = 7000;
  raise_factor = 11000;
  raise_step = 200;
  lt-le = ltb-leb;
  le-self = leb-leb;
  le_trans = leb_trans;
  min-half = refl;
  half-one = refl;
  mul-cut_factor = cut-leb;
  mul-raise_factor = leb-raise;
}

-- Every write succeeds.
abbrev pub open_net : Net
open_net sock bytes = true

abbrev pub half_rate : RateControl ℕ
half_rate = record {
  scale = 5000;
  sent = 0;
  lost = 0;
  worst_delay = 0;
  stalled = false;
  window_start = 0;
  last_cut = 0;
  last_ack = 0;
}

abbrev pub idle_link : Link ℕ
idle_link = record { flow_state = []; tcp_unacked = []; rate = half_rate }

abbrev pub pin_auth : Auth
pin_auth = record { pin = 123456; auth_failures = []; kicked = [] }

abbrev pub paired_headset : ClientState ℕ
paired_headset = record {
  id = 1;
  tcp_socket = 7;
  address = 3232235777;
  udp_addr_set = true;
  tcp_media = false;
  authed = true;
  name = [];
  link = idle_link;
}

-- One place, no client.
abbrev pub empty_server : Server ℕ
empty_server = record {
  config = record { tcp_port = 9000; udp_port = 9001; max_clients = 1 };
  auth = pin_auth;
  next_client_id = 1;
  monitor_count = 2;
  host_flags = 1;
  host_name = 80 ∷ 67 ∷ [];
  clients = [];
}

abbrev pub busy_server : Server ℕ
busy_server = record empty_server { next_client_id = 2; clients = paired_headset ∷ [] }
