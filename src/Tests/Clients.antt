-- ===== src/Tests/Clients.antt =====
-- The theorems on clients, their PIN and their messages at concrete inputs.
use immersive.Base.{
  take, replicate, ℕ, ◌+◌, ◌*◌, ◌≡◌, ◌≤◌, ◌↔◌, ◌⊎◌, true, false, List, [], ◌∷◌, All, some, arith,
  secs, refl, lookup_or,
}
use mathlib.Core.Option
use immersive.Protocol.Messages.{Hello, encode_hello, decode_hello}
use immersive.Protocol.Greeting.{decode-encode_hello}
use immersive.Server.Auth.{check_pin, state_of, inaddr_loopback, check_pin_iff}
use immersive.Server.Auth.Guessing.{Attempt, wrong_answers, wrong_answers-rate}
use immersive.Server.Stream.{Incoming, message}
use immersive.Server.Sending.{broadcast_udp}
use immersive.Server.Sending.Writes.{ReachesPaired, broadcasts-ReachesPaired}
use immersive.Server.Session.{session_round, Session, accept_client, link_rate_scale}
use immersive.Server.Session.Handshake.{
  IsHarmless, hello_passes, session_rounds, session_rounds-IsHarmless,
}
use immersive.Server.Session.Capacity.{WithinCapacity, start, after, accepts, Reach-WithinCapacity}
use immersive.Server.Rate.Bounds.{InRange}
use immersive.Server.Session.Scale.{Reach-link_rate_scale}
use immersive.Server.State.{Server}
use immersive.Server.Discovery.{read_reply, answer_discovery, answer_discovery-read}
use immersive.Tests.{fixed_point, open_net, pin_auth, empty_server, busy_server}

abbrev typed : ℕ
typed = 123456

abbrev visitor : ℕ
visitor = 5

check_pin_iff_example : ((check_pin pin_auth visitor typed 0).reason ≡ 0) ↔ (
    (pin_auth.pin ≡ 0)
    ⊎ (visitor ≡ inaddr_loopback)
    ⊎ (((state_of pin_auth visitor).locked_until ≤ 0) × (typed ≡ pin_auth.pin)))
check_pin_iff_example = check_pin_iff pin_auth visitor typed 0

-- Two wrong guesses a second apart.
abbrev guesses : List Attempt
guesses =
    record { peer = 5; guess = 1; now = secs 1 } ∷ record { peer = 5; guess = 2; now = secs 2 } ∷ []

wrong_answers-rate_example : wrong_answers 5 pin_auth guesses ≤ 5 * (1 + 1)
unfolding lookup_or
wrong_answers-rate_example =
    wrong_answers-rate 5 pin_auth (secs 1) 1 guesses (λ e. absurd (omega arith))
      (λ e. absurd (omega arith)) refl (omega arith, (omega arith, omega arith))
      ((λ h e. absurd (omega arith)), ((λ h e. absurd (omega arith)), tt))

broadcasts-ReachesPaired_example :
    All
      (ReachesPaired open_net busy_server.clients)
      (broadcast_udp open_net busy_server (1 ∷ []) 9002).1
broadcasts-ReachesPaired_example =
    (broadcasts-ReachesPaired open_net busy_server (1 ∷ []) 9002 [] [] 3).0

abbrev stranger : Session
stranger = record { client_id = 2; sock = 8; peer = 6; authed = false; finished = false }

-- A monitor selection, sent before any HELLO.
session_rounds-IsHarmless_example :
    ((session_rounds fixed_point open_net stranger
        ((busy_server, message 16 (0 ∷ []) [], 5) ∷ [])).0.authed
      ≡ false)
    × All
        (IsHarmless stranger.sock)
        (session_rounds fixed_point open_net stranger
          ((busy_server, message 16 (0 ∷ []) [], 5) ∷ [])).1
    × All
        (λ (m : Server ℕ × Incoming × ℕ).
          (session_round fixed_point open_net m.0 stranger m.1 m.2).server.clients ≡ m.0.clients)
        ((busy_server, message 16 (0 ∷ []) [], 5) ∷ [])
unfolding hello_passes session_rounds
session_rounds-IsHarmless_example =
    session_rounds-IsHarmless fixed_point open_net stranger
      ((busy_server, message 16 (0 ∷ []) [], 5) ∷ []) refl (refl, tt)

Reach-WithinCapacity_example :
    WithinCapacity 1 (accept_client fixed_point open_net empty_server 8 6).0
Reach-WithinCapacity_example =
    Reach-WithinCapacity fixed_point open_net empty_server
      (accept_client fixed_point open_net empty_server 8 6).0
      (after empty_server empty_server _ (start empty_server) (accepts empty_server 8 6)) refl

Reach-link_rate_scale_example :
    InRange fixed_point (
      link_rate_scale fixed_point open_net
        (accept_client fixed_point open_net empty_server 8 6).0
        1)
Reach-link_rate_scale_example =
    Reach-link_rate_scale fixed_point open_net empty_server
      (accept_client fixed_point open_net empty_server 8 6).0 1
      (after empty_server empty_server _ (start empty_server) (accepts empty_server 8 6)) refl

answer_discovery-read_example :
    Option.map read_reply (answer_discovery true empty_server (0x49 ∷ 0x4D ∷ 0x32 ∷ 0x3F ∷ 1 ∷ []))
    ≡ some (9000, 2, true, true)
answer_discovery-read_example =
    answer_discovery-read true empty_server (0x49 ∷ 0x4D ∷ 0x32 ∷ 0x3F ∷ 1 ∷ []) (omega arith)
      (omega arith)

abbrev greeting : Hello
greeting = record {
  protocol_version = 1;
  client_name = 86 ∷ 82 ∷ replicate 30 0;
  flags = 1;
  pin = 123456;
}

decode-encode_hello_example :
    (decode_hello (encode_hello greeting) ≡ greeting)
    × (decode_hello (take 34 (encode_hello greeting)) ≡ record greeting { pin = 0 })
    × (decode_hello (take 33 (encode_hello greeting)) ≡ record greeting { flags = 0; pin = 0 })
decode-encode_hello_example =
    decode-encode_hello greeting refl (omega arith) (omega arith) (omega arith)
