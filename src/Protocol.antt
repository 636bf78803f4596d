-- ===== src/Protocol.antt =====
-- protocol/protocol.h: the constants of the wire protocol and the types of its messages.
pub mod Messages
pub mod Wire
pub mod Greeting
pub mod Chunks
use immersive.Base.{ℕ, ◌≡◌, refl, Option, none, some, List, [], ◌∷◌, ◌==◌, if◌then◌else◌, arith}

abbrev pub protocol_version : ℕ
protocol_version = 1

abbrev pub max_udp_payload : ℕ
max_udp_payload = 1400

abbrev pub fec_percent : ℕ
fec_percent = 20

abbrev pub hello_flag_tcp_media : ℕ
hello_flag_tcp_media = 1

abbrev pub host_flag_view_only : ℕ
host_flag_view_only = 1

abbrev pub host_flag_virtual_displays : ℕ
host_flag_virtual_displays = 2

abbrev pub host_flag_screen_off : ℕ
host_flag_screen_off = 4

abbrev pub virtual_monitor_id_base : ℕ
virtual_monitor_id_base = 100

abbrev pub reject_pin_required : ℕ
reject_pin_required = 1

abbrev pub reject_wrong_pin : ℕ
reject_wrong_pin = 2

abbrev pub reject_server_full : ℕ
reject_server_full = 3

abbrev pub reject_locked_out : ℕ
reject_locked_out = 4

abbrev pub discovery_request_magic : ℕ
discovery_request_magic = 0x3F324D49

abbrev pub discovery_reply_magic : ℕ
discovery_reply_magic = 0x21324D49

abbrev pub discovery_flag_pin : ℕ
discovery_flag_pin = 1

abbrev pub discovery_flag_view_only : ℕ
discovery_flag_view_only = 2

abbrev pub max_virtual_displays : ℕ
max_virtual_displays = 4

abbrev pub screen_off_lease_ms : ℕ
screen_off_lease_ms = 10000

-- `enum class MessageType`.
pub data MessageType : Type 0 where
  hello hello_ack monitor_list monitor_select stream_start stream_stop : MessageType
  audio_start audio_stop hello_reject input_mouse input_keyboard input_pointer : MessageType
  multi_monitor_select stream_config virtual_display_create virtual_display_remove : MessageType
  virtual_display_result screen_off frame_ack request_keyframe latency_probe : MessageType
  latency_response video_frame audio_data ping : MessageType

-- The byte of each type.
unfoldable pub code : MessageType → ℕ
code hello = 0x01
code hello_ack = 0x02
code monitor_list = 0x03
code monitor_select = 0x04
code stream_start = 0x05
code stream_stop = 0x06
code audio_start = 0x07
code audio_stop = 0x08
code hello_reject = 0x09
code input_mouse = 0x10
code input_keyboard = 0x11
code input_pointer = 0x12
code multi_monitor_select = 0x20
code stream_config = 0x21
code virtual_display_create = 0x22
code virtual_display_remove = 0x23
code virtual_display_result = 0x24
code screen_off = 0x25
code frame_ack = 0x30
code request_keyframe = 0x31
code latency_probe = 0x40
code latency_response = 0x41
code video_frame = 0x50
code audio_data = 0x51
code ping = 0xFF

abbrev all_types : List MessageType
all_types =
    hello ∷ hello_ack ∷ monitor_list ∷ monitor_select ∷ stream_start ∷ stream_stop ∷ audio_start
    ∷ audio_stop ∷ hello_reject ∷ input_mouse ∷ input_keyboard ∷ input_pointer
    ∷ multi_monitor_select ∷ stream_config ∷ virtual_display_create ∷ virtual_display_remove
    ∷ virtual_display_result ∷ screen_off ∷ frame_ack ∷ request_keyframe ∷ latency_probe
    ∷ latency_response ∷ video_frame ∷ audio_data ∷ ping ∷ []

find_type : List MessageType → ℕ → Option MessageType
find_type [] n = none
find_type (t ∷ ts) n = if code t == n then some t else find_type ts n

-- The cast of a header's byte, where a value of no enumerator is `none` (the switch's default).
unfoldable pub message_type : ℕ → Option MessageType
unfolding find_type code
message_type n = find_type all_types n

find_type-code :
    (ts : List MessageType) (n : ℕ) (t : MessageType) → find_type ts n ≡ some t → code t ≡ n
unfolding find_type
find_type-code [] n t h = cc
find_type-code (u ∷ ts) n t h = ground (arith, find_type-code ts n t)

pub message_type-code : (t : MessageType) → message_type (code t) ≡ some t
unfolding message_type
message_type-code hello = refl
message_type-code _ = refl

pub code-message_type : (n : ℕ) (t : MessageType) → message_type n ≡ some t → code t ≡ n
code-message_type n t h = find_type-code all_types n t (unfold message_type in h)
