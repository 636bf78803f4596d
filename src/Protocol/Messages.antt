-- ===== src/Protocol/Messages.antt =====
-- protocol/protocol.h: the packed structs, and their bytes. A little-endian host copies them to
-- and from the wire by memcpy; signed 16-bit fields are kept as their bit patterns.
use immersive.Base.{ℕ, List, ◌++◌, le8, le16, le32, le64, u8_at, u16_at, u32_at, u64_at, bytes_at}

pub record ControlHeader : Type 0 where
  pub type_code : ℕ
  pub size : ℕ

unfoldable pub encode_header : ControlHeader → List ℕ
encode_header h = le8 h.type_code ++ le32 h.size

unfoldable pub decode_header : List ℕ → ControlHeader
decode_header b = record { type_code = u8_at b 0; size = u32_at b 1 }

abbrev pub header_size : ℕ
header_size = 5

pub record Hello : Type 0 where
  pub protocol_version : ℕ
  pub client_name : List ℕ
  pub flags : ℕ
  pub pin : ℕ

-- offsetof(Hello, flags) and sizeof(Hello)
abbrev pub hello_flags_offset : ℕ
hello_flags_offset = 33

unfoldable pub encode_hello : Hello → List ℕ
encode_hello h = le8 h.protocol_version ++ h.client_name ++ le8 h.flags ++ le32 h.pin

-- A short payload leaves the fields behind it zero.
unfoldable pub decode_hello : List ℕ → Hello
decode_hello b = record {
  protocol_version = u8_at b 0;
  client_name = bytes_at b 1 32;
  flags = u8_at b 33;
  pin = u32_at b 34;
}

pub record HelloAck : Type 0 where
  pub protocol_version : ℕ
  pub udp_port : ℕ
  pub monitor_count : ℕ
  pub host_name : List ℕ
  pub flags : ℕ

unfoldable pub encode_hello_ack : HelloAck → List ℕ
encode_hello_ack a =
    le8 a.protocol_version ++ le16 a.udp_port ++ le8 a.monitor_count ++ a.host_name ++ le8 a.flags

pub record DiscoveryRequest : Type 0 where
  pub magic : ℕ
  pub protocol_version : ℕ

abbrev pub discovery_request_size : ℕ
discovery_request_size = 5

unfoldable pub decode_discovery_request : List ℕ → DiscoveryRequest
decode_discovery_request b = record { magic = u32_at b 0; protocol_version = u8_at b 4 }

pub record DiscoveryReply : Type 0 where
  pub magic : ℕ
  pub protocol_version : ℕ
  pub tcp_port : ℕ
  pub monitor_count : ℕ
  pub flags : ℕ
  pub host_name : List ℕ

unfoldable pub encode_discovery_reply : DiscoveryReply → List ℕ
encode_discovery_reply r =
    le32 r.magic
    ++ le8 r.protocol_version
    ++ le16 r.tcp_port
    ++ le8 r.monitor_count
    ++ le8 r.flags
    ++ r.host_name

pub record MonitorInfo : Type 0 where
  pub monitor_id : ℕ
  pub width : ℕ
  pub height : ℕ
  pub refresh_rate : ℕ
  pub name : List ℕ

unfoldable pub encode_monitor_info : MonitorInfo → List ℕ
encode_monitor_info m =
    le8 m.monitor_id ++ le16 m.width ++ le16 m.height ++ le8 m.refresh_rate ++ m.name

pub record VirtualDisplayCreate : Type 0 where
  pub width : ℕ
  pub height : ℕ
  pub refresh_rate : ℕ

unfoldable pub decode_virtual_display_create : List ℕ → VirtualDisplayCreate
decode_virtual_display_create b = record {
  width = u16_at b 0;
  height = u16_at b 2;
  refresh_rate = u8_at b 4;
}

pub record MultiMonitorSelect : Type 0 where
  pub monitor_count : ℕ
  pub monitor_ids : List ℕ

unfoldable pub decode_multi_monitor_select : List ℕ → MultiMonitorSelect
decode_multi_monitor_select b = record { monitor_count = u8_at b 0; monitor_ids = bytes_at b 1 3 }

pub record StreamStart : Type 0 where
  pub monitor_id : ℕ
  pub width : ℕ
  pub height : ℕ
  pub codec : ℕ
  pub first_frame : ℕ

unfoldable pub encode_stream_start : StreamStart → List ℕ
encode_stream_start s =
    le8 s.monitor_id ++ le16 s.width ++ le16 s.height ++ le8 s.codec ++ le32 s.first_frame

pub record StreamConfig : Type 0 where
  pub codec : ℕ
  pub bitrate_kbps : ℕ
  pub jpeg_quality : ℕ
  pub max_width : ℕ
  pub max_fps : ℕ

unfoldable pub decode_stream_config : List ℕ → StreamConfig
decode_stream_config b = record {
  codec = u8_at b 0;
  bitrate_kbps = u32_at b 1;
  jpeg_quality = u8_at b 5;
  max_width = u16_at b 6;
  max_fps = u8_at b 8;
}

pub record InputMouse : Type 0 where
  pub monitor_id : ℕ
  pub x : ℕ
  pub y : ℕ
  pub buttons : ℕ
  pub scroll_delta : ℕ
  pub scroll_delta_h : ℕ

unfoldable pub decode_input_mouse : List ℕ → InputMouse
decode_input_mouse b = record {
  monitor_id = u8_at b 0;
  x = u16_at b 1;
  y = u16_at b 3;
  buttons = u8_at b 5;
  scroll_delta = u16_at b 6;
  scroll_delta_h = u16_at b 8;
}

pub record InputKeyboard : Type 0 where
  pub monitor_id : ℕ
  pub scancode : ℕ
  pub pressed : ℕ
  pub modifiers : ℕ

unfoldable pub decode_input_keyboard : List ℕ → InputKeyboard
decode_input_keyboard b = record {
  monitor_id = u8_at b 0;
  scancode = u16_at b 1;
  pressed = u8_at b 3;
  modifiers = u8_at b 4;
}

pub record FrameAck : Type 0 where
  pub monitor_id : ℕ
  pub frame_number : ℕ

unfoldable pub decode_frame_ack : List ℕ → FrameAck
decode_frame_ack b = record { monitor_id = u8_at b 0; frame_number = u32_at b 1 }

pub record LatencyProbe : Type 0 where
  pub probe_id : ℕ
  pub client_timestamp : ℕ

unfoldable pub decode_latency_probe : List ℕ → LatencyProbe
decode_latency_probe b = record { probe_id = u64_at b 0; client_timestamp = u64_at b 8 }

pub record LatencyResponse : Type 0 where
  pub probe_id : ℕ
  pub client_timestamp : ℕ
  pub server_timestamp : ℕ

unfoldable pub encode_latency_response : LatencyResponse → List ℕ
encode_latency_response r = le64 r.probe_id ++ le64 r.client_timestamp ++ le64 r.server_timestamp

pub record VideoPacketHeader : Type 0 where
  pub monitor_id : ℕ
  pub frame_number : ℕ
  pub chunk_index : ℕ
  pub chunk_count : ℕ

unfoldable pub encode_video_packet_header : VideoPacketHeader → List ℕ
encode_video_packet_header h =
    le8 h.monitor_id ++ le32 h.frame_number ++ le16 h.chunk_index ++ le16 h.chunk_count

pub record VideoParityHeader : Type 0 where
  pub frame_size : ℕ
  pub parity_count : ℕ

unfoldable pub encode_video_parity_header : VideoParityHeader → List ℕ
encode_video_parity_header h = le32 h.frame_size ++ le16 h.parity_count

pub record VideoFrameHeader : Type 0 where
  pub monitor_id : ℕ
  pub frame_number : ℕ

unfoldable pub encode_video_frame_header : VideoFrameHeader → List ℕ
encode_video_frame_header h = le8 h.monitor_id ++ le32 h.frame_number
