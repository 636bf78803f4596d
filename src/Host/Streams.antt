-- ===== src/Host/Streams.antt =====
-- host/src/main.cpp: which monitors stream, to which client: apply_selection_locked,
-- stop_all_locked, the stream configuration, the keyframe request and a client that leaves.
pub mod Selection
pub mod Config
pub mod Bound
pub mod Owner
use immersive.Base.{
  ℕ, ◌+◌, Bool, true, false, not, ◌&&◌, ◌||◌, List, [], ◌∷◌, ◌++◌, Option, none, some, map, ltb,
  ◌==◌, if◌then◌else◌, take, contains, lookup,
}
use immersive.Protocol.Messages.{StreamConfig}
use immersive.Host.Input.{InputState, Injected, release_input}

-- ActiveStream, without its thread: the settings it was started with, those its worker is still
-- to take over, and whether it owes a keyframe.
pub record ActiveStream : Type 0 where
  pub cfg : StreamConfig
  pub new_cfg : Option StreamConfig
  pub force_keyframe : Bool

-- std::map by monitor id, in ascending order.
abbrev pub Streams : Type 0
Streams = List (ℕ × ActiveStream)

pub record HostState : Type 0 where
  pub active_streams : Streams
  pub streams_client_id : ℕ
  pub input_client_id : ℕ
  pub input : InputState
  pub stream_cfg : StreamConfig
  pub displays : List ℕ

pub data HostEffect : Type 0 where
  sent_stream_stop : ℕ → ℕ → HostEffect
  started : ℕ → ℕ → HostEffect
  injected : List Injected → HostEffect

abbrev pub is_streaming : ℕ → Streams → Bool
is_streaming id streams = elim (lookup id streams) [ none ↦ false | some s ↦ true ]

pub insert_stream : ℕ → ActiveStream → Streams → Streams
insert_stream id s [] = (id, s) ∷ []
insert_stream id s ((j, t) ∷ streams) =
    let rest = insert_stream id s streams in
    if j == id
    then (id, s) ∷ streams
    else if ltb id j
    then (id, s) ∷ (j, t) ∷ streams
    else (j, t) ∷ rest

pub ids_of : Streams → List ℕ
ids_of [] = []
ids_of ((id, s) ∷ streams) = id ∷ ids_of streams

-- The streams that stay, and the ids of those that stop.
pub keep_selected : Bool → List ℕ → Streams → Streams × List ℕ
keep_selected same_client ids [] = ([], [])
keep_selected same_client ids ((id, s) ∷ streams) =
    let (kept, stopped) = keep_selected same_client ids streams in
    if same_client && contains ids id then ((id, s) ∷ kept, stopped) else (kept, id ∷ stopped)

pub fresh_stream : StreamConfig → ActiveStream
fresh_stream cfg = record { cfg = cfg; new_cfg = none; force_keyframe = false }

-- Newly selected monitors start, if they exist and do not stream yet.
pub start_selected : ℕ → List ℕ → StreamConfig → List ℕ → Streams → Streams × List HostEffect
start_selected client_id displays cfg [] streams = (streams, [])
start_selected client_id displays cfg (id ∷ ids) streams =
    let starts = not (is_streaming id streams) && contains displays id in
    let streams' = if starts then insert_stream id (fresh_stream cfg) streams else streams in
    let (last, effects) = start_selected client_id displays cfg ids streams' in
    (last, if starts then started client_id id ∷ effects else effects)

abbrev pub stream_stops : ℕ → List ℕ → List HostEffect
stream_stops client_id ids = map (λ id. sent_stream_stop client_id id) ids

pub apply_selection_locked : HostState → ℕ → List ℕ → HostState × List HostEffect
apply_selection_locked st client_id ids =
    let selected = take 3 ids in
    let same = client_id == st.streams_client_id in
    let (kept, stopped) = keep_selected same selected st.active_streams in
    let (streams, starts) = start_selected client_id st.displays st.stream_cfg selected kept in
    let (input, released) = release_input st.input in
    let st' = record st { active_streams = streams; streams_client_id = client_id } in
    (
      if same then st' else record st' { input_client_id = client_id; input = input },
      stream_stops st.streams_client_id stopped
          ++ (if same then [] else injected released ∷ [])
          ++ starts,
    )

pub stop_all_locked : HostState → Bool → HostState × List HostEffect
stop_all_locked st notify_client = (
  record st { active_streams = [] },
  if notify_client then stream_stops st.streams_client_id (ids_of st.active_streams) else [],
)

-- A bitrate, quality or frame rate that the running workers take over.
pub retune : StreamConfig → Streams → Streams
retune cfg [] = []
retune cfg ((id, s) ∷ streams) = (id, record s { new_cfg = some cfg }) ∷ retune cfg streams

pub same_picture : StreamConfig → StreamConfig → Bool
same_picture cfg stream_cfg =
    (cfg.codec == stream_cfg.codec) && (cfg.max_width == stream_cfg.max_width)

abbrev no_streams : Streams → Bool
no_streams [] = true
no_streams (s ∷ streams) = false

-- A new codec or size: every stream stops and starts again.
pub restart_streams : HostState → HostState × List HostEffect
restart_streams st =
    let ids = ids_of st.active_streams in
    let (stopped, stops) = stop_all_locked st true in
    let (st', starts) = apply_selection_locked stopped st.streams_client_id ids in
    if no_streams st.active_streams then (stopped, stops) else (st', stops ++ starts)

-- set_on_stream_config
pub on_stream_config : HostState → ℕ → StreamConfig → HostState × List HostEffect
on_stream_config st client_id cfg =
    let configured = record st { stream_cfg = cfg } in
    if not (no_streams st.active_streams) && not (client_id == st.streams_client_id)
    then (st, [])
    else if same_picture cfg st.stream_cfg
    then (record configured { active_streams = retune cfg st.active_streams }, [])
    else restart_streams configured

-- set_on_request_keyframe
pub force_keyframe_of : ℕ → Streams → Streams
force_keyframe_of id [] = []
force_keyframe_of id ((j, s) ∷ streams) =
    if j == id
    then (j, record s { force_keyframe = true }) ∷ streams
    else (j, s) ∷ force_keyframe_of id streams

pub on_request_keyframe : HostState → ℕ → ℕ → HostState
on_request_keyframe st client_id monitor_id =
    if client_id == st.streams_client_id
    then record st { active_streams = force_keyframe_of monitor_id st.active_streams }
    else st

-- set_on_client_disconnected, behind its screen.
pub on_client_disconnected : HostState → ℕ → HostState × List HostEffect
on_client_disconnected st client_id =
    let (stopped, stops) = stop_all_locked st false in
    let (input, released) = release_input st.input in
    if client_id == st.streams_client_id
    then (record stopped { input_client_id = 0; input = input }, stops ++ injected released ∷ [])
    else (st, [])
