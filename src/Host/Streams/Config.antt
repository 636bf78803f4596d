-- ===== src/Host/Streams/Config.antt =====
-- host/src/main.cpp: what a STREAM_CONFIG makes of the running streams.
use immersive.Base.{
  ℕ, ◌≡◌, refl, true, false, not, ◌&&◌, [], ◌∷◌, Option, none, some, arith, ◌==◌, if◌then◌else◌,
  take, contains, lookup,
}
use immersive.Protocol.Messages.{StreamConfig}
use immersive.Host.Streams.{
  ActiveStream, Streams, HostState, ids_of, fresh_stream, stop_all_locked, apply_selection_locked,
  retune, same_picture, no_streams, restart_streams, on_stream_config,
}
use immersive.Host.Streams.Selection.{apply_selection-lookup}

-- A running stream with settings to take over.
abbrev pub retuned : StreamConfig → Option ActiveStream → Option ActiveStream
retuned cfg none = none
retuned cfg (some s) = some (record s { new_cfg = some cfg })

lookup-retune :
    (cfg : StreamConfig) (streams : Streams) (m : ℕ)
    → lookup m (retune cfg streams) ≡ retuned cfg (lookup m streams)
unfolding retune lookup
lookup-retune cfg [] m = refl
lookup-retune cfg ((id, s) ∷ streams) m = ground (arith, lookup-retune cfg streams m)

ids_of_none :
    (streams : Streams) (m : ℕ)
    → no_streams streams ≡ true
    → contains (take 3 (ids_of streams)) m ≡ false
unfolding ids_of
ids_of_none [] m e = refl
ids_of_none (s ∷ streams) m e = ground arith

restart_streams-rest :
    (st : HostState)
    → ((restart_streams st).0.stream_cfg ≡ st.stream_cfg)
      × ((restart_streams st).0.streams_client_id ≡ st.streams_client_id)
unfolding restart_streams stop_all_locked apply_selection_locked
restart_streams-rest st = ground arith

restart_streams-lookup :
    (st : HostState) (m : ℕ)
    → lookup m (restart_streams st).0.active_streams ≡ (
        if contains (take 3 (ids_of st.active_streams)) m && contains st.displays m
        then some (fresh_stream st.stream_cfg)
        else none)
unfolding restart_streams stop_all_locked lookup
restart_streams-lookup st m =
    let stopped = record st { active_streams = [] } in
    ground (
      arith,
      ids_of_none st.active_streams m,
      (apply_selection-lookup stopped st.streams_client_id (ids_of st.active_streams) m).0,
    )

-- A STREAM_CONFIG of a client that does not own the running streams changes neither
-- them nor the configuration. From
-- the owner, or when nothing streams, it is the configuration of later streams; with the codec and
-- the width as they were, the running streams go on and take it over; else the first three of the
-- monitors that streamed and are still there start afresh with it, and no other streams.
pub on_stream_config-lookup :
    (st : HostState) (client_id : ℕ) (cfg : StreamConfig) (m : ℕ)
    → let bystander =
        not (no_streams st.active_streams) && not (client_id == st.streams_client_id) in
      let st' = (on_stream_config st client_id cfg).0 in
      (lookup m st'.active_streams ≡ (
        if bystander
        then lookup m st.active_streams
        else if same_picture cfg st.stream_cfg
        then retuned cfg (lookup m st.active_streams)
        else if contains (take 3 (ids_of st.active_streams)) m && contains st.displays m
        then some (fresh_stream cfg)
        else none))
      × (st'.stream_cfg ≡ (if bystander then st.stream_cfg else cfg))
      × (st'.streams_client_id ≡ st.streams_client_id)
unfolding on_stream_config
on_stream_config-lookup st client_id cfg m =
    let configured = record st { stream_cfg = cfg } in
    ground (
      arith,
      lookup-retune cfg st.active_streams m,
      restart_streams-lookup configured m,
      restart_streams-rest configured,
    )
