-- ===== src/Host/Streams/Owner.antt =====
-- host/src/main.cpp: however requests follow one another, at most three monitors stream, each once,
-- and only the owner of the streams can drive the PC.
use immersive.Base.{
  ℕ, ◌≡◌, ◌≤◌, ◌⊎◌, inr, refl, ap, ◌∙◌, Bool, true, List, [], ◌∷◌, arith, ◌==◌, length, length-take,
  take, contains,
}
use immersive.Protocol.Messages.{StreamConfig}
use immersive.Host.Streams.{
  Streams, HostState, ids_of, keep_selected, apply_selection_locked, stop_all_locked, retune,
  restart_streams, on_stream_config, force_keyframe_of, on_request_keyframe, on_client_disconnected,
}
use immersive.Host.Streams.Selection.{apply_selection-lookup, contains-ids_of, length-ids_of}
use immersive.Host.Streams.Bound.{
  distinct, length-distinct, distinct-keep_selected, distinct-start_selected,
}

-- At most three streams on different monitors; nobody or their owner drives the PC.
pub WellOwned : HostState → Type 0
WellOwned st =
    (distinct (ids_of st.active_streams) ≡ true)
    × (length st.active_streams ≤ 3)
    × ((st.input_client_id ≡ st.streams_client_id) ⊎ (st.input_client_id ≡ 0))

distinct_none : distinct (ids_of []) ≡ true
unfolding distinct ids_of
distinct_none = refl

apply_selection-distinct :
    (st : HostState) (client_id : ℕ) (ids : List ℕ)
    → distinct (ids_of st.active_streams) ≡ true
    → distinct (ids_of (apply_selection_locked st client_id ids).0.active_streams) ≡ true
unfolding apply_selection_locked
apply_selection-distinct st client_id ids d =
    let selected = take 3 ids in
    let same : Bool = client_id == st.streams_client_id in
    let kept = (keep_selected same selected st.active_streams).0 in
    ground (
      arith,
      distinct-start_selected client_id st.displays st.stream_cfg selected kept
          (distinct-keep_selected same selected st.active_streams d),
    )

apply_selection-input :
    (st : HostState) (client_id : ℕ) (ids : List ℕ)
    → (st.input_client_id ≡ st.streams_client_id) ⊎ (st.input_client_id ≡ 0)
    → ((apply_selection_locked st client_id ids).0.input_client_id
        ≡ (apply_selection_locked st client_id ids).0.streams_client_id)
      ⊎ ((apply_selection_locked st client_id ids).0.input_client_id ≡ 0)
unfolding apply_selection_locked
apply_selection-input st client_id ids h = ground arith

apply_selection-WellOwned :
    (st : HostState) (client_id : ℕ) (ids : List ℕ)
    → WellOwned st
    → WellOwned (apply_selection_locked st client_id ids).0
unfolding WellOwned
apply_selection-WellOwned st client_id ids h =
    let streams = (apply_selection_locked st client_id ids).0.active_streams in
    let d = apply_selection-distinct st client_id ids h.0 in
    let selected : (m : ℕ) → contains (ids_of streams) m ≡ true → contains (take 3 ids) m ≡ true =
      λ m e.
        ground (arith, contains-ids_of streams m, (apply_selection-lookup st client_id ids m).0) in
    let few = length-distinct (ids_of streams) (take 3 ids) d selected in
    (
      d,
      omega (arith, few, length-ids_of streams, length-take 3 ids),
      apply_selection-input st client_id ids h.2,
    )

ids_of-retune :
    (cfg : StreamConfig) (streams : Streams) → ids_of (retune cfg streams) ≡ ids_of streams
unfolding retune ids_of
ids_of-retune cfg [] = refl
ids_of-retune cfg ((id, s) ∷ streams) = ap (◌∷◌ id) (ids_of-retune cfg streams)

ids_of-force_keyframe_of :
    (id : ℕ) (streams : Streams) → ids_of (force_keyframe_of id streams) ≡ ids_of streams
unfolding force_keyframe_of ids_of
ids_of-force_keyframe_of id [] = refl
ids_of-force_keyframe_of id ((j, s) ∷ streams) = ground (arith, ids_of-force_keyframe_of id streams)

-- Other settings of the same streams.
same_ids :
    (st : HostState) (streams : Streams) (cfg : StreamConfig)
    → ids_of streams ≡ ids_of st.active_streams
    → WellOwned st
    → WellOwned (record st { active_streams = streams; stream_cfg = cfg })
unfolding WellOwned
same_ids st streams cfg e h =
    let size : length (ids_of streams) ≡ length (ids_of st.active_streams) = ap length e in
    (
      ap distinct e ∙ h.0,
      omega (arith, size, length-ids_of streams, length-ids_of st.active_streams),
      h.2,
    )

stopped-WellOwned : (st : HostState) → WellOwned st → WellOwned (record st { active_streams = [] })
unfolding WellOwned
stopped-WellOwned st h = (distinct_none, omega arith, h.2)

restart_streams-WellOwned : (st : HostState) → WellOwned st → WellOwned (restart_streams st).0
unfolding restart_streams stop_all_locked
restart_streams-WellOwned st h =
    let stopped = record st { active_streams = [] } in
    let h' = stopped-WellOwned st h in
    ground (
      arith,
      h',
      apply_selection-WellOwned stopped st.streams_client_id (ids_of st.active_streams) h',
    )

-- What reaches the host's streams: the requests of clients, one that leaves, and other displays.
pub data HostRequest : Type 0 where
  selects : ℕ → List ℕ → HostRequest
  configures : ℕ → StreamConfig → HostRequest
  asks_keyframe : ℕ → ℕ → HostRequest
  leaves : ℕ → HostRequest
  finds_displays : List ℕ → HostRequest

pub on_host_request : HostState → HostRequest → HostState
on_host_request st (selects client_id ids) = (apply_selection_locked st client_id ids).0
on_host_request st (configures client_id cfg) = (on_stream_config st client_id cfg).0
on_host_request st (asks_keyframe client_id monitor_id) =
    on_request_keyframe st client_id monitor_id
on_host_request st (leaves client_id) = (on_client_disconnected st client_id).0
on_host_request st (finds_displays ids) = record st { displays = ids }

on_stream_config-WellOwned :
    (st : HostState) (client_id : ℕ) (cfg : StreamConfig)
    → WellOwned st
    → WellOwned (on_stream_config st client_id cfg).0
unfolding on_stream_config
on_stream_config-WellOwned st client_id cfg h =
    let configured = record st { stream_cfg = cfg } in
    let h' = same_ids st st.active_streams cfg refl h in
    let tuned =
      same_ids st (retune cfg st.active_streams) cfg (ids_of-retune cfg st.active_streams) h in
    ground (arith, h', tuned, restart_streams-WellOwned configured h')

on_client_disconnected-WellOwned :
    (st : HostState) (client_id : ℕ)
    → WellOwned st
    → WellOwned (on_client_disconnected st client_id).0
unfolding on_client_disconnected stop_all_locked WellOwned
on_client_disconnected-WellOwned st client_id h = ground (arith, h, distinct_none)

on_host_request-WellOwned :
    (st : HostState) (r : HostRequest) → WellOwned st → WellOwned (on_host_request st r)
unfolding on_host_request on_request_keyframe
on_host_request-WellOwned st (selects client_id ids) h =
    apply_selection-WellOwned st client_id ids h
on_host_request-WellOwned st (configures client_id cfg) h =
    on_stream_config-WellOwned st client_id cfg h
on_host_request-WellOwned st (asks_keyframe client_id monitor_id) h =
    let marked = force_keyframe_of monitor_id st.active_streams in
    ground (
      arith,
      h,
      same_ids st marked st.stream_cfg (ids_of-force_keyframe_of monitor_id st.active_streams) h,
    )
on_host_request-WellOwned st (leaves client_id) h = on_client_disconnected-WellOwned st client_id h
on_host_request-WellOwned st (finds_displays ids) h = unfold WellOwned in h

pub run_requests : HostState → List HostRequest → HostState
run_requests st [] = st
run_requests st (r ∷ rs) = run_requests (on_host_request st r) rs

run_requests-keep :
    (st : HostState) (rs : List HostRequest) → WellOwned st → WellOwned (run_requests st rs)
unfolding run_requests
run_requests-keep st [] h = h
run_requests-keep st (r ∷ rs) h =
    run_requests-keep (on_host_request st r) rs (on_host_request-WellOwned st r h)

-- From a host on which nothing streams and nobody drives, whatever clients select, configure and ask,
-- leave, and whatever displays come and go: at most three monitors ever stream, no monitor twice, and
-- the client whose input is taken is the one that owns the streams, or there is none.
pub run_requests-WellOwned :
    (st : HostState) (rs : List HostRequest)
    → st.active_streams ≡ []
    → st.input_client_id ≡ 0
    → WellOwned (run_requests st rs)
run_requests-WellOwned st rs empty nobody = run_requests-keep st rs (
    unfold WellOwned in
    (
      ap (λ streams. distinct (ids_of streams)) empty ∙ distinct_none,
      (let none : length st.active_streams ≡ 0 = ap length empty in omega arith),
      inr nobody,
    ))
