-- ===== src/Host/Streams/Selection.antt =====
-- host/src/main.cpp: after a selection exactly the selected monitors stream, and what goes on is
-- left alone.
use immersive.Base.{
  length, suc, refl, ℕ, ◌≡◌, ap, Bool, not, ◌&&◌, List, [], ◌∷◌, none, some, arith, ◌==◌,
  if◌then◌else◌, take, contains, lookup,
}
use immersive.Protocol.Messages.{StreamConfig}
use immersive.Host.Streams.{
  ActiveStream, Streams, HostState, is_streaming, insert_stream, ids_of, keep_selected,
  fresh_stream, start_selected, apply_selection_locked,
}

pub contains-ids_of :
    (streams : Streams) (m : ℕ) → contains (ids_of streams) m ≡ is_streaming m streams
unfolding ids_of lookup
contains-ids_of [] m = refl
contains-ids_of ((id, s) ∷ streams) m = ground (arith, contains-ids_of streams m)

pub length-ids_of : (streams : Streams) → length (ids_of streams) ≡ length streams
unfolding ids_of
length-ids_of [] = refl
length-ids_of ((id, s) ∷ streams) = ap suc (length-ids_of streams)

pub lookup-insert_stream :
    (id m : ℕ) (s : ActiveStream) (streams : Streams)
    → lookup m (insert_stream id s streams) ≡ (if id == m then some s else lookup m streams)
unfolding insert_stream lookup
lookup-insert_stream id m s [] = ground arith
lookup-insert_stream id m s ((j, t) ∷ streams) = ground (arith, lookup-insert_stream id m s streams)

lookup-keep_selected :
    (same : Bool) (ids : List ℕ) (streams : Streams) (m : ℕ)
    → lookup m (keep_selected same ids streams).0
      ≡ (if same && contains ids m then lookup m streams else none)
unfolding keep_selected lookup
lookup-keep_selected same ids [] m = ground arith
lookup-keep_selected same ids ((id, s) ∷ streams) m =
    let one_id = λ (e : id ≡ m). ap (contains ids) e in
    ground (arith, lookup-keep_selected same ids streams m, one_id)

lookup-start_selected :
    (client_id : ℕ) (displays : List ℕ) (cfg : StreamConfig) (ids : List ℕ) (streams : Streams)
    (m : ℕ)
    → lookup m (start_selected client_id displays cfg ids streams).0 ≡ (
        if is_streaming m streams
        then lookup m streams
        else if contains ids m && contains displays m
        then some (fresh_stream cfg)
        else none)
unfolding start_selected
lookup-start_selected client_id displays cfg [] streams m = ground arith
lookup-start_selected client_id displays cfg (id ∷ ids) streams m =
    let starts : Bool = not (is_streaming id streams) && contains displays id in
    let streams' = if starts then insert_stream id (fresh_stream cfg) streams else streams in
    let shown = λ (e : id ≡ m). ap (contains displays) e in
    let found = λ (e : id ≡ m). ap (λ k. lookup k streams) e in
    ground (
      arith,
      lookup-start_selected client_id displays cfg ids streams' m,
      lookup-insert_stream id m (fresh_stream cfg) streams,
      shown,
      found,
    )

-- A client that selects monitors gets exactly the first three of them that exist or that it has
-- running: a stream of its own that is selected again goes on untouched, every other selected
-- monitor of the host starts afresh with the settings of the moment, and nothing else streams,
-- in particular nothing of another client. From then on the client owns the streams.
pub apply_selection-lookup :
    (st : HostState) (client_id : ℕ) (ids : List ℕ) (m : ℕ)
    → let st' = (apply_selection_locked st client_id ids).0 in
      (lookup m st'.active_streams ≡ (
        if not (contains (take 3 ids) m)
        then none
        else if (client_id == st.streams_client_id) && is_streaming m st.active_streams
        then lookup m st.active_streams
        else if contains st.displays m
        then some (fresh_stream st.stream_cfg)
        else none))
      × (st'.streams_client_id ≡ client_id)
unfolding apply_selection_locked
apply_selection-lookup st client_id ids m =
    let same : Bool = client_id == st.streams_client_id in
    let kept = (keep_selected same (take 3 ids) st.active_streams).0 in
    ground (
      arith,
      lookup-keep_selected same (take 3 ids) st.active_streams m,
      lookup-start_selected client_id st.displays st.stream_cfg (take 3 ids) kept m,
    )
