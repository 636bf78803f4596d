-- ===== src/Host/Displays/Remove.antt =====
-- host/src/main.cpp: a virtual display that is removed takes its own stream with it and no other.
use immersive.Base.{
  ℕ, ◌≡◌, ◌≤◌, ap, not, ◌&&◌, List, [], ◌∷◌, none, arith, ◌==◌, if◌then◌else◌, length, contains,
  remove, contains-remove, lookup, take, take_all,
}
use immersive.Host.Streams.{ids_of, apply_selection_locked}
use immersive.Host.Streams.Selection.{apply_selection-lookup, contains-ids_of, length-ids_of}
use immersive.Host.Displays.{Displays, remove_virtual_locked}

length-remove : (id : ℕ) (xs : List ℕ) → length (remove id xs) ≤ length xs
length-remove id [] = omega arith
length-remove id (x ∷ xs) = ground (arith, length-remove id xs)

-- A display that the driver has goes from its list together with its stream, whoever watches it;
-- every other stream, of at most three that run, goes on untouched. Of an id that the driver does
-- not have, nothing is removed and nothing changes.
pub remove_virtual_locked-lookup :
    (d : Displays) (id m : ℕ) (fresh : List ℕ)
    → length d.host.active_streams ≤ 3
    → let (removed, d', effects) = remove_virtual_locked d id fresh in
      (removed ≡ contains d.active id)
      × (contains d'.active m ≡ (contains d.active m && not (removed && (id == m))))
      × (lookup m d'.host.active_streams
          ≡ (if removed && (id == m) then none else lookup m d.host.active_streams))
unfolding remove_virtual_locked
remove_virtual_locked-lookup d id m fresh few =
    let ids = ids_of d.host.active_streams in
    let keep = remove id ids in
    let whole : take 3 keep ≡ keep =
      take_all 3 keep (omega (arith, length-remove id ids, length-ids_of d.host.active_streams)) in
    let after = (apply_selection-lookup d.host d.host.streams_client_id keep m).0 in
    let same_id = λ (e : id ≡ m). ap (contains d.active) e in
    let streams = (apply_selection_locked d.host d.host.streams_client_id keep).0.active_streams in
    let kept : lookup m streams ≡ (if id == m then none else lookup m d.host.active_streams) =
      ground (
        arith,
        after,
        ap (λ xs. contains xs m) whole,
        contains-remove id m ids,
        contains-ids_of d.host.active_streams m,
      ) in
    let one_id = λ (e : id ≡ m). ap (contains ids) e in
    ground (
      arith,
      kept,
      same_id,
      one_id,
      contains-remove id m d.active,
      contains-ids_of d.host.active_streams m,
    )
