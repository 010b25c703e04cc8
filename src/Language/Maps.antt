-- ===== src/Language/Maps.antt =====
-- The tag maps of modules: registerMap and deregisterMap,
-- home/kineircd/src/lib/language/interface.cpp. The set keeps the address of the parameter `map`
-- itself, which lies in the frame of the call, and not that of the map.
use kineircd.Prelude.{ℕ, ◌≡◌, refl, arith, Bool, true, List, [], ◌∷◌, none}
use kineircd.Prelude.Text.{Text}
use kineircd.Daemon.{insert, erase}
use kineircd.Language.Files.{Dictionary, TagMap, process_tag_map, process_maps}

-- The parameter's address, the map and the set; the answer, the map with its identifiers and the set.
unfoldable pub register_map :
    (Text → Text) → Dictionary → ℕ → TagMap → List ℕ → Bool × TagMap × List ℕ
unfolding insert process_tag_map
register_map to_upper d parameter map tag_maps =
    (true, process_tag_map to_upper d map, insert parameter tag_maps)

unfoldable pub deregister_map : ℕ → List ℕ → List ℕ
unfolding erase
deregister_map parameter tag_maps = erase parameter tag_maps

process_maps_stale :
    (parameter : ℕ) (tag_maps : List ℕ) → process_maps (insert parameter tag_maps) ≡ none
unfolding process_maps insert
process_maps_stale parameter [] = refl
process_maps_stale parameter (x ∷ tag_maps) = ground (arith)

-- Once a map is registered, and as long as no other call takes its address out, processing the maps
-- reads the parameter of a call that has returned.
pub process_maps-register_map :
    (to_upper : Text → Text) (d : Dictionary) (parameter : ℕ) (map : TagMap) (tag_maps : List ℕ)
    → process_maps (register_map to_upper d parameter map tag_maps).2 ≡ none
unfolding register_map
process_maps-register_map to_upper d parameter map tag_maps = process_maps_stale parameter tag_maps
