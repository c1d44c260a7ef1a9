-- ===== src/IdMaps/Mapping.antt =====
-- container.go and netns.go: what the mapping means for the users of the container.
use curimata.Common.{
  ℕ, zero, suc, ◌+◌, ◌-◌, ◌≤◌, ◌<◌, ◌≡◌, ◌⊎◌, refl, ◌&&◌, List, [], ◌∷◌, Option, none, some, ltb,
  leb, ◌==◌, arith, Bytes, ok, if◌then◌else◌,
}
use curimata.Common.Int.{ℤ, pos, negsuc}
use curimata.Text.Number.{itoa, itoa_ℤ, atoi, atoi-itoa, max_int}
use curimata.IdMaps.{IdMap, SubIdFile, sub_id_range, id_mappings, id_map_args, map_args}

-- The kernel's reading of one map, and of a list of maps: the ID on the host.
unfoldable pub in_map : ℤ → ℤ → ℤ → ℕ → Option ℕ
in_map (pos inner) (pos outer) (pos size) c =
    if leb inner c && ltb c (inner + size) then some (outer + (c - inner)) else none
in_map (pos inner) (pos outer) (negsuc size) c = none
in_map (pos inner) (negsuc outer) size c = none
in_map (negsuc inner) outer size c = none

unfoldable pub host_of : List IdMap → ℕ → Option ℕ
unfolding in_map
host_of [] c = none
host_of (m ∷ maps) c =
    let rest = host_of maps c in
    elim (in_map m.container_id m.host_id m.size c) [ none ↦ rest | some h ↦ some h ]

abbrev granted_maps : ℕ → ℕ → ℕ → List IdMap
granted_maps id start count =
    record { container_id = pos 0; host_id = pos id; size = pos 1 }
    ∷ record { container_id = pos 1; host_id = pos start; size = pos count }
    ∷ []

abbrev granted_host : ℕ → ℕ → ℕ → ℕ → Option ℕ
granted_host id start count c =
    if c == 0 then some id else if leb c count then some (start + (c - 1)) else none

host_of-granted :
    (id start count c : ℕ) → host_of (granted_maps id start count) c ≡ granted_host id start count c
unfolding host_of
host_of-granted id start count zero = ground arith
host_of-granted id start count (suc c) = ground arith

granted_host-injective :
    (id start count c d host : ℕ)
    → (id < start) ⊎ (start + count ≤ id)
    → granted_host id start count c ≡ some host
    → granted_host id start count d ≡ some host
    → c ≡ d
granted_host-injective id start count zero zero host o hc hd = refl
granted_host-injective id start count zero (suc d) host o hc hd = ground arith
granted_host-injective id start count (suc c) zero host o hc hd = ground arith
granted_host-injective id start count (suc c) (suc d) host o hc hd = ground arith

-- With the range from `start` of `count` IDs granted, the root user of the container is the user, the next
-- `count` IDs are the granted ones in order, and no other ID exists in it.
pub id_mappings-host_of :
    (current : Option Bytes) (id : ℕ) (file : Option SubIdFile) (start count : ℕ)
    → sub_id_range current file id ≡ ok (pos start, pos count)
    → (maps : List IdMap) × (id_mappings current id file ≡ ok maps)
      × ((c : ℕ)
          → host_of maps c
            ≡ (if c == 0 then some id else if leb c count then some (start + (c - 1)) else none))
unfolding id_mappings
id_mappings-host_of current id file start count h =
    (granted_maps id start count, rw (h, id_mappings) refl, λ c. host_of-granted id start count c)

-- No two IDs of the container are the same ID of the host, if the user's own ID is outside the granted range.
id_mappings-injective :
    (current : Option Bytes) (id : ℕ) (file : Option SubIdFile) (start count : ℕ)
    {maps : List IdMap} (c d : ℕ) {host : ℕ}
    → sub_id_range current file id ≡ ok (pos start, pos count)
    → (id < start) ⊎ (start + count ≤ id)
    → id_mappings current id file ≡ ok maps
    → host_of maps c ≡ some host
    → host_of maps d ≡ some host
    → c ≡ d
id_mappings-injective current id file start count {maps} c d {host} h outside e hc hd =
    let (same, q, f) = id_mappings-host_of current id file start count h in
    let is_same : same ≡ maps = cc in
    granted_host-injective id start count c d host outside (cc (f c)) (cc (f d))

-- The arguments read as numbers, three for each map.
unfoldable pub args_maps : List Bytes → Option (List IdMap)
args_maps [] = some []
args_maps (_ ∷ []) = none
args_maps (_ ∷ _ ∷ []) = none
args_maps (a ∷ b ∷ c ∷ args) =
    let rest = args_maps args in
    elim (atoi a) [
      | none ↦ none
      | some i ↦ elim (atoi b) [
        | none ↦ none
        | some h ↦ elim (atoi c) [
          | none ↦ none
          | some n ↦ elim rest [
            | none ↦ none
            | some maps ↦ some (record { container_id = i; host_id = h; size = n } ∷ maps)
          ]
        ]
      ]
    ]

args_maps-itoa :
    (i h n : ℕ) (args : List Bytes) {maps : List IdMap}
    → i ≤ max_int
    → h ≤ max_int
    → n ≤ max_int
    → args_maps args ≡ some maps
    → args_maps (itoa i ∷ itoa h ∷ itoa n ∷ args)
      ≡ some (record { container_id = pos i; host_id = pos h; size = pos n } ∷ maps)
unfolding args_maps
args_maps-itoa i h n args hi hh hn e =
    rw (atoi-itoa i hi, atoi-itoa h hh, atoi-itoa n hn, e, args_maps) refl

-- The arguments for newuidmap are read back as the mapping itself, if its numbers fit an int64.
id_map_args-args_maps :
    (current : Option Bytes) (id : ℕ) (file : Option SubIdFile) (start count : ℕ)
    → sub_id_range current file id ≡ ok (pos start, pos count)
    → id ≤ max_int
    → start ≤ max_int
    → count ≤ max_int
    → (args : List Bytes) × (maps : List IdMap) × (id_map_args current id file ≡ ok args)
      × (id_mappings current id file ≡ ok maps)
      × (args_maps args ≡ some maps)
unfolding id_map_args map_args itoa_ℤ args_maps
id_map_args-args_maps current id file start count h hi hs hc =
    let e : id_mappings current id file ≡ ok (granted_maps id start count) =
      unfold id_mappings in rw (h, id_mappings) refl in
    (
      map_args (granted_maps id start count),
      granted_maps id start count,
      rw (e, id_map_args) refl,
      e,
      args_maps-itoa 0 id 1 (itoa 1 ∷ itoa start ∷ itoa count ∷ []) (omega arith) hi (omega arith)
          (args_maps-itoa 1 start count [] (omega arith) hs hc refl),
    )
