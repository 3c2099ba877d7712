-- ===== src/ShardMap.antt =====
-- internal/routing/shardmap.go: the shard map that the router reads.
pub mod Doc
pub mod RoundTrip
use llm_inference_operator.Base.{
  String, List, [], ◌∷◌, ◌++◌, Option, none, some, if◌then◌else◌, text_eq,
}
use llm_inference_operator.Base.Int.{ℤ, pos, negsuc, min_int32, max_int32}
use llm_inference_operator.Kube.{Outcome, ok, err}
use llm_inference_operator.Kube.Client.{and_then}
use llm_inference_operator.Signals.{new_error}
use llm_inference_operator.Json.{
  Json, null, obj, arr, Items, nil, cons, Fields, end, field, Codec, field_named, int_field,
  string_field,
}
use mathlib.Core.Option

pub record ShardAssignment : Type 0 where
  pub shard_id : ℤ
  pub role : String
  pub owner_pod : String

pub record ShardMap : Type 0 where
  pub version : ℤ
  pub shards : List ShardAssignment

-- The fields of one element of `raw.Shards`, by their tags.
set_shard : String → Json → ShardAssignment → Option ShardAssignment
unfolding field_named int_field string_field
set_shard key v a =
    if field_named "shardID" key
    then Option.map (λ n. record a { shard_id = n }) (int_field min_int32 max_int32 v a.shard_id)
    else if field_named "role" key
    then Option.map (λ s. record a { role = s }) (string_field v a.role)
    else if field_named "ownerPod" key
    then Option.map (λ s. record a { owner_pod = s }) (string_field v a.owner_pod)
    else some a

read_shard : Fields → ShardAssignment → Option ShardAssignment
unfolding set_shard Option.bind
read_shard end a = some a
read_shard (field key v rest) a = Option.bind (set_shard key v a) (read_shard rest)

abbrev zero_shard : ShardAssignment
zero_shard = record { shard_id = pos 0; role = ""; owner_pod = "" }

-- One element, into what its place in the slice holds: `null` leaves that as it is.
read_element : Json → ShardAssignment → Option ShardAssignment
unfolding read_shard
read_element null old = some old
read_element (obj fields) old = read_shard fields old
read_element _ old = none

-- The elements of a slice, and the elements between its length and its capacity.
abbrev pub Backed : Type 0
Backed = List ShardAssignment × List ShardAssignment

abbrev pub push : ShardAssignment → Backed → Backed
push a (used, spare) = (a ∷ used, spare)

-- The elements of an array, each into the place of the slice with its index, a zero one where the
-- memory behind the slice ends. The slice ends with the array, and what was behind it stays.
read_elements : Items → List ShardAssignment → Option Backed
unfolding read_element Option.bind
read_elements nil old = some ([], old)
read_elements (cons v rest) [] =
    Option.bind (read_element v zero_shard) (λ a. Option.map (push a) (read_elements rest []))
read_elements (cons v rest) (place ∷ places) =
    Option.bind (read_element v place) (λ a. Option.map (push a) (read_elements rest places))

-- `null` and an empty array set the slice to one without memory; another array is read into the slice
-- that is there.
shards_field : Json → Backed → Option Backed
unfolding read_elements
shards_field null old = some ([], [])
shards_field (arr nil) old = some ([], [])
shards_field (arr (cons v rest)) (used, spare) = read_elements (cons v rest) (used ++ spare)
shards_field _ old = none

abbrev pub min_int64 : ℤ
min_int64 = negsuc 9223372036854775807

abbrev pub max_int64 : ℤ
max_int64 = pos 9223372036854775807

-- The variable `raw`.
pub record Raw : Type 0 where
  pub version : ℤ
  pub shards : Backed

set_raw : String → Json → Raw → Option Raw
unfolding shards_field field_named int_field
set_raw key v m =
    if field_named "version" key
    then Option.map (λ n. record m { version = n }) (int_field min_int64 max_int64 v m.version)
    else if field_named "shards" key
    then Option.map (λ l. record m { shards = l }) (shards_field v m.shards)
    else some m

read_raw : Fields → Raw → Option Raw
unfolding set_raw Option.bind
read_raw end m = some m
read_raw (field key v rest) m = Option.bind (set_raw key v m) (read_raw rest)

abbrev zero_raw : Raw
zero_raw = record { version = pos 0; shards = ([], []) }

-- `json.Unmarshal(b, &raw)` after the syntax: a key that occurs again is read into what the earlier
-- occurrence left.
raw_of_json : Json → Option Raw
unfolding read_raw
raw_of_json null = some zero_raw
raw_of_json (obj fields) = read_raw fields zero_raw
raw_of_json _ = none

-- The copy of `raw` into a `ShardMap`.
abbrev map_of_raw : Raw → ShardMap
map_of_raw raw = record { version = raw.version; shards = raw.shards.0 }

unfoldable pub map_of_json : Json → Option ShardMap
unfolding raw_of_json
map_of_json j = Option.map map_of_raw (raw_of_json j)

module _ (codec : Codec) where
  abbrev pub fits : Option ShardMap → Outcome ShardMap
  fits none = err codec.type_error
  fits (some m) = ok m

  -- `ParseShardMapJSON`
  unfoldable pub parse_shard_map_json : String → Outcome ShardMap
  unfolding map_of_json
  parse_shard_map_json b =
      if text_eq b ""
      then err (new_error "empty shard map")
      else and_then (codec.parse b) (λ j. fits (map_of_json j))
