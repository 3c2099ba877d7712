-- ===== src/ShardMap/RoundTrip.antt =====
-- The operator's document through the router's parser.
use llm_inference_operator.Base.{
  String, List, [], ◌∷◌, some, ◌≡◌, refl, arith, All, map, text_eq_iff,
}
use llm_inference_operator.Base.Int.{IsInt32, ◌≤ℤ◌}
use llm_inference_operator.Kube.{ok}
use llm_inference_operator.Json.{arr, Codec, IsCodec}
use llm_inference_operator.ShardMap.{
  ShardMap, parse_shard_map_json, map_of_json, read_elements, read_element, shards_field,
  zero_shard, min_int64, max_int64,
}
use llm_inference_operator.ShardMap.Doc.{
  ShardMapEntry, ShardMapDoc, json_of_entry, json_of_entries, json_of_doc, assignment_of,
}

read_element-json_of_entry :
    (e : ShardMapEntry)
    → IsInt32 e.shard_id
    → read_element (json_of_entry e) zero_shard ≡ some (assignment_of e)
unfolding read_element json_of_entry
read_element-json_of_entry e h = ground (arith, text_eq_iff e.owner_pod "")

read_elements-json_of_entries :
    (es : List ShardMapEntry)
    → All (λ e. IsInt32 e.shard_id) es
    → read_elements (json_of_entries es) [] ≡ some (map assignment_of es, [])
unfolding read_elements json_of_entries
read_elements-json_of_entries [] h = refl
read_elements-json_of_entries (e ∷ es) h =
    rw (read_element-json_of_entry e h.0, read_elements-json_of_entries es h.1) refl

shards_field-json_of_entries :
    (es : List ShardMapEntry)
    → All (λ e. IsInt32 e.shard_id) es
    → shards_field (arr (json_of_entries es)) ([], []) ≡ some (map assignment_of es, [])
unfolding shards_field json_of_entries
shards_field-json_of_entries [] h = refl
shards_field-json_of_entries (e ∷ es) h = read_elements-json_of_entries (e ∷ es) h

-- The router's view of a document.
abbrev pub map_of_doc : ShardMapDoc → ShardMap
map_of_doc d = record { version = d.version; shards = map assignment_of d.shards }

map_of_json-json_of_doc :
    (d : ShardMapDoc)
    → min_int64 ≤ℤ d.version
    → d.version ≤ℤ max_int64
    → All (λ e. IsInt32 e.shard_id) d.shards
    → map_of_json (json_of_doc d) ≡ some (map_of_doc d)
unfolding map_of_json json_of_doc
map_of_json-json_of_doc d lo hi h = ground (arith, shards_field-json_of_entries d.shards h)

module _ (codec : Codec) (lawful : IsCodec codec) where
  -- Where the text level of JSON reads back what it prints, the router parses the text of every
  -- document whose version fits an `int` and whose shard IDs fit an `int32`, and gets the version and
  -- each entry's ID, role and owner back in order, an omitted owner as the empty text.
  pub parse_shard_map_json-json_of_doc :
      (d : ShardMapDoc) (t : String)
      → min_int64 ≤ℤ d.version
      → d.version ≤ℤ max_int64
      → All (λ e. IsInt32 e.shard_id) d.shards
      → codec.print (json_of_doc d) ≡ ok t
      → parse_shard_map_json codec t ≡ ok (map_of_doc d)
  unfolding parse_shard_map_json
  parse_shard_map_json-json_of_doc d t lo hi h printed = ground (
    arith,
    text_eq_iff t "",
    lawful.print-ne_empty (json_of_doc d) t printed,
    lawful.parse-print (json_of_doc d) t printed,
    map_of_json-json_of_doc d lo hi h,
  )
