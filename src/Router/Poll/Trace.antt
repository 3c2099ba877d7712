-- ===== src/Router/Poll/Trace.antt =====
-- What the loop leaves behind, by what its ticks read.
use llm_inference_operator.Base.{
  Bool-cases, inl, inr, text_eq, ℕ, zero, suc, ◌+◌, String, List, [], ◌∷◌, Option, none, some, ◌≡◌,
  ◌≢◌, refl, ap, ◌∙◌, arith, true,
}
use llm_inference_operator.Base.Int.{ℤ, pos, ◌≤ℤ◌, ltb_ℤ}
use llm_inference_operator.Kube.{Outcome, ok, err, panic, ConfigMap}
use llm_inference_operator.Kube.Client.{Client}
use llm_inference_operator.Json.{Codec}
use llm_inference_operator.ShardMap.{ShardMap, fits, map_of_json, parse_shard_map_json}
use llm_inference_operator.Controller.Reconcile.Calm.{and_then-ne_panic}
use llm_inference_operator.Router.Poll.{
  Polled, raw_map, take_map, poll_tick, poll_loop, poll_shard_map,
}

-- The maps and failures that a list of fetches held: the last map, if any, and the failures.
abbrev pub latest : Option ShardMap → List (Option ShardMap) → Option ShardMap
latest old [] = old
latest old (none ∷ rest) = latest old rest
latest old (some m ∷ rest) = latest (some m) rest

abbrev pub failures : List (Option ShardMap) → ℕ
failures [] = 0
failures (none ∷ rest) = failures rest + 1
failures (some m ∷ rest) = failures rest

-- One fetch: the map if the config map is there and parses.
abbrev usable : Outcome ShardMap → Option ShardMap
usable (ok m) = some m
usable _ = none

fits-ne_panic : (codec : Codec) (o : Option ShardMap) → fits codec o ≢ panic
fits-ne_panic codec none e = cc
fits-ne_panic codec (some m) e = cc

parse_shard_map_json-ne_panic :
    (codec : Codec)
    → ((t : String) → codec.parse t ≢ panic)
    → (t : String) → parse_shard_map_json codec t ≢ panic
unfolding parse_shard_map_json
parse_shard_map_json-ne_panic codec calm t = elim (Bool-cases (text_eq t "")) [
  | inl e ↦ rw e (λ q. cc)
  | inr e ↦
      rw e (and_then-ne_panic (codec.parse t) _ (calm t) (λ j. fits-ne_panic codec (map_of_json j)))
]

module _ (codec : Codec) where
  abbrev pub fetched : Outcome ConfigMap → Option ShardMap
  fetched (ok cm) = usable (parse_shard_map_json codec (raw_map cm))
  fetched _ = none

module _ (api : Client) (codec : Codec) (namespace name : String) where
  -- The fetches of k ticks from a state of the client, independently of what is done with them.
  abbrev pub fetches : ℕ → api.State → List (Option ShardMap)
  fetches zero s = []
  fetches (suc k) s =
      fetched codec (api.get_config_map namespace name s).0
      ∷ fetches k (api.get_config_map namespace name s).1

module _ (api : Client) (codec : Codec) (namespace name : String)
    (calm : (s : api.State) → (api.get_config_map namespace name s).0 ≢ panic)
    (calm_parse : (t : String) → codec.parse t ≢ panic) where
  abbrev after : Polled → Option ShardMap → Polled
  after p none = record p { errors = p.errors + 1 }
  after p (some m) = record p { target = some m }

  take_map-lem :
      (p : Polled) (cm : ConfigMap) (s : api.State)
      → take_map api codec namespace name p cm s ≡ (ok (after p (fetched codec (ok cm))), s)
  unfolding take_map
  take_map-lem p cm s = go (parse_shard_map_json codec (raw_map cm)) refl
    where
      go :
          (r : Outcome ShardMap)
          → parse_shard_map_json codec (raw_map cm) ≡ r
          → take_map api codec namespace name p cm s ≡ (ok (after p (fetched codec (ok cm))), s)
      go (ok m) e = rw e refl
      go (err x) e = rw e refl
      go panic e = absurd (parse_shard_map_json-ne_panic codec calm_parse (raw_map cm) e)

  poll_tick-lem :
      (p : Polled) (s : api.State)
      → poll_tick api codec namespace name p s ≡ (
        ok (after p (fetched codec (api.get_config_map namespace name s).0)),
        (api.get_config_map namespace name s).1,
      )
  unfolding poll_tick
  poll_tick-lem p s = go (api.get_config_map namespace name s) refl
    where
      go :
          (r : Outcome ConfigMap × api.State)
          → api.get_config_map namespace name s ≡ r
          → poll_tick api codec namespace name p s ≡ (ok (after p (fetched codec r.0)), r.1)
      go (ok cm, t) e = rw e (take_map-lem p cm t)
      go (err x, t) e = rw e refl
      go (panic, t) e = absurd (calm s (ap (λ r. r.0) e))

  after-lem :
      (p : Polled) (o : Option ShardMap) (rest : List (Option ShardMap))
      → (let q : Polled = record {
        target = latest (after p o).target rest;
        errors = (after p o).errors + failures rest;
      } in
          q)
        ≡ record { target = latest p.target (o ∷ rest); errors = p.errors + failures (o ∷ rest) }
  after-lem p none rest =
      ap (λ n. let q : Polled = record { target = latest p.target rest; errors = n } in q)
        (omega arith)
  after-lem p (some m) rest = refl

  poll_loop_trace :
      (k : ℕ) (p : Polled) (s : api.State)
      → (poll_loop api codec namespace name k p s).0
        ≡ ok (record {
          target = latest p.target (fetches api codec namespace name k s);
          errors = p.errors + failures (fetches api codec namespace name k s);
        })
  unfolding poll_loop
  poll_loop_trace zero p s =
      ap (λ n. let q : Polled = record { target = p.target; errors = n } in ok q) (omega arith)
  poll_loop_trace (suc k) p s = rw (poll_tick-lem p s) (
      poll_loop_trace k (after p (fetched codec (api.get_config_map namespace name s).0))
        (api.get_config_map namespace name s).1
      ∙ ap ok (
          after-lem p (fetched codec (api.get_config_map namespace name s).0)
            (fetches api codec namespace name k (api.get_config_map namespace name s).1)))

  -- Where the interval is positive, and reading the config map and parsing do not panic, the loop
  -- returns after every number of ticks. The router then holds the map of the last fetch that gave one,
  -- or the map it had before where none did, and the counter has grown by exactly the number of failed
  -- fetches.
  pub poll_shard_map_trace :
      (interval : ℤ) (k : ℕ) (p : Polled) (s : api.State)
      → pos 1 ≤ℤ interval
      → (poll_shard_map api codec namespace name interval k p s).0
        ≡ ok (record {
          target = latest p.target (fetches api codec namespace name k s);
          errors = p.errors + failures (fetches api codec namespace name k s);
        })
  unfolding poll_shard_map
  poll_shard_map_trace interval k p s positive =
      let ticks : ltb_ℤ (pos 0) interval ≡ true = ground arith in rw ticks (poll_loop_trace k p s)
