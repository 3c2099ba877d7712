-- ===== src/Controller/Autoscale/Bounds.antt =====
-- The replica count: its range, its steps, and the overflow at the largest `int32`.
use llm_inference_operator.Base.{
  ◌≡◌, refl, sym, ◌∙◌, ◌⊎◌, inl, inr, arith, true, false, if◌then◌else◌, deref, Bool-cases,
}
use llm_inference_operator.Base.Int.{
  ℤ, pos, ◌+ℤ◌, ◌-ℤ◌, ◌≤ℤ◌, ltb_ℤ, IsInt32, max_int32, wrap32, wrap32_of_IsInt32,
}
use llm_inference_operator.Cluster.{ClusterSpec}
use llm_inference_operator.Signals.{Floats}
use llm_inference_operator.Controller.Autoscale.{Limits, at_least, at_most, limits, step, desired}

clamp_bounds :
    (lo hi x : ℤ)
    → (at_most hi (at_least lo x) ≤ℤ hi) × (lo ≤ℤ hi → lo ≤ℤ at_most hi (at_least lo x))
unfolding at_least at_most
clamp_bounds lo hi x = (ground arith, λ h. ground arith)

clamp_of_between : (lo hi x : ℤ) → lo ≤ℤ x → x ≤ℤ hi → at_most hi (at_least lo x) ≡ x
unfolding at_least at_most
clamp_of_between lo hi x h k = ground arith

-- The limits of a spec: the maximum is at least 1, `current` is at most the maximum, and it is
-- at least the minimum unless the minimum exceeds the maximum.
pub record IsOrdered (l : Limits) : Type 0 where
  pub max_pos : pos 1 ≤ℤ l.max
  pub current_le_max : l.current ≤ℤ l.max
  pub min_le_current : l.min ≤ℤ l.max → l.min ≤ℤ l.current

limits_clamp :
    (s : ClusterSpec)
    → ((limits s).current ≤ℤ (limits s).max)
      × ((limits s).min ≤ℤ (limits s).max → (limits s).min ≤ℤ (limits s).current)
unfolding limits
limits_clamp s =
    clamp_bounds (limits s).min (limits s).max (deref s.runtime.decode.replicas (pos 1))

pub limits-IsOrdered : (s : ClusterSpec) → IsOrdered (limits s)
unfolding limits
limits-IsOrdered s = record {
  max_pos = ground arith;
  current_le_max = (limits_clamp s).0;
  min_le_current = (limits_clamp s).1;
}

-- A count between the limits can be raised and lowered by one without a wrap.
IsInt32-between :
    (lo hi x : ℤ)
    → pos 0 ≤ℤ lo
    → hi ≤ℤ pos 2147483646
    → lo ≤ℤ x
    → x ≤ℤ hi
    → IsInt32 (x +ℤ pos 1) × IsInt32 (x -ℤ pos 1)
unfolding ◌+ℤ◌ ◌-ℤ◌
IsInt32-between lo hi x a b c d = ground arith

raise_in_range :
    (lo hi x : ℤ) → lo ≤ℤ x → at_most hi (at_least lo (x +ℤ pos 1)) ≡ at_most hi (x +ℤ pos 1)
unfolding at_least at_most ◌+ℤ◌
raise_in_range lo hi x h = ground arith

lower_in_range :
    (lo hi x : ℤ)
    → lo ≤ℤ x
    → x ≤ℤ hi
    → at_most hi (at_least lo (x -ℤ pos 1)) ≡ at_least lo (x -ℤ pos 1)
unfolding at_least at_most ◌-ℤ◌
lower_in_range lo hi x h k = ground arith

lowest : (lo x : ℤ) → lo ≤ℤ x → ltb_ℤ lo x ≡ false → at_least lo (x -ℤ pos 1) ≡ x
unfolding at_least ◌-ℤ◌
lowest lo x h e = ground arith

module _ (F : Floats) where
  desired_lem :
      (l : Limits) (depth : F.Float)
      → desired F l depth ≡ at_most l.max (at_least l.min (step F l depth))
  unfolding desired
  desired_lem l depth = refl

  step_up :
      (l : Limits) (depth : F.Float)
      → F.lt F.hundred depth ≡ true
      → step F l depth ≡ wrap32 (l.current +ℤ pos 1)
  unfolding step
  step_up l depth e = rw e

  step_down :
      (l : Limits) (depth : F.Float)
      → F.lt F.hundred depth ≡ false
      → F.lt depth F.ten ≡ true
      → step F l depth ≡ (if ltb_ℤ l.min l.current then wrap32 (l.current -ℤ pos 1) else l.current)
  unfolding step
  step_down l depth e k = rw (e, k)

  step_same :
      (l : Limits) (depth : F.Float)
      → F.lt F.hundred depth ≡ false
      → F.lt depth F.ten ≡ false
      → step F l depth ≡ l.current
  unfolding step
  step_same l depth e k = rw (e, k)

  -- Whatever the signals say, NaN included: the replica count is at most `maxReplicas` (10 where it is left
  -- out), or 1 where that is below 1; and it is at least `minReplicas` (0 where it is left out)
  -- wherever that is at most this upper bound.
  pub desired_bounds :
      (s : ClusterSpec) (depth : F.Float) (lo hi : ℤ)
      → deref s.autoscaling.min_replicas (pos 0) ≡ lo
      → deref s.autoscaling.max_replicas (pos 10) ≡ hi
      → (desired F (limits s) depth ≤ℤ (if ltb_ℤ hi (pos 1) then pos 1 else hi))
        × (lo ≤ℤ (if ltb_ℤ hi (pos 1) then pos 1 else hi) → lo ≤ℤ desired F (limits s) depth)
  unfolding desired limits at_least
  desired_bounds s depth lo hi min_lem max_lem =
      let b = clamp_bounds (limits s).min (limits s).max (step F (limits s) depth) in
      rw (sym min_lem, sym max_lem) b

  -- Where the limits are in order, the minimum is not negative and not above the maximum, and the
  -- maximum is below the largest `int32`: a queue deeper
  -- than 100 adds one replica up to the maximum, one that is not and is below 10 takes one down to
  -- the minimum, and any other keeps the current count.
  pub desired_step :
      (l : Limits) (depth : F.Float)
      → IsOrdered l
      → l.min ≤ℤ l.max
      → pos 0 ≤ℤ l.min
      → l.max ≤ℤ pos 2147483646
      → (F.lt F.hundred depth ≡ true → desired F l depth ≡ at_most l.max (l.current +ℤ pos 1))
        × (F.lt F.hundred depth ≡ false
            → F.lt depth F.ten ≡ true
            → desired F l depth ≡ at_least l.min (l.current -ℤ pos 1))
        × (F.lt F.hundred depth ≡ false → F.lt depth F.ten ≡ false → desired F l depth ≡ l.current)
  desired_step l depth o h lo hi = (
    λ e.
        desired_lem l depth
        ∙ rw (step_up l depth e, wrap32_of_IsInt32 _ room.0)
            (raise_in_range l.min l.max l.current above),
    λ e k.
        desired_lem l depth
        ∙ rw (step_down l depth e k) (down (Bool-cases (ltb_ℤ l.min l.current))),
    λ e k.
        desired_lem l depth
        ∙ rw (step_same l depth e k)
            (clamp_of_between l.min l.max l.current above o.current_le_max),
  )
    where
      above : l.min ≤ℤ l.current
      above = o.min_le_current h

      room : IsInt32 (l.current +ℤ pos 1) × IsInt32 (l.current -ℤ pos 1)
      room = IsInt32-between l.min l.max l.current lo hi above o.current_le_max

      down :
          (ltb_ℤ l.min l.current ≡ true) ⊎ (ltb_ℤ l.min l.current ≡ false)
          → at_most l.max (
              at_least l.min
                (if ltb_ℤ l.min l.current then wrap32 (l.current -ℤ pos 1) else l.current))
            ≡ at_least l.min (l.current -ℤ pos 1)
      down (inl t) =
          rw (t, wrap32_of_IsInt32 _ room.1)
            (lower_in_range l.min l.max l.current above o.current_le_max)
      down (inr t) =
          rw (t, lowest l.min l.current above t)
            (clamp_of_between l.min l.max l.current above o.current_le_max)

  -- At the largest `int32` the increment wraps: with `maxReplicas` and the current count both
  -- 2147483647, and a minimum from 0 to that, a queue deeper than 100 drops the count to the minimum.
  pub desired_overflow :
      (l : Limits) (depth : F.Float)
      → l.max ≡ max_int32
      → l.current ≡ max_int32
      → pos 0 ≤ℤ l.min
      → l.min ≤ℤ l.max
      → F.lt F.hundred depth ≡ true
      → desired F l depth ≡ l.min
  desired_overflow l depth m c lo h e =
      desired_lem l depth ∙ rw (step_up l depth e, c) (wrapped l.min l.max lo h)
    where
      wrapped :
          (lo hi : ℤ)
          → pos 0 ≤ℤ lo
          → lo ≤ℤ hi
          → at_most hi (at_least lo (wrap32 (max_int32 +ℤ pos 1))) ≡ lo
      wrapped lo hi p q = unfold at_most at_least wrap32 ◌+ℤ◌ in ground arith
