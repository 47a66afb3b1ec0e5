-- ===== src/Replay/Counts.antt =====
-- What the counters of a replay add up to.
use dynamo_serve.Base.{
  ℕ, zero, suc, ◌+◌, ◌-◌, ◌≤◌, ◌≡◌, refl, sym, ◌∙◌, subst, Bool, true, false, String, List, [], ◌∷◌,
  ◌++◌, length, take, Option, arith, inl, inr, Option-cases, select,
}
use dynamo_serve.Float.{Float}
use dynamo_serve.Models.Block.{Block}
use dynamo_serve.Models.Request.{Request, kv_blocks_needed}
use dynamo_serve.Cache.Policy.{Policy, pick_victim}
use dynamo_serve.Cache.Manager.{given_hash}
use dynamo_serve.Cache.Eviction.{is_candidate, is_idle}
use dynamo_serve.Replay.{
  CacheSimResult, Simulation, count_lookup, cached_of, pool_where, access_all, evict, evict_until,
  fill, keep_prefix, place_blocks, step, run_all, run,
}

-- From `r` to `r'`, `n` requests were looked up, and at most `n` of them spilled.
record IsTallied (n : ℕ) (r r' : CacheSimResult) : Type 0 where
  lookups : r'.hits + r'.misses ≡ r.hits + r.misses + n
  spills_low : r.spills ≤ r'.spills
  spills_high : r'.spills ≤ r.spills + n
  requests : r'.total_requests ≡ r.total_requests

module _ {F : Type 0} ⦃fl : Float F⦄ (monotonic : ℕ → F) where
  access_all_result :
      (is : List ℕ) (s : Simulation F) → (access_all monotonic is s).result ≡ s.result
  unfolding access_all
  access_all_result [] s = refl
  access_all_result (i ∷ is) s = access_all_result is _

  fill_result :
      (prefix : Option String) (is : List ℕ) (s : Simulation F)
      → (fill monotonic prefix is s).result ≡ s.result
  unfolding fill
  fill_result prefix [] s = refl
  fill_result prefix (i ∷ is) s = fill_result prefix is _

  keep_prefix_result :
      (prefix : Option String) (new : List ℕ) (s : Simulation F)
      → (keep_prefix monotonic prefix new s).result ≡ s.result
  unfolding keep_prefix
  keep_prefix_result prefix new s = elim (Option-cases (given_hash prefix)) [
    | inl e ↦ rw (keep_prefix, e) refl
    | inr (h, e) ↦ rw (keep_prefix, e) refl
  ]

  -- The loop of evictions counts one spill, if it must give up.
  record Spills (r r' : CacheSimResult) : Type 0 where
    lookups : r'.hits + r'.misses ≡ r.hits + r.misses
    low : r.spills ≤ r'.spills
    high : r'.spills ≤ r.spills + 1
    requests : r'.total_requests ≡ r.total_requests

  evict-Spills :
      (s : Simulation F) (b : Block F) (r : CacheSimResult)
      → Spills (evict monotonic b s).result r
      → Spills s.result r
  unfolding evict
  evict-Spills s b r c = record {
    lookups = c.lookups;
    low = c.low;
    high = c.high;
    requests = c.requests;
  }

  evict_until-Spills :
      (missing : ℕ) (free : List ℕ) (s : Simulation F)
      → Spills s.result (evict_until monotonic missing free s).0.result
  unfolding evict_until
  evict_until-Spills zero free s = record {
    lookups = refl;
    low = omega arith;
    high = omega arith;
    requests = refl;
  }
  evict_until-Spills (suc missing) free s =
      elim (Option-cases (pick_victim s.policy (select is_candidate s.block_pool))) [
        | inl e ↦
            rw (evict_until, e)
              (record { lookups = refl; low = omega arith; high = omega arith; requests = refl })
        | inr (b, e) ↦
            rw (evict_until, e)
              (evict-Spills s b _
                (evict_until-Spills missing (free ++ b.block_id ∷ []) (evict monotonic b s)))
      ]

  place_blocks-Spills :
      (prefix : Option String) (n_needed : ℕ) (s : Simulation F)
      → Spills s.result (place_blocks monotonic prefix n_needed s).result
  unfolding place_blocks
  place_blocks-Spills prefix n_needed s =
      let free = pool_where is_idle 0 s.block_pool in
      let (s', free') = evict_until monotonic (n_needed - length free) free s in
      let new = take n_needed free' in
      subst (Spills s.result)
        (sym (
          keep_prefix_result prefix new (fill monotonic prefix new s') ∙ fill_result prefix new s'))
        (evict_until-Spills (n_needed - length free) free s)

  count_lookup-IsTallied :
      (hit : Bool) (r r' : CacheSimResult) → Spills (count_lookup hit r) r' → IsTallied 1 r r'
  unfolding count_lookup
  count_lookup-IsTallied true r r' c = record {
    lookups = omega (arith, c.lookups);
    spills_low = c.low;
    spills_high = c.high;
    requests = c.requests;
  }
  count_lookup-IsTallied false r r' c = record {
    lookups = omega (arith, c.lookups);
    spills_low = c.low;
    spills_high = c.high;
    requests = c.requests;
  }

  step-IsTallied :
      (request : Request F) (s : Simulation F)
      → IsTallied 1 s.result (step monotonic request s).result
  unfolding step
  step-IsTallied request s = elim (Option-cases (cached_of request.prefix_hash s.used_blocks)) [
    | inl e ↦
        let counted = record s { result = count_lookup false s.result } in
        rw (step, e)
          (count_lookup-IsTallied false s.result _
            (place_blocks-Spills request.prefix_hash (kv_blocks_needed request) counted))
    | inr (cached, e) ↦
        let accessed = access_all monotonic cached s in
        let counted = record accessed { result = count_lookup true accessed.result } in
        let n_needed = kv_blocks_needed request - length cached in
        rw (step, e)
          (subst
            (λ r.
              IsTallied 1 r (place_blocks monotonic request.prefix_hash n_needed counted).result)
            (access_all_result cached s)
            (count_lookup-IsTallied true accessed.result _
              (place_blocks-Spills request.prefix_hash n_needed counted)))
  ]

  run_all-IsTallied :
      (rs : List (Request F)) (s : Simulation F)
      → IsTallied (length rs) s.result (run_all monotonic rs s).result
  unfolding run_all
  run_all-IsTallied [] s = record {
    lookups = omega arith;
    spills_low = omega arith;
    spills_high = omega arith;
    requests = refl;
  }
  run_all-IsTallied (r ∷ rs) s =
      let one = step-IsTallied r s in
      let rest = run_all-IsTallied rs (step monotonic r s) in
      record {
        lookups = omega (arith, one.lookups, rest.lookups);
        spills_low = omega (arith, one.spills_low, rest.spills_low);
        spills_high = omega (arith, one.spills_high, rest.spills_high);
        requests = rest.requests ∙ one.requests;
      }

  -- A replay counts every request of the trace once, as a hit or as a miss, and no request more than
  -- once as a spill, so that the hit rate and the spill rate are shares of the requests.
  pub run_lem :
      (total_blocks block_size : ℕ) (requests : List (Request F)) (policy : Policy F)
      (policy_name : String)
      → let r = run monotonic total_blocks block_size requests policy policy_name in
        (r.total_requests ≡ length requests)
        × (r.hits + r.misses ≡ r.total_requests)
        × (r.spills ≤ r.total_requests)
  unfolding run
  run_lem total_blocks block_size requests policy policy_name =
      let t = run_all-IsTallied requests _ in
      (t.requests, omega (arith, t.lookups, t.requests), omega (arith, t.spills_high, t.requests))
