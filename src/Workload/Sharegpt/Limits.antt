-- ===== src/Workload/Sharegpt/Limits.antt =====
-- The requests that simulator/workload_replay/sharegpt_loader.py makes keep to its limits.
use dynamo_serve.Base.{
  ℕ, zero, suc, ◌+◌, ◌≤◌, ◌≡◌, refl, ap, Bool, true, false, ◌&&◌, if◌then◌else◌, leb, String, List,
  [], ◌∷◌, ◌++◌, length, length-take, Option, none, All, All-append, All-take, arith, Bool-cases,
  inl, inr,
}
use dynamo_serve.Float.{Float}
use dynamo_serve.Models.Request.{Request, SlaClass}
use dynamo_serve.Workload.{class_priority}
use dynamo_serve.Workload.Sharegpt.{
  Turn, Conversation, Exchange, max_prompt_tokens, max_output_tokens, is_human, is_gpt,
  word_count_to_tokens, exchanges, collect, synthetic_pairs, extract_pairs, to_request, load_from,
  load,
}

-- An exchange has tokens on both sides.
abbrev pub IsSpoken : Exchange → Type 0
IsSpoken e = (1 ≤ e.prompt) × (1 ≤ e.output)

one-le-tokens : (words : ℕ) → 1 ≤ word_count_to_tokens words
unfolding word_count_to_tokens
one-le-tokens words = omega arith

module _ (turn_hash : String → ℕ → String) where
  exchanges-IsSpoken :
      (multi_turn : Bool) (id : String) (i context : ℕ) (prefix : Option String) (ts : List Turn)
      → All IsSpoken (exchanges turn_hash multi_turn id i context prefix ts)
  unfolding exchanges
  exchanges-IsSpoken multi_turn id i context prefix [] = tt
  exchanges-IsSpoken multi_turn id i context prefix (h ∷ []) = tt
  exchanges-IsSpoken multi_turn id i context prefix (h ∷ g ∷ rest) =
      either (is_human h.speaker && is_gpt g.speaker) multi_turn _ _ _
        (omega (arith, one-le-tokens h.words), one-le-tokens g.words)
        (exchanges-IsSpoken multi_turn id (i + 2) _ _ rest)
        (exchanges-IsSpoken multi_turn id (i + 2) context prefix rest)
    where
      either :
          (spoken more : Bool) (e : Exchange) (later skipped : List Exchange)
          → IsSpoken e
          → All IsSpoken later
          → All IsSpoken skipped
          → All IsSpoken (if spoken then e ∷ (if more then later else []) else skipped)
      either true true e later skipped p q r = (p, q)
      either true false e later skipped p q r = (p, tt)
      either false more e later skipped p q r = r

  collect-IsSpoken :
      (multi_turn : Bool) (n : ℕ) (pairs : List Exchange) (cs : List Conversation)
      → All IsSpoken pairs
      → All IsSpoken (collect turn_hash multi_turn n pairs cs)
  unfolding collect
  collect-IsSpoken multi_turn n pairs [] h = h
  collect-IsSpoken multi_turn n pairs (c ∷ cs) h =
      let pairs' = pairs ++ exchanges turn_hash multi_turn c.id 0 0 none c.turns in
      let h' =
        All-append IsSpoken pairs _ h (exchanges-IsSpoken multi_turn c.id 0 0 none c.turns) in
      elim (Bool-cases (leb n (length pairs'))) [
        | inl e ↦ rw (collect, e) h'
        | inr e ↦ rw (collect, e) (collect-IsSpoken multi_turn n pairs' cs h')
      ]

  module _ (prompts outputs : ℕ → ℕ) where
    synthetic_pairs-IsSpoken : (k n : ℕ) → All IsSpoken (synthetic_pairs prompts outputs k n)
    unfolding synthetic_pairs
    synthetic_pairs-IsSpoken k zero = tt
    synthetic_pairs-IsSpoken k (suc n) =
        ((omega arith, omega arith), synthetic_pairs-IsSpoken (suc k) n)

    length-synthetic_pairs : (k n : ℕ) → length (synthetic_pairs prompts outputs k n) ≡ n
    unfolding synthetic_pairs
    length-synthetic_pairs k zero = refl
    length-synthetic_pairs k (suc n) = ap suc (length-synthetic_pairs (suc k) n)

    extract_pairs-IsSpoken :
        (cs : List Conversation) (n : ℕ) (multi_turn : Bool)
        → All IsSpoken (extract_pairs turn_hash prompts outputs cs n multi_turn)
    unfolding extract_pairs
    extract_pairs-IsSpoken [] n multi_turn = synthetic_pairs-IsSpoken 0 n
    extract_pairs-IsSpoken (c ∷ cs) n multi_turn =
        All-take IsSpoken n _ (collect-IsSpoken multi_turn n [] (c ∷ cs) tt)

    length-extract_pairs-le :
        (cs : List Conversation) (n : ℕ) (multi_turn : Bool)
        → length (extract_pairs turn_hash prompts outputs cs n multi_turn) ≤ n
    unfolding extract_pairs
    length-extract_pairs-le [] n multi_turn = omega (arith, length-synthetic_pairs 0 n)
    length-extract_pairs-le (c ∷ cs) n multi_turn =
        omega (arith, length-take {0} n (collect turn_hash multi_turn n [] (c ∷ cs)))

module _ {F : Type 0} ⦃fl : Float F⦄ (interarrival : ℕ → F) (class_roll : ℕ → F)
    (tenant fresh_id : ℕ → String) (weights : List (SlaClass × F)) where
  -- What holds of each request of a trace.
  pub record IsWithin (r : Request F) : Type 0 where
    pub prompt : (1 ≤ r.prompt_tokens) × (r.prompt_tokens ≤ max_prompt_tokens)
    pub output : (1 ≤ r.max_output_tokens) × (r.max_output_tokens ≤ max_output_tokens)
    pub priority : r.priority ≡ class_priority r.sla_class

  load_from-IsWithin :
      (n : ℕ) (t : F) (k : ℕ) (es : List Exchange)
      → All IsSpoken es
      → let rs = load_from interarrival class_roll tenant fresh_id weights n t k es in
        All IsWithin rs × (length rs ≤ length es)
  unfolding load_from to_request
  load_from-IsWithin n t k [] h = (tt, omega arith)
  load_from-IsWithin n t k (e ∷ es) h =
      let (all, few) = load_from-IsWithin n (fl.add t (interarrival k)) (suc k) es h.1 in
      let mine : IsWithin (
          to_request interarrival class_roll tenant fresh_id weights (fl.add t (interarrival k)) k
            e) =
        record { prompt = omega (arith, h.0); output = omega (arith, h.0); priority = refl } in
      elim (Bool-cases (leb n (suc k))) [
        | inl stop ↦ rw (load_from, stop) ((mine, tt), omega arith)
        | inr more ↦ rw (load_from, more) ((mine, all), omega (arith, few))
      ]

  -- `load(n)` makes at most `n` requests, whatever the conversations: each has a prompt of 1 to 32,768
  -- tokens, an output of 1 to 4,096, and the priority of its class.
  pub load-IsWithin :
      (turn_hash : String → ℕ → String) (prompts outputs : ℕ → ℕ) (drawn : List Conversation)
      (n : ℕ) (multi_turn : Bool)
      → let rs =
          load interarrival class_roll tenant fresh_id weights turn_hash prompts outputs drawn n
            multi_turn in
        All IsWithin rs × (length rs ≤ n)
  unfolding load
  load-IsWithin turn_hash prompts outputs drawn n multi_turn =
      let (all, few) =
        load_from-IsWithin n (fl.of_nat 0) 0 _
          (extract_pairs-IsSpoken turn_hash prompts outputs drawn n multi_turn) in
      (
        all,
        omega (arith, few, length-extract_pairs-le turn_hash prompts outputs drawn n multi_turn),
      )
