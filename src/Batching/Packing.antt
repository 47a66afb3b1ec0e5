-- ===== src/Batching/Packing.antt =====
-- The batches that are formed: they are the pending requests in order of priority, cut into pieces
-- within the limits.
use dynamo_serve.Base.{
  ℕ, ◌+◌, ◌≤◌, ◌<◌, ◌≡◌, refl, sym, ◌∙◌, ap, subst, ◌⊎◌, inl, inr, ◌||◌, List, [], ◌∷◌, ◌++◌,
  length, length-append, arith, true, false, All, All-map_of, Bool-cases, leb, ltb, sort, sort-perm,
  IsStrictOrder, sort-IsSorted, IsSorted,
}
use mathlib.Core.List.{Perm}
use dynamo_serve.Float.{Float, FloatLaws, le_of_not_lt, lt_asymm, not-lt_trans}
use dynamo_serve.Models.Request.{
  Request, SlaClass, realtime, interactive, batch, BatchJob, batch_size, total_prompt_tokens,
  total_output_tokens, sum_of,
}
use dynamo_serve.Batching.{
  Optimizer, sla_priority, request_tokens, make_job, close, pack, goes_first, plan, form_batches,
}

-- The place of a class in the docstring of `form_batches`.
abbrev pub class_rank : SlaClass → ℕ
class_rank realtime = 0
class_rank interactive = 1
class_rank batch = 2

module _ {F : Type 0} where
  -- The requests of the batches, in order.
  abbrev pub all_requests : List (BatchJob F) → List (Request F)
  all_requests [] = []
  all_requests (b ∷ bs) = b.requests ++ all_requests bs

  append_assoc : (xs ys zs : List (Request F)) → (xs ++ ys) ++ zs ≡ xs ++ (ys ++ zs)
  append_assoc [] ys zs = refl
  append_assoc (x ∷ xs) ys zs = ap (◌∷◌ x) (append_assoc xs ys zs)

  all_requests-close :
      (current : List (Request F)) (batches : List (BatchJob F))
      → all_requests (close current batches) ≡ current ++ all_requests batches
  unfolding close make_job
  all_requests-close [] batches = refl
  all_requests-close (r ∷ rs) batches = refl

  all_requests-pack :
      (max_size max_tokens : ℕ) (rs current : List (Request F)) (tokens : ℕ)
      → all_requests (pack max_size max_tokens rs current tokens) ≡ current ++ rs
  unfolding pack
  all_requests-pack max_size max_tokens [] current tokens = all_requests-close current []
  all_requests-pack max_size max_tokens (r ∷ rs) current tokens =
      elim (Bool-cases
        (leb max_size (length current) || ltb max_tokens (tokens + request_tokens r))) [
          | inl full ↦
              rw (pack, full)
                (all_requests-close current _
                  ∙ ap (◌++◌ current)
                      (all_requests-pack max_size max_tokens rs (r ∷ []) (request_tokens r)))
          | inr room ↦
              rw (pack, room)
                (all_requests-pack max_size max_tokens rs (current ++ r ∷ [])
                    (tokens + request_tokens r)
                  ∙ append_assoc current (r ∷ []) rs)
        ]

  abbrev tokens_of : List (Request F) → ℕ
  tokens_of rs = sum_of (λ r. r.prompt_tokens) rs + sum_of (λ r. r.max_output_tokens) rs

  sum_of-append :
      (f : Request F → ℕ) (xs ys : List (Request F))
      → sum_of f (xs ++ ys) ≡ sum_of f xs + sum_of f ys
  unfolding sum_of
  sum_of-append f [] ys = omega arith
  sum_of-append f (x ∷ xs) ys = omega (arith, sum_of-append f xs ys)

  -- The requests are not none, and within both limits, or a single one, which may be larger.
  abbrev IsWithin : ℕ → ℕ → List (Request F) → Type 0
  IsWithin max_size max_tokens rs =
      (0 < length rs) × ((length rs ≤ max_size) × (tokens_of rs ≤ max_tokens) ⊎ (length rs ≡ 1))

  -- A batch is within the limits of the optimizer.
  abbrev pub IsWithinLimits : ℕ → ℕ → BatchJob F → Type 0
  IsWithinLimits max_size max_tokens b =
      (0 < batch_size b)
      × ((batch_size b ≤ max_size) × (total_prompt_tokens b + total_output_tokens b ≤ max_tokens)
          ⊎ (batch_size b ≡ 1))

  close-IsWithinLimits :
      (max_size max_tokens : ℕ) (current : List (Request F)) (batches : List (BatchJob F))
      → (current ≡ []) ⊎ IsWithin max_size max_tokens current
      → All (IsWithinLimits max_size max_tokens) batches
      → All (IsWithinLimits max_size max_tokens) (close current batches)
  unfolding close make_job batch_size total_prompt_tokens total_output_tokens
  close-IsWithinLimits max_size max_tokens [] batches w h = h
  close-IsWithinLimits max_size max_tokens (r ∷ rs) batches (inl e) h = cc
  close-IsWithinLimits max_size max_tokens (r ∷ rs) batches (inr w) h = (w, h)

  joined-IsWithin :
      (max_size max_tokens : ℕ) (current : List (Request F)) (r : Request F)
      → length current < max_size
      → tokens_of current + request_tokens r ≤ max_tokens
      → IsWithin max_size max_tokens (current ++ r ∷ [])
  unfolding sum_of
  joined-IsWithin max_size max_tokens current r size tokens =
      let total = length-append {0} current (r ∷ []) in
      let p = sum_of-append (λ r. r.prompt_tokens) current (r ∷ []) in
      let o = sum_of-append (λ r. r.max_output_tokens) current (r ∷ []) in
      (omega arith, inl (omega arith, omega arith))

  pack-IsWithinLimits :
      (max_size max_tokens : ℕ) (rs current : List (Request F)) (tokens : ℕ)
      → tokens ≡ tokens_of current
      → (current ≡ []) ⊎ IsWithin max_size max_tokens current
      → All (IsWithinLimits max_size max_tokens) (pack max_size max_tokens rs current tokens)
  unfolding pack sum_of
  pack-IsWithinLimits max_size max_tokens [] current tokens t w =
      close-IsWithinLimits max_size max_tokens current [] w tt
  pack-IsWithinLimits max_size max_tokens (r ∷ rs) current tokens t w =
      elim (Bool-cases
        (leb max_size (length current) || ltb max_tokens (tokens + request_tokens r))) [
          | inl full ↦
              rw (pack, full)
                (close-IsWithinLimits max_size max_tokens current _ w (
                  pack-IsWithinLimits max_size max_tokens rs (r ∷ []) (request_tokens r)
                    (omega arith) (inr (omega arith, inr refl))))
          | inr room ↦
              rw (pack, room)
                (pack-IsWithinLimits max_size max_tokens rs (current ++ r ∷ [])
                  (tokens + request_tokens r)
                  (let p = sum_of-append (λ r. r.prompt_tokens) current (r ∷ []) in
                    let o = sum_of-append (λ r. r.max_output_tokens) current (r ∷ []) in
                    omega arith)
                  (inr
                    (joined-IsWithin max_size max_tokens current r (ground arith) (ground arith))))
        ]

module _ {F : Type 0} ⦃fl : Float F⦄ where
  batches_of :
      (pending : List (Request F)) (o : Optimizer F)
      → (form_batches pending o).batches
        ≡ pack o.max_size o.max_tokens (sort goes_first pending) [] 0
  unfolding form_batches plan pack close sort
  batches_of [] o = refl
  batches_of (r ∷ rs) o = plan-batches _
    where
      plan-batches : (bs : List (BatchJob F)) → (plan bs o).batches ≡ bs
      plan-batches [] = refl
      plan-batches (b ∷ bs) = refl

  -- An earlier class, or the same class and no later arrival.
  abbrev pub GoesNoLater : Request F → Request F → Type 0
  GoesNoLater a b =
      (class_rank a.sla_class < class_rank b.sla_class)
      ⊎ ((a.sla_class ≡ b.sla_class) × (fl.le a.arrival_time b.arrival_time ≡ true))

  abbrev pub IsDelivered : List (Request F) → Type 0
  IsDelivered [] = Unit
  IsDelivered (r ∷ rs) = All (GoesNoLater r) rs × IsDelivered rs

  goes_first-GoesNoLater :
      FloatLaws F → (a b : Request F) → goes_first b a ≡ false → GoesNoLater a b
  unfolding goes_first sla_priority
  goes_first-GoesNoLater laws a b h = by_class a.sla_class b.sla_class refl refl
    where
      no_later : (c d : SlaClass) → a.sla_class ≡ c → b.sla_class ≡ d → c ≡ d → GoesNoLater a b
      no_later c d e f same =
          let equal : a.sla_class ≡ b.sla_class = e ∙ same ∙ sym f in
          inr (equal, le_of_not_lt laws b.arrival_time a.arrival_time (ground (arith, equal, h)))

      by_class : (c d : SlaClass) → a.sla_class ≡ c → b.sla_class ≡ d → GoesNoLater a b
      by_class realtime realtime e f = no_later _ _ e f refl
      by_class interactive interactive e f = no_later _ _ e f refl
      by_class batch batch e f = no_later _ _ e f refl
      by_class realtime interactive e f = inl (rw (e, f) (omega arith))
      by_class realtime batch e f = inl (rw (e, f) (omega arith))
      by_class interactive batch e f = inl (rw (e, f) (omega arith))
      by_class interactive realtime e f = absurd (ground (arith, e, f, h))
      by_class batch realtime e f = absurd (ground (arith, e, f, h))
      by_class batch interactive e f = absurd (ground (arith, e, f, h))

  IsSorted-IsDelivered :
      FloatLaws F → (rs : List (Request F)) → IsSorted goes_first rs → IsDelivered rs
  IsSorted-IsDelivered laws [] h = tt
  IsSorted-IsDelivered laws (r ∷ rs) h =
      (All-map_of _ _ rs (goes_first-GoesNoLater laws r) h.0, IsSorted-IsDelivered laws rs h.1)

  goes_first-IsStrictOrder : FloatLaws F → IsStrictOrder (goes_first {F = F})
  unfolding goes_first
  goes_first-IsStrictOrder laws = record {
    asymm = λ a b h. ground (arith, lt_asymm laws a.arrival_time b.arrival_time);
    not_trans =
        λ a b c h k. ground (arith, not-lt_trans laws a.arrival_time b.arrival_time c.arrival_time);
  }

  -- `form_batches` loses no pending request and takes none twice: the batches one after the other are
  -- a rearrangement of the pending requests, in which no request must go before an earlier one.
  pub form_batches-Perm :
      (laws : FloatLaws F) (pending : List (Request F)) (o : Optimizer F)
      → Perm (all_requests (form_batches pending o).batches) pending
        × IsSorted goes_first (all_requests (form_batches pending o).batches)
  form_batches-Perm laws pending o =
      let e =
        ap all_requests (batches_of pending o)
        ∙ all_requests-pack o.max_size o.max_tokens (sort goes_first pending) [] 0 in
      (
        subst (λ rs. Perm rs pending) (sym e) (sort-perm goes_first pending),
        subst (IsSorted goes_first) (sym e)
            (sort-IsSorted goes_first (goes_first-IsStrictOrder laws) pending),
      )

  -- No batch is empty, and each is within the limits on requests and on tokens, unless it is a single
  -- request.
  pub form_batches-IsWithinLimits :
      (pending : List (Request F)) (o : Optimizer F)
      → All (IsWithinLimits o.max_size o.max_tokens) (form_batches pending o).batches
  unfolding sum_of
  form_batches-IsWithinLimits pending o =
      subst (All (IsWithinLimits o.max_size o.max_tokens)) (sym (batches_of pending o))
        (pack-IsWithinLimits o.max_size o.max_tokens (sort goes_first pending) [] 0 refl (inl refl))

  -- Under the laws of comparison, `form_batches` loses no pending request and takes none twice: the
  -- batches one after the other are a rearrangement of the pending requests, in which REALTIME
  -- requests stand before INTERACTIVE and these before BATCH, and the requests of one class in the
  -- order of arrival. No batch is empty, and each is within the limits on requests and on tokens,
  -- unless it is a single request.
  pub form_batches_lem :
      (laws : FloatLaws F) (pending : List (Request F)) (o : Optimizer F)
      → Perm (all_requests (form_batches pending o).batches) pending
        × IsDelivered (all_requests (form_batches pending o).batches)
        × All (IsWithinLimits o.max_size o.max_tokens) (form_batches pending o).batches
  form_batches_lem laws pending o =
      let (whole, sorted) = form_batches-Perm laws pending o in
      (whole, IsSorted-IsDelivered laws _ sorted, form_batches-IsWithinLimits pending o)
