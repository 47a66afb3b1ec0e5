-- ===== src/Admission/Accounting.antt =====
-- What `decide` does to the controller: its counters and its queue.
use dynamo_serve.Base.{
  ◌+◌, ◌≤◌, ◌≡◌, List, [], ◌∷◌, ◌++◌, length, length-append, Option, some, arith, Option-cases, inl,
  inr, leb, if◌then◌else◌,
}
use dynamo_serve.Float.{Float}
use dynamo_serve.Models.Node.{Node}
use dynamo_serve.Models.Request.{Request, kv_blocks_needed}
use dynamo_serve.Cache.Manager.{Manager}
use dynamo_serve.Sla.{SlaPolicy, Reason}
use dynamo_serve.Admission.{
  Decision, accept, queue, reject, Controller, Outcome, refuse, defer, admit, any_free,
  check_headroom, check_pressure, check_spill, decide,
}

module _ {F : Type 0} where
  -- The controller that a decision on a request leaves: one counter is one higher, and a deferred
  -- request stands at the end of the queue, unless the queue is full.
  pub settle : Decision → Request F → Controller F → Controller F
  settle accept request c = record c { total_accepted = c.total_accepted + 1 }
  settle reject request c = record c { total_rejected = c.total_rejected + 1 }
  settle queue request c =
      if leb c.max_queue (length c.pending)
      then record c { total_rejected = c.total_rejected + 1 }
      else record c { pending = c.pending ++ request ∷ []; total_queued = c.total_queued + 1 }

module _ {F : Type 0} ⦃fl : Float F⦄ (request : Request F) (nodes : List (Node F)) (m : Manager F)
    (c : Controller F) where
  -- What the result of a step says of the controller.
  abbrev Settles : Option (Outcome F) → Type 0
  Settles r =
      (c' : Controller F) (d : Decision) (why : Reason F)
      → r ≡ some (c', d, why)
      → c' ≡ settle d request c

  check_headroom-Settles : Settles (check_headroom request nodes m c)
  unfolding check_headroom refuse defer admit settle
  check_headroom-Settles c' d why e =
      elim (Option-cases (any_free (kv_blocks_needed request) m nodes)) [
        | inl gone ↦ ground arith
        | inr (b, found) ↦ ground arith
      ]

  check_pressure-Settles : Settles (check_pressure request nodes m c)
  unfolding check_pressure refuse defer settle
  check_pressure-Settles c' d why e = ground (arith, check_headroom-Settles c' d why)

  check_spill-Settles : Settles (check_spill request nodes m c)
  unfolding check_spill refuse defer settle
  check_spill-Settles c' d why e = ground (arith, check_pressure-Settles c' d why)

  -- Whatever `decide` returns, on every branch, the controller is the one that the decision says:
  -- an ACCEPT counts as accepted, a REJECT as rejected, and a QUEUE puts the request at the end of
  -- the queue and counts it as queued, or, where the queue is full, drops it and counts it as
  -- rejected.
  pub decide-settle :
      (draw : F) (p : SlaPolicy F) (c' : Controller F) (d : Decision) (why : Reason F)
      → decide draw request nodes m p c ≡ some (c', d, why)
      → c' ≡ settle d request c
  unfolding decide refuse settle
  decide-settle draw p c' d why e = ground (arith, check_spill-Settles c' d why)

module _ {F : Type 0} where
  -- The queue is never longer than it may be.
  abbrev pub IsBounded : Controller F → Type 0
  IsBounded c = length c.pending ≤ c.max_queue

  settle-IsBounded :
      (d : Decision) (request : Request F) (c : Controller F)
      → IsBounded c
      → IsBounded (settle d request c)
  unfolding settle
  settle-IsBounded accept request c h = h
  settle-IsBounded reject request c h = h
  settle-IsBounded queue request c h = ground (arith, length-append {0} c.pending (request ∷ []))

  settle_total :
      (d : Decision) (request : Request F) (c : Controller F)
      → (settle d request c).total_accepted
          + (settle d request c).total_queued
          + (settle d request c).total_rejected
        ≡ c.total_accepted + c.total_queued + c.total_rejected + 1
  unfolding settle
  settle_total accept request c = omega arith
  settle_total reject request c = omega arith
  settle_total queue request c = ground arith

module _ {F : Type 0} ⦃fl : Float F⦄ where
  -- `decide` keeps the queue within its limit and counts every request exactly once, as accepted,
  -- queued or rejected.
  pub decide-IsBounded :
      (draw : F) (request : Request F) (nodes : List (Node F)) (m : Manager F) (p : SlaPolicy F)
      (c c' : Controller F) (d : Decision) (why : Reason F)
      → decide draw request nodes m p c ≡ some (c', d, why)
      → IsBounded c
      → IsBounded c'
        × (c'.total_accepted + c'.total_queued + c'.total_rejected
            ≡ c.total_accepted + c.total_queued + c.total_rejected + 1)
  decide-IsBounded draw request nodes m p c c' d why e h =
      rw (decide-settle request nodes m c draw p c' d why e)
        (settle-IsBounded d request c h, settle_total d request c)
