-- ===== src/Admission/Queue.antt =====
-- The admission queue: `pop_queued` against its specification.
use dynamo_serve.Base.{
  ℕ, zero, suc, ◌+◌, ◌-◌, ◌≡◌, refl, true, false, List, [], ◌∷◌, length, take, drop, if◌then◌else◌,
  ltb, arith, Bool-cases, inl, inr,
}
use dynamo_serve.Float.{Float}
use dynamo_serve.Models.Node.{Node}
use dynamo_serve.Models.Request.{Request}
use dynamo_serve.Admission.{Controller, pop_loop, pop_queued, cluster_pressure}

module _ {F : Type 0} ⦃fl : Float F⦄ where
  pop_loop_low :
      (n released : ℕ) (rs : List (Request F))
      → pop_loop n true released rs ≡ (take (n - released) rs, drop (n - released) rs)
  unfolding pop_loop
  pop_loop_low n released [] = elim_gap (n - released)
    where
      elim_gap :
          (k : ℕ) → ◌≡◌ {A = List (Request F) × List (Request F)} ([], []) (take k [], drop k [])
      elim_gap zero = refl
      elim_gap (suc k) = refl
  pop_loop_low n released (r ∷ rs) = elim (Bool-cases (ltb released n)) [
    | inl more ↦
        let gap : n - released ≡ suc (n - (released + 1)) = ground arith in
        rw (more, gap, pop_loop_low n (released + 1) rs) refl
    | inr full ↦
        let gap : n - released ≡ 0 = ground arith in
        rw (full, gap) (step (pop_loop_low n released rs) gap)
  ]
    where
      step :
          pop_loop n true released rs ≡ (take (n - released) rs, drop (n - released) rs)
          → n - released ≡ 0
          → ◌≡◌ {A = List (Request F) × List (Request F)}
              ((pop_loop n true released rs).0, r ∷ (pop_loop n true released rs).1)
              ([], r ∷ rs)
      step ih gap = rw (ih, gap) refl

  pop_loop_high : (n released : ℕ) (rs : List (Request F)) → pop_loop n false released rs ≡ ([], rs)
  unfolding pop_loop
  pop_loop_high n released [] = refl
  pop_loop_high n released (r ∷ rs) = elim (Bool-cases (ltb released n)) [
    | inl e ↦ rw (e, pop_loop_high n released rs) refl
    | inr e ↦ rw (e, pop_loop_high n released rs) refl
  ]

  -- `pop_queued(n)` releases the first `n` queued requests, in order, and keeps the rest in order, if
  -- the memory pressure is below the queue threshold; otherwise it releases none. It counts what it
  -- releases as accepted and changes nothing else.
  pub pop_queued_lem :
      (n : ℕ) (nodes : List (Node F)) (c : Controller F)
      → pop_queued n nodes c ≡ (
          if fl.lt (cluster_pressure nodes) c.mem_queue_thr
          then (
            record c {
              pending = drop n c.pending;
              total_accepted = c.total_accepted + length (take n c.pending);
            },
            take n c.pending,
          )
          else (c, []))
  unfolding pop_queued
  pop_queued_lem n nodes c = elim (Bool-cases (fl.lt (cluster_pressure nodes) c.mem_queue_thr)) [
    | inl low ↦
        let e : pop_loop n true 0 c.pending ≡ (take n c.pending, drop n c.pending) =
          rw (zero_gap n) at (pop_loop_low n 0 c.pending) in
        rw (low, e) refl
    | inr high ↦ rw (high, pop_loop_high n 0 c.pending) (ground arith)
  ]
    where
      zero_gap : (k : ℕ) → k - 0 ≡ k
      zero_gap k = omega arith
