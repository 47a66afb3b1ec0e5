-- ===== src/Cache/Allocation/Filling.antt =====
-- The loop of `allocate` that fills the new blocks.
use dynamo_serve.Base.{
  ℕ, ◌+◌, ◌<◌, ◌≡◌, refl, sym, ◌∙◌, ap, Bool, true, false, not, String, List, [], ◌∷◌, length,
  Option, some, get_elem?, modify, inl, inr, arith, Elem, Distinct, All,
}
use dynamo_serve.Float.{Float}
use dynamo_serve.Models.Block.{Block}
use dynamo_serve.Cache.Manager.{Manager, test_block, access_block}
use dynamo_serve.Cache.Allocation.{fill_block, fill_all}
use dynamo_serve.Cache.Heap.{
  in_use, used_count, count_where-modify_up, count_where-modify_absent, test_block-modify_ne,
  test_block-modify_self, test_block-modify_keep, test_block-true,
}
use dynamo_serve.Cache.Invariant.{Keeps, Keeps-refl, Keeps-trans}
use dynamo_serve.Cache.Invariant.Writes.{
  in_use-stamp, HeapKeeps-modify, Keeps-access_block, used_count-access_block,
}
use dynamo_serve.Cache.Allocation.Pinning.{
  is_pinned, Holds, Holds-modify_ne, pinned-modify, fill_block-IsGentle, fill_block_pins,
  access_block-Marks,
}

module _ {F : Type 0} ⦃fl : Float F⦄ where
  module _ (monotonic : ℕ → F) where
    -- The body of the loop over the new blocks.
    abbrev fill_one : Option String → ℕ → Manager F → Manager F
    fill_one prefix i m = access_block monotonic i (record m {
      heap = modify m.heap i (fill_block m.block_size prefix (monotonic m.clock));
      clock = m.clock + 1;
    })

    -- What the loop over `new` does: it keeps the statistics, takes the blocks of `new` into use
    -- and pins them, and leaves the blocks elsewhere as they are used.
    pub record Fills (new : List ℕ) (m m' : Manager F) : Type 0 where
      pub keeps : Keeps m m'
      pub stats : m'.stats ≡ m.stats
      pub used :
          (ids : List ℕ)
          → Distinct ids
          → All (λ i. Elem i ids) new
          → used_count m'.heap ids ≡ used_count m.heap ids + length new
      pub others :
          (ids : List ℕ)
          → All (λ i. ¬ Elem i ids) new
          → used_count m'.heap ids ≡ used_count m.heap ids
      pub pinned :
          (i : ℕ) → test_block is_pinned m.heap i ≡ true → test_block is_pinned m'.heap i ≡ true
      pub contents :
          (tokens : ℕ) (prefix : Option String) (i : ℕ)
          → ¬ Elem i new
          → Holds tokens prefix m.heap i
          → Holds tokens prefix m'.heap i
      pub filled : All (λ i. test_block is_pinned m'.heap i ≡ true) new

    module _ (prefix : Option String) (i : ℕ) (m : Manager F) (pos : 0 < m.block_size) where
      Keeps-fill_one : Keeps m (fill_one prefix i m)
      Keeps-fill_one =
          Keeps-trans
            (record {
              heaps =
                  HeapKeeps-modify m.heap i _
                    (fill_block-IsGentle m.block_size prefix (monotonic m.clock) pos);
              size = refl;
              blocks = refl;
              next = refl;
            })
            (Keeps-access_block monotonic i _)

      fill_one-pinned :
          (j : ℕ)
          → test_block is_pinned m.heap j ≡ true
          → test_block is_pinned (fill_one prefix i m).heap j ≡ true
      fill_one-pinned j p =
          (access_block-Marks monotonic i _).pinned j
            (pinned-modify m.heap i j _ (fill_block_pins m.block_size prefix (monotonic m.clock)) p)

      fill_one-Holds :
          (tokens : ℕ) (hash : Option String) (j : ℕ)
          → ¬ (i ≡ j)
          → Holds tokens hash m.heap j
          → Holds tokens hash (fill_one prefix i m).heap j
      fill_one-Holds tokens hash j ne h =
          (access_block-Marks monotonic i _).held tokens hash j (Holds-modify_ne m.heap i j _ ne h)

      module _ (b : Block F) (e : get_elem? m.heap i ≡ some b) where
        fill_one-filled : test_block is_pinned (fill_one prefix i m).heap i ≡ true
        fill_one-filled =
            (access_block-Marks monotonic i _).pinned i
              (test_block-modify_self is_pinned m.heap i _ e ∙ unfold fill_block in refl)

        fill_one-used :
            (ids : List ℕ)
            → Distinct ids
            → Elem i ids
            → in_use b ≡ false
            → used_count (fill_one prefix i m).heap ids ≡ used_count m.heap ids + 1
        fill_one-used ids d k idle =
            let more =
              count_where-modify_up in_use m.heap i
                (fill_block m.block_size prefix (monotonic m.clock)) ids d k e idle
                (unfold in_use fill_block in ground arith) in
            let same =
              used_count-access_block monotonic i
                (record m {
                  heap = modify m.heap i (fill_block m.block_size prefix (monotonic m.clock));
                  clock = m.clock + 1;
                })
                ids in
            omega arith

      fill_one-others :
          (ids : List ℕ)
          → ¬ Elem i ids
          → used_count (fill_one prefix i m).heap ids ≡ used_count m.heap ids
      fill_one-others ids k =
          used_count-access_block monotonic i _ ids
          ∙ count_where-modify_absent in_use m.heap i _ ids k

      fill_one-idle :
          (j : ℕ)
          → ¬ (i ≡ j)
          → test_block (λ b. not (in_use b)) m.heap j ≡ true
          → test_block (λ b. not (in_use b)) (fill_one prefix i m).heap j ≡ true
      fill_one-idle j ne h =
          unfold access_block in
          (test_block-modify_keep (λ b. not (in_use b)) _ i j _
              (λ b. ap not (in_use-stamp m.policy _ b))
            ∙ test_block-modify_ne (λ b. not (in_use b)) m.heap i j _ (λ q. ne (sym q))
            ∙ h)

    not-true : {c : Bool} → not c ≡ true → c ≡ false
    not-true {c} h = ground arith

    still_idle :
        (prefix : Option String) (i : ℕ) (m : Manager F) (pos : 0 < m.block_size) (new : List ℕ)
        → ¬ Elem i new
        → All (λ j. test_block (λ b. not (in_use b)) m.heap j ≡ true) new
        → All (λ j. test_block (λ b. not (in_use b)) (fill_one prefix i m).heap j ≡ true) new
    still_idle prefix i m pos [] out h = tt
    still_idle prefix i m pos (j ∷ new) out h = (
      fill_one-idle prefix i m pos j (λ q. out (inl (sym q))) h.0,
      still_idle prefix i m pos new (λ k. out (inr k)) h.1,
    )

    pub fill_all-Fills :
        (prefix : Option String) (new : List ℕ) (m : Manager F)
        → 0 < m.block_size
        → Distinct new
        → All (λ i. test_block (λ b. not (in_use b)) m.heap i ≡ true) new
        → Fills new m (fill_all monotonic prefix new m)
    unfolding fill_all
    fill_all-Fills prefix [] m pos d idle = record {
      keeps = Keeps-refl m;
      stats = refl;
      used = λ ids _ _. omega arith;
      others = λ ids _. refl;
      pinned = λ i p. p;
      contents = λ tokens hash i out h. h;
      filled = tt;
    }
    fill_all-Fills prefix (i ∷ new) m pos d idle =
        let (b, e, nb) = test_block-true (λ b. not (in_use b)) m.heap i idle.0 in
        let keeps = Keeps-fill_one prefix i m pos in
        let r =
          fill_all-Fills prefix new (fill_one prefix i m) (rw keeps.size pos) d.1
            (still_idle prefix i m pos new d.0 idle.1) in
        record {
          keeps = Keeps-trans keeps r.keeps;
          stats = r.stats;
          used = λ ids dist all.
              let one = fill_one-used prefix i m pos b e ids dist all.0 (not-true nb) in
              let rest = r.used ids dist all.1 in omega arith;
          others = λ ids all. r.others ids all.1 ∙ fill_one-others prefix i m pos ids all.0;
          pinned = λ j p. r.pinned j (fill_one-pinned prefix i m pos j p);
          contents = λ tokens hash j out h.
              r.contents tokens hash j (λ k. out (inr k))
                (fill_one-Holds prefix i m pos tokens hash j (λ q. out (inl q)) h);
          filled = (r.pinned i (fill_one-filled prefix i m pos b e), r.filled);
        }
