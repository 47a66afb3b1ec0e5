-- ===== src/Cache/Allocation/Pinning.antt =====
-- The loop of `allocate` that pins the reused blocks, and what an access to a block keeps.
use dynamo_serve.Base.{
  ap, some_inj, get_elem?-modify_ne, ℕ, zero, suc, ◌<◌, ◌≡◌, refl, ◌∙◌, Bool, true, String, List,
  [], ◌∷◌, Option, some, get_elem?, modify, arith, All, All-map_of,
}
use dynamo_serve.Float.{Float}
use dynamo_serve.Models.Block.{Block}
use dynamo_serve.Cache.Policy.{Policy, lru, lfu, belady, stamp}
use dynamo_serve.Cache.Manager.{Manager, test_block, access_block}
use dynamo_serve.Cache.Allocation.{pin_block, fill_block, pin_all}
use dynamo_serve.Cache.Heap.{
  in_use, used_count, count_where-modify_keep, test_block-modify_self, test_block-true,
}
use dynamo_serve.Cache.Invariant.{Keeps, Keeps-refl, Keeps-trans}
use dynamo_serve.Cache.Invariant.Writes.{
  IsGentle, HeapKeeps-modify, Keeps-access_block, used_count-access_block,
}

module _ {F : Type 0} where
  abbrev pub is_pinned : Block F → Bool
  is_pinned b = b.pinned

  -- A write that pins, or leaves pinned what is.
  pub pinned-modify :
      (h : List (Block F)) (i j : ℕ) (f : Block F → Block F)
      → ((b : Block F) → b.pinned ≡ true → (f b).pinned ≡ true)
      → test_block is_pinned h j ≡ true
      → test_block is_pinned (modify h i f) j ≡ true
  unfolding test_block
  pinned-modify [] i j f k p = p
  pinned-modify (x ∷ h) zero zero f k p = k x p
  pinned-modify (x ∷ h) zero (suc j) f k p = p
  pinned-modify (x ∷ h) (suc i) zero f k p = p
  pinned-modify (x ∷ h) (suc i) (suc j) f k p = pinned-modify h i j f k p

  -- The block at `i` is pinned, and holds `tokens` tokens under the prefix `prefix`.
  abbrev pub Holds : ℕ → Option String → List (Block F) → ℕ → Type 0
  Holds tokens prefix h i =
      (b : Block F) × (get_elem? h i ≡ some b)
      × (b.pinned ≡ true)
      × (b.tokens_used ≡ tokens)
      × (b.prefix_hash ≡ prefix)

  -- A write that changes neither content, nor a pin that is there.
  abbrev pub IsHarmless : (Block F → Block F) → Type 0
  IsHarmless f =
      (b : Block F)
      → (b.pinned ≡ true → (f b).pinned ≡ true)
        × ((f b).tokens_used ≡ b.tokens_used)
        × ((f b).prefix_hash ≡ b.prefix_hash)

  pub Holds-modify :
      {tokens : ℕ} {prefix : Option String} (h : List (Block F)) (i j : ℕ) (f : Block F → Block F)
      → IsHarmless f
      → Holds tokens prefix h j
      → Holds tokens prefix (modify h i f) j
  Holds-modify [] i j f k h = h
  Holds-modify (y ∷ h) zero zero f k (b, e, p, t, x) =
      let same = some_inj e in
      (
        f y,
        refl,
        (k y).0 (ap (λ (c : Block F). c.pinned) same ∙ p),
        (k y).1 ∙ ap (λ (c : Block F). c.tokens_used) same ∙ t,
        (k y).2 ∙ ap (λ (c : Block F). c.prefix_hash) same ∙ x,
      )
  Holds-modify (y ∷ h) zero (suc j) f k held = held
  Holds-modify (y ∷ h) (suc i) zero f k held = held
  Holds-modify (y ∷ h) (suc i) (suc j) f k held = Holds-modify h i j f k held

  pub Holds-modify_ne :
      {tokens : ℕ} {prefix : Option String} (h : List (Block F)) (i j : ℕ) (f : Block F → Block F)
      → ¬ (i ≡ j)
      → Holds tokens prefix h j
      → Holds tokens prefix (modify h i f) j
  Holds-modify_ne h i j f ne (b, e, p, t, x) = (b, get_elem?-modify_ne h i j f ne ∙ e, p, t, x)

  pub pin_block-IsGentle : IsGentle {F = F} pin_block
  unfolding pin_block
  pin_block-IsGentle b = (refl, refl, λ h. h)

  pub fill_block-IsGentle :
      (size : ℕ) (prefix : Option String) (now : F)
      → 0 < size
      → IsGentle (fill_block size prefix now)
  unfolding fill_block
  fill_block-IsGentle size prefix now pos b = (refl, refl, λ h e. absurd (omega arith))

  pub fill_block_pins :
      (size : ℕ) (prefix : Option String) (now : F) (b : Block F)
      → b.pinned ≡ true
      → (fill_block size prefix now b).pinned ≡ true
  unfolding fill_block
  fill_block_pins size prefix now b h = refl

  -- Nothing but pins and access times has changed.
  pub record Marks (m m' : Manager F) : Type 0 where
    pub keeps : Keeps m m'
    pub stats : m'.stats ≡ m.stats
    pub used : (ids : List ℕ) → used_count m'.heap ids ≡ used_count m.heap ids
    pub pinned :
        (i : ℕ) → test_block is_pinned m.heap i ≡ true → test_block is_pinned m'.heap i ≡ true
    pub held :
        (tokens : ℕ) (prefix : Option String) (i : ℕ)
        → Holds tokens prefix m.heap i
        → Holds tokens prefix m'.heap i

  pub Marks-refl : (m : Manager F) → Marks m m
  Marks-refl m = record {
    keeps = Keeps-refl m;
    stats = refl;
    used = λ ids. refl;
    pinned = λ i p. p;
    held = λ tokens prefix i h. h;
  }

  pub Marks-trans : {m m' m'' : Manager F} → Marks m m' → Marks m' m'' → Marks m m''
  Marks-trans k l = record {
    keeps = Keeps-trans k.keeps l.keeps;
    stats = l.stats ∙ k.stats;
    used = λ ids. l.used ids ∙ k.used ids;
    pinned = λ i p. l.pinned i (k.pinned i p);
    held = λ tokens prefix i h. l.held tokens prefix i (k.held tokens prefix i h);
  }

module _ {F : Type 0} ⦃fl : Float F⦄ where
  pub pinned-stamp :
      (p : Policy F) (now : F) (b : Block F) → b.pinned ≡ true → (stamp p now b).pinned ≡ true
  unfolding stamp
  pinned-stamp (lru _) now b h = h
  pinned-stamp (lfu _) now b h = h
  pinned-stamp (belady _) now b h = h

  stamp-IsHarmless : (p : Policy F) (now : F) → IsHarmless (stamp p now)
  unfolding stamp
  stamp-IsHarmless (lru _) now b = (λ h. h, refl, refl)
  stamp-IsHarmless (lfu _) now b = (λ h. h, refl, refl)
  stamp-IsHarmless (belady _) now b = (λ h. h, refl, refl)

  module _ (monotonic : ℕ → F) where
    pub access_block-Marks : (i : ℕ) (m : Manager F) → Marks m (access_block monotonic i m)
    unfolding access_block
    access_block-Marks i m = record {
      keeps = Keeps-access_block monotonic i m;
      stats = refl;
      used = used_count-access_block monotonic i m;
      pinned = λ j. pinned-modify m.heap i j _ (pinned-stamp m.policy (monotonic m.clock));
      held = λ _ _ j. Holds-modify m.heap i j _ (stamp-IsHarmless m.policy (monotonic m.clock));
    }

    pin-Marks : (i : ℕ) (m : Manager F) → Marks m (record m { heap = modify m.heap i pin_block })
    unfolding pin_block
    pin-Marks i m = record {
      keeps = record {
        heaps = HeapKeeps-modify m.heap i pin_block pin_block-IsGentle;
        size = refl;
        blocks = refl;
        next = refl;
      };
      stats = refl;
      used =
          λ ids. count_where-modify_keep in_use m.heap i pin_block ids (λ b. unfold in_use in refl);
      pinned = λ j. pinned-modify m.heap i j pin_block (λ b h. refl);
      held = λ _ _ j. Holds-modify m.heap i j pin_block (λ b. (λ h. refl, refl, refl));
    }

    -- The body of the loop over the reused blocks.
    abbrev pin_one : ℕ → Manager F → Manager F
    pin_one i m = access_block monotonic i (record m { heap = modify m.heap i pin_block })

    pin_one-Marks : (i : ℕ) (m : Manager F) → Marks m (pin_one i m)
    pin_one-Marks i m = Marks-trans (pin-Marks i m) (access_block-Marks i _)

    pin_one-pinned :
        (i : ℕ) (m : Manager F) (b : Block F)
        → get_elem? m.heap i ≡ some b
        → test_block is_pinned (pin_one i m).heap i ≡ true
    pin_one-pinned i m b e =
        (access_block-Marks i _).pinned i
          (test_block-modify_self is_pinned m.heap i pin_block e ∙ unfold pin_block in refl)

    pub pin_all-Marks : (is : List ℕ) (m : Manager F) → Marks m (pin_all monotonic is m)
    unfolding pin_all
    pin_all-Marks [] m = Marks-refl m
    pin_all-Marks (i ∷ is) m = Marks-trans (pin_one-Marks i m) (pin_all-Marks is (pin_one i m))

    -- Afterwards every block of the list is pinned.
    pub pin_all-pinned :
        (on : Block F → Bool) (is : List ℕ) (m : Manager F)
        → ((m m' : Manager F) (i : ℕ)
            → Keeps m m'
            → test_block on m.heap i ≡ true
            → test_block on m'.heap i ≡ true)
        → All (λ i. test_block on m.heap i ≡ true) is
        → All (λ i. test_block is_pinned (pin_all monotonic is m).heap i ≡ true) is
    unfolding pin_all
    pin_all-pinned on [] m keep h = tt
    pin_all-pinned on (i ∷ is) m keep h =
        let (b, e, _) = test_block-true on m.heap i h.0 in
        (
          (pin_all-Marks is (pin_one i m)).pinned i (pin_one-pinned i m b e),
          pin_all-pinned on is (pin_one i m) keep
              (All-map_of _ _ is (λ j. keep m (pin_one i m) j (pin_one-Marks i m).keeps) h.1),
        )
