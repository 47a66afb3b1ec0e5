-- ===== src/Cache/Policy/Choice.antt =====
-- What the eviction policies choose: eviction_policy.py, `pick_victim` of each class.
use dynamo_serve.Base.{
  ◌≤◌, ◌≡◌, refl, true, false, not, List, [], ◌∷◌, none, some, All, Elem, best-Elem, best-none,
  best_lem, select, Elem-select, Elem-select_of, All-select_self, All-Elem, Elem-All, IsStrictOrder,
  Bool-cases, inl, inr, arith, ltb→le,
}
use dynamo_serve.Float.{
  Float, FloatLaws, min_key-IsStrictOrder, max_key-IsStrictOrder, le_of_not_lt,
}
use dynamo_serve.Models.Block.{Block}
use dynamo_serve.Cache.Policy.{
  Policy, lru, lfu, belady, better, access_time, frequency, next_use, evictable, pick_victim,
}

module _ {F : Type 0} ⦃fl : Float F⦄ where
  -- `x` is at most as good a victim as `b`, in the words of the policy.
  abbrev pub Outranks : Policy F → Block F → Block F → Type 0
  Outranks (lru times) b x = fl.le (access_time times b) (access_time times x) ≡ true
  Outranks (lfu freq) b x = frequency freq b ≤ frequency freq x
  Outranks (belady future) b x = fl.le (next_use future x) (next_use future b) ≡ true

  -- The victim is one of the candidates, and is not pinned.
  pub pick_victim-Elem :
      (p : Policy F) (bs : List (Block F)) (b : Block F)
      → pick_victim p bs ≡ some b
      → Elem b bs × (b.pinned ≡ false)
  unfolding pick_victim evictable
  pick_victim-Elem p bs b h =
      let free = select (λ (x : Block F). not x.pinned) bs in
      let m = best-Elem (better p) free b h in
      let loose = All-Elem _ free (All-select_self (λ x. not x.pinned) bs) m in
      (Elem-select (λ x. not x.pinned) bs b m, ground arith)

  -- A policy finds no victim only where every candidate is pinned.
  pub pick_victim-none :
      (p : Policy F) (bs : List (Block F)) → pick_victim p bs ≡ none → All (λ b. b.pinned ≡ true) bs
  unfolding pick_victim evictable
  pick_victim-none p bs h =
      Elem-All _ bs
        (λ b m. elim (Bool-cases b.pinned) [ inl e ↦ e | inr e ↦ absurd (missing b m e) ])
    where
      missing : (b : Block F) → Elem b bs → b.pinned ≡ false → ⊥
      missing b m e =
          let found = Elem-select_of (λ (x : Block F). not x.pinned) bs b m (ground arith) in
          let gone = best-none (better p) (select (λ x. not x.pinned) bs) h in rw gone at found

  pub pick_victim_pinned :
      (p : Policy F) (bs : List (Block F)) → All (λ b. b.pinned ≡ true) bs → pick_victim p bs ≡ none
  unfolding pick_victim evictable
  pick_victim_pinned p [] h = refl
  pick_victim_pinned p (b ∷ bs) h = ground (arith, pick_victim_pinned p bs h.1)

module _ {F : Type 0} ⦃fl : Float F⦄ (laws : FloatLaws F) where
  better-IsStrictOrder : (p : Policy F) → IsStrictOrder (better p)
  unfolding better
  better-IsStrictOrder (lru times) = min_key-IsStrictOrder laws (access_time times)
  better-IsStrictOrder (lfu freq) = record {
    asymm = λ x y h. ground arith;
    not_trans = λ x y z h k. ground arith;
  }
  better-IsStrictOrder (belady future) = max_key-IsStrictOrder laws (next_use future)

  Outranks-of : (p : Policy F) (b x : Block F) → better p x b ≡ false → Outranks p b x
  unfolding better
  Outranks-of (lru times) b x h = le_of_not_lt laws _ _ h
  Outranks-of (lfu freq) b x h = ltb→le _ _ h
  Outranks-of (belady future) b x h = le_of_not_lt laws _ _ h

  -- No candidate that is not pinned is a better victim than the one that `pick_victim` returns: it is
  -- the least recently used, the least often used, or the one used furthest ahead.
  pub pick_victim_lem :
      (p : Policy F) (bs : List (Block F)) (b x : Block F)
      → pick_victim p bs ≡ some b
      → Elem x bs
      → x.pinned ≡ false
      → Outranks p b x
  unfolding pick_victim evictable
  pick_victim_lem p bs b x h m e =
      let all = best_lem (better p) (better-IsStrictOrder p) (select (λ x. not x.pinned) bs) b h in
      Outranks-of p b x
        (All-Elem _ _ all (Elem-select_of (λ y. not y.pinned) bs x m (ground arith)))
