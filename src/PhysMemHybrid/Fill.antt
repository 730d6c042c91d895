-- ===== src/PhysMemHybrid/Fill.antt =====
-- The end of `PhysMem_Hybrid_init`: free low pages move from the map to the stack.
use fantom_os.Base.{
  ℕ, zero, suc, ◌*◌, ◌<◌, ◌≡◌, refl, ◌∙◌, sym, inl, inr, true, false, ◌||◌, Bool, arith, ◌==◌,
  if◌then◌else◌, ltb, ap, Bool-cases, page_size, u32,
}
use fantom_os.Bitmap.{check_bit, set_bit}
use fantom_os.Bitmap.Laws.{check_bit-set_bit, set_bit-IsBytes}
use fantom_os.Stack
use fantom_os.Stack.Laws.{contents}
use fantom_os.PhysMemHybrid.{Hybrid, max_phys_stack, free, fill}
use fantom_os.PhysMemHybrid.Laws.{
  IsValid, is_free, Stacked-mono, used_of_Stacked, contents-set_bit, free_low, on_stack,
}
use fantom_os.PhysMemHybrid.History.{max_elements-free}
use fantom_os.PhysMemHybrid.Room.{room_of_held}

or_true : (b : Bool) → b || true ≡ true
or_true b = ground arith

-- A move of pages that keeps every page's state.
pub record Moved (h h' : Hybrid) : Type 0 where
  pub valid : IsValid h'
  pub same_map : h'.bitmap ≡ h.bitmap
  pub full : h'.stack.max_elements ≡ max_phys_stack
  pub same : (j : ℕ) → j < h.bitmap.bytes * 8 → is_free h' j ≡ is_free h j

module _ (h : Hybrid) (k : ℕ) (v : IsValid h) (full : h.stack.max_elements ≡ max_phys_stack)
    (inside : k < h.bitmap.bytes * 8) (low : k < max_phys_stack)
    (clear : check_bit h.bitmap h.mem k ≡ false) where
  -- the page taken out of the map
  abbrev marked : Hybrid
  marked = record h { mem = set_bit h.bitmap h.mem k }

  off_stack : on_stack (k * page_size) (contents h.stack h.mem) ≡ false
  off_stack = elim (Bool-cases (on_stack (k * page_size) (contents h.stack h.mem))) [
    | inl on ↦
        let used = used_of_Stacked h.bitmap h.mem (contents h.stack h.mem) k v.stacked on in
        absurd (ground (arith, used, clear))
    | inr off ↦ off
  ]

  marked-IsValid : IsValid marked
  marked-IsValid = record {
    fits = v.fits;
    pages = v.pages;
    apart = v.apart;
    bytes = set_bit-IsBytes h.bitmap h.mem k v.bytes;
    stack = v.stack;
    stacked = rw (contents-set_bit h k v inside) (
        Stacked-mono h.bitmap h.mem _ _
          (λ j hj lo used. ground (arith, check_bit-set_bit h.bitmap h.mem k j v.bytes v.fits))
          v.stacked);
  }

  marked_free :
      (j : ℕ) → j < h.bitmap.bytes * 8 → is_free marked j ≡ (if k == j then false else is_free h j)
  marked_free j hj =
      let bit = check_bit-set_bit h.bitmap h.mem k j v.bytes v.fits in
      rw (contents-set_bit h k v inside) (elim (Bool-cases (k == j)) [
        | inl here ↦
            let same : k ≡ j = ground arith in
            rw (← same)
              (ground (arith, off_stack, check_bit-set_bit h.bitmap h.mem k k v.bytes v.fits))
        | inr other ↦ rw other (ground (arith, bit))
      ])

  put_back :
      (j : ℕ) → j < h.bitmap.bytes * 8 → (if k == j then true else is_free marked j) ≡ is_free h j
  put_back j hj = elim (Bool-cases (k == j)) [
    | inl here ↦
        let same : k ≡ j = ground arith in
        rw (here, ← same, clear) (sym (or_true (on_stack (k * page_size) (contents h.stack h.mem))))
    | inr other ↦ rw other (marked_free j hj ∙ ground arith)
  ]

  -- Its address pushed on the stack, it is as free as before.
  pub move-Moved : Moved h (free marked (k * page_size))
  move-Moved =
      let taken : is_free marked k ≡ false = ground (arith, marked_free k inside) in
      let r =
        free_low k marked-IsValid inside low (room_of_held k marked-IsValid full taken low) taken in
      record {
        valid = r.valid;
        same_map = r.same_map;
        full = max_elements-free marked (k * page_size) ∙ full;
        same = λ j hj. r.frees j hj ∙ put_back j hj;
      }

Moved-refl : (h : Hybrid) → IsValid h → h.stack.max_elements ≡ max_phys_stack → Moved h h
Moved-refl h v full = record { valid = v; same_map = refl; full = full; same = λ j hj. refl }

Moved-trans : (a b c : Hybrid) → Moved a b → Moved b c → Moved a c
Moved-trans a b c p q = record {
  valid = q.valid;
  same_map = q.same_map ∙ p.same_map;
  full = q.full;
  same = λ j hj. q.same j (rw p.same_map hj) ∙ p.same j hj;
}

-- A turn of the loop.
abbrev turn : ℕ → Hybrid → Hybrid
turn k h =
    if check_bit h.bitmap h.mem k
    then h
    else free (record h { mem = set_bit h.bitmap h.mem k }) (k * page_size)

pushed_low :
    (h : Hybrid) (k : ℕ)
    → k < max_phys_stack
    → free h (k * page_size) ≡ record h {
      stack = (Stack.push h.stack h.mem (u32 (k * page_size))).0;
      mem = (Stack.push h.stack h.mem (u32 (k * page_size))).1;
    }
unfolding free
pushed_low h k low =
    let near : ltb (k * page_size) (max_phys_stack * page_size) ≡ true = ground arith in
    let small : u32 (k * page_size) ≡ k * page_size = ground arith in rw (near, small) refl

-- The rest of the loop, behind a turn.
abbrev onwards : ℕ → Hybrid → Hybrid
onwards e h = elim (h.stack.elements == h.stack.max_elements) [ true ↦ h | false ↦ fill e h ]

fill-turn :
    (e : ℕ) (h : Hybrid) → suc e < max_phys_stack → fill (suc e) h ≡ onwards e (turn (suc e) h)
unfolding fill
fill-turn e h low =
    ap (λ x. onwards e (if check_bit h.bitmap h.mem (suc e) then h else x))
      (sym (pushed_low (record h { mem = set_bit h.bitmap h.mem (suc e) }) (suc e) low))

turn-Moved :
    (k : ℕ) (h : Hybrid)
    → IsValid h
    → h.stack.max_elements ≡ max_phys_stack
    → k < h.bitmap.bytes * 8
    → k < max_phys_stack
    → Moved h (turn k h)
turn-Moved k h v full inside low = elim (Bool-cases (check_bit h.bitmap h.mem k)) [
  | inl set ↦ rw set (Moved-refl h v full)
  | inr clear ↦ rw clear (move-Moved h k v full inside low clear)
]

onwards-Moved : (e : ℕ) (h h' : Hybrid) → Moved h h' → Moved h' (fill e h') → Moved h (onwards e h')
onwards-Moved e h h' m rest = elim (Bool-cases (h'.stack.elements == h'.stack.max_elements)) [
  | inl stop ↦ rw (onwards, stop) m
  | inr next ↦ rw (onwards, next) (Moved-trans h h' (fill e h') m rest)
]

-- From a page below the stack's range downwards, the loop moves pages only: the state stays sound,
-- and each page that was free stays free, each other one in use.
pub fill-Moved :
    (e : ℕ) (h : Hybrid)
    → IsValid h
    → h.stack.max_elements ≡ max_phys_stack
    → e < h.bitmap.bytes * 8
    → e < max_phys_stack
    → Moved h (fill e h)
unfolding fill
fill-Moved zero h v full inside low = Moved-refl h v full
fill-Moved (suc e) h v full inside low =
    let m = turn-Moved (suc e) h v full inside low in
    let h' = turn (suc e) h in
    let rest : Moved h' (fill e h') =
      fill-Moved e h' m.valid m.full (rw m.same_map (omega arith)) (omega arith) in
    rw (fill-turn e h low) (onwards-Moved e h h' m rest)
