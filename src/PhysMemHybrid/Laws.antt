-- ===== src/PhysMemHybrid/Laws.antt =====
-- The stack and the map together: which pages are free, and what each call does to them.
use fantom_os.Base.{
  ℕ, ◌+◌, ◌*◌, ◌/◌, ◌%◌, ◌^◌, ◌≤◌, ◌<◌, ◌≡◌, ◌↔◌, refl, ◌∙◌, inl, inr, Bool, true, false, not, ◌||◌,
  List, [], ◌∷◌, arith, ltb, ◌==◌, if◌then◌else◌, Bool-cases, page_size,
}
use fantom_os.Memory.{Mem, IsBytes}
use fantom_os.Bitmap.{Bitmap, check_bit, set_bit, clear_bit}
use fantom_os.Bitmap.Laws.{
  clear_bit-IsBytes, set_bit_outside, clear_bit_outside, check_bit-clear_bit, check_bit_frame,
}
use fantom_os.Stack
use fantom_os.Stack.{Stack}
use fantom_os.Stack.Laws
use fantom_os.Stack.Laws.{contents, words, words_frame}
use fantom_os.PhysMemBitmap
use fantom_os.PhysMemBitmap.{Page, page, panic}
use fantom_os.PhysMemBitmap.Laws as Map
use fantom_os.PhysMemBitmap.Laws.{FirstFit, first, out_of_memory}
use fantom_os.PhysMemHybrid.{Hybrid, max_phys_stack, free, allocate}

abbrev pub on_stack : ℕ → List ℕ → Bool
on_stack a [] = false
on_stack a (x ∷ xs) = (x == a) || on_stack a xs

-- Each stacked address is a low page of the map, marked as used there, and stands on the stack once.
abbrev pub Stacked : Bitmap → Mem → List ℕ → Type 0
Stacked map m [] = Unit {0}
Stacked map m (x ∷ xs) =
    (x % page_size ≡ 0)
    × (x < max_phys_stack * page_size)
    × (x / page_size < map.bytes * 8)
    × (check_bit map m (x / page_size) ≡ true)
    × (on_stack x xs ≡ false)
    × Stacked map m xs

pub record IsValid (h : Hybrid) : Type 0 where
  pub fits : h.bitmap.base + h.bitmap.bytes ≤ 2 ^ 32
  pub pages : h.bitmap.bytes * 8 ≤ 2 ^ 20
  pub apart : h.bitmap.base + h.bitmap.bytes ≤ h.stack.base
  pub bytes : IsBytes h.mem
  pub stack : Laws.IsValid h.stack
  pub stacked : Stacked h.bitmap h.mem (contents h.stack h.mem)

-- a page is free if it stands on the stack or its bit is clear
abbrev pub is_free : Hybrid → ℕ → Bool
is_free h j = on_stack (j * page_size) (contents h.stack h.mem) || not (check_bit h.bitmap h.mem j)

pub Stacked-mono :
    (map : Bitmap) (m m' : Mem) (xs : List ℕ)
    → ((j : ℕ)
        → j < map.bytes * 8
        → j < max_phys_stack
        → check_bit map m j ≡ true
        → check_bit map m' j ≡ true)
    → Stacked map m xs
    → Stacked map m' xs
Stacked-mono map m m' [] keep s = tt
Stacked-mono map m m' (x ∷ xs) keep s = (
  s.0,
  s.1,
  s.2,
  keep (x / page_size) s.2 (omega arith) s.3,
  s.4,
  Stacked-mono map m m' xs keep s.5,
)

-- What is on the stack is marked as used, so the two kinds of free page exclude one another.
pub used_of_Stacked :
    (map : Bitmap) (m : Mem) (xs : List ℕ) (j : ℕ)
    → Stacked map m xs
    → on_stack (j * page_size) xs ≡ true
    → check_bit map m j ≡ true
used_of_Stacked map m [] j s on = absurd (ground arith)
used_of_Stacked map m (x ∷ xs) j s on = ground (arith, used_of_Stacked map m xs j)

module _ (h : Hybrid) (k : ℕ) (v : IsValid h) (hk : k < h.bitmap.bytes * 8) where
  -- A write to the map does not reach the stack.
  pub contents-set_bit : contents h.stack (set_bit h.bitmap h.mem k) ≡ contents h.stack h.mem
  contents-set_bit =
      words_frame h.mem _ h.stack.base h.stack.elements (omega arith)
        λ p lo. set_bit_outside h.bitmap h.mem k p (omega arith)

  contents-clear_bit : contents h.stack (clear_bit h.bitmap h.mem k) ≡ contents h.stack h.mem
  contents-clear_bit =
      words_frame h.mem _ h.stack.base h.stack.elements (omega arith)
        λ p lo. clear_bit_outside h.bitmap h.mem k p (omega arith)

-- A push does not reach the map.
check_bit-push :
    (h : Hybrid) (x j : ℕ)
    → IsValid h
    → j < h.bitmap.bytes * 8
    → check_bit h.bitmap (Stack.push h.stack h.mem x).1 j ≡ check_bit h.bitmap h.mem j
check_bit-push h x j v hj =
    check_bit_frame h.bitmap h.mem _ j v.fits hj
      λ lt. Laws.push_outside h.mem x _ v.stack (omega arith)

-- What a page's release means: it is free from then on, and every other page is as it was.
pub record Released (h h' : Hybrid) (k : ℕ) : Type 0 where
  pub valid : IsValid h'
  pub same_map : h'.bitmap ≡ h.bitmap
  pub frees :
      (j : ℕ) → j < h.bitmap.bytes * 8 → is_free h' j ≡ (if k == j then true else is_free h j)

-- What a page's allocation means: it was free, it is not any more, and every other page is as it was.
pub record Taken (h h' : Hybrid) (address : ℕ) : Type 0 where
  pub valid : IsValid h'
  pub same_map : h'.bitmap ≡ h.bitmap
  pub aligned : address / page_size * page_size ≡ address
  pub in_map : address / page_size < h.bitmap.bytes * 8
  pub was_free : is_free h (address / page_size) ≡ true
  pub takes :
      (j : ℕ)
      → j < h.bitmap.bytes * 8
      → is_free h' j ≡ (if address / page_size == j then false else is_free h j)

module _ {h : Hybrid} (k : ℕ) (v : IsValid h) (hk : k < h.bitmap.bytes * 8) where
  free_high : max_phys_stack ≤ k → Released h (free h (k * page_size)) k
  unfolding free
  free_high hi =
      let test : ltb (k * page_size) (max_phys_stack * page_size) ≡ false = ground arith in
      let index : k * page_size / page_size ≡ k = omega arith in
      let same = contents-clear_bit h k v hk in
      rw (test, index)
        (record {
          valid = record {
            fits = v.fits;
            pages = v.pages;
            apart = v.apart;
            bytes = clear_bit-IsBytes h.bitmap h.mem k v.bytes;
            stack = v.stack;
            stacked = rw same (
                Stacked-mono h.bitmap h.mem _ _
                  (λ j hj lo used.
                    ground (arith, check_bit-clear_bit h.bitmap h.mem k j v.bytes v.fits))
                  v.stacked);
          };
          same_map = refl;
          frees = λ j hj.
              rw same (ground (arith, check_bit-clear_bit h.bitmap h.mem k j v.bytes v.fits));
        })

  pub free_low :
      k < max_phys_stack
      → h.stack.elements < h.stack.max_elements
      → is_free h k ≡ false
      → Released h (free h (k * page_size)) k
  unfolding free
  free_low lo room held =
      let test : ltb (k * page_size) (max_phys_stack * page_size) ≡ true = ground arith in
      let index : k * page_size / page_size ≡ k = omega arith in
      let pushed = Laws.contents-push_room h.mem (k * page_size) v.stack room (omega arith) in
      rw test (record {
        valid = record {
          fits = v.fits;
          pages = v.pages;
          apart = omega (arith, v.apart, Laws.base-push h.stack h.mem (k * page_size));
          bytes = Laws.push-IsBytes h.stack h.mem (k * page_size) v.bytes;
          stack = Laws.push-IsValid h.mem (k * page_size) v.stack;
          stacked = rw pushed (
            omega arith,
            omega arith,
            omega arith,
            rw index (rw (check_bit-push h (k * page_size) k v hk) (ground arith)),
            ground arith,
            Stacked-mono h.bitmap h.mem _ _
                (λ j hj low used. check_bit-push h (k * page_size) j v hj ∙ used) v.stacked,
          );
        };
        same_map = refl;
        frees = λ j hj. rw (pushed, check_bit-push h (k * page_size) j v hj) (ground arith);
      })

  -- In a well-formed state, freeing a page of the map that is in use makes that page free,
  -- leaves every other page as it was and keeps the state well formed; for a page below
  -- MAX_PHYS_STACK the stack must have room.
  pub free-Released :
      (k < max_phys_stack → h.stack.elements < h.stack.max_elements)
      → is_free h k ≡ false
      → Released h (free h (k * page_size)) k
  free-Released room held = elim (Bool-cases (ltb k max_phys_stack)) [
    | inl lo ↦ free_low (ground arith) (room (ground arith)) held
    | inr hi ↦ free_high (ground arith)
  ]

-- Taking the top off the stack takes that page from the free ones.
take_top :
    (map : Bitmap) (m : Mem) (x : ℕ) (xs : List ℕ) (j : ℕ)
    → Stacked map m (x ∷ xs)
    → (on_stack (j * page_size) xs || not (check_bit map m j)) ≡ (
        if x / page_size == j
        then false
        else on_stack (j * page_size) (x ∷ xs) || not (check_bit map m j))
take_top map m x xs j s = ground arith

module _ (h : Hybrid) where
  allocate_stacked :
      0 < h.stack.elements
      → allocate h
        ≡ (page (Stack.pop h.stack h.mem).0, record h { stack = (Stack.pop h.stack h.mem).1 })
  unfolding allocate
  allocate_stacked pos = let e : ltb 0 h.stack.elements ≡ true = ground arith in rw e

  -- With the stack empty the call is that of the bitmap allocator.
  allocate_searched :
      h.stack.elements ≡ 0
      → allocate h ≡ (
        (PhysMemBitmap.allocate h.bitmap h.mem).0,
        record h { mem = (PhysMemBitmap.allocate h.bitmap h.mem).1 },
      )
  unfolding allocate PhysMemBitmap.allocate
  allocate_searched z = let e : ltb 0 h.stack.elements ≡ false = ground arith in rw e

  map-IsValid : IsValid h → Map.IsValid h.bitmap h.mem
  map-IsValid v = record { fits = v.fits; pages = v.pages; bytes = v.bytes }

  module _ (v : IsValid h) (pos : 0 < h.stack.elements) where
    popped-Taken :
        Taken h (record h { stack = (Stack.pop h.stack h.mem).1 }) (Stack.pop h.stack h.mem).0
    popped-Taken =
        let shape = Laws.pop_pos h.stack h.mem v.stack pos in
        let s = rw shape at v.stacked in
        let index : (Stack.pop h.stack h.mem).0 / page_size * page_size
            ≡ (Stack.pop h.stack h.mem).0 =
          omega arith in
        record {
          valid = record {
            fits = v.fits;
            pages = v.pages;
            apart = omega (arith, v.apart, Laws.base-pop h.stack h.mem);
            bytes = v.bytes;
            stack = Laws.pop-IsValid h.mem v.stack;
            stacked = s.5;
          };
          same_map = refl;
          aligned = index;
          in_map = s.2;
          was_free = rw (index, shape) (ground arith);
          takes = λ j hj. rw shape (take_top h.bitmap h.mem _ _ j s);
        }

  module _ (v : IsValid h) (empty : h.stack.elements ≡ 0) where
    searched-Taken :
        {m' : Mem} {a : ℕ} → Map.Taken h.bitmap h.mem m' a → Taken h (record h { mem = m' }) a
    searched-Taken {m'} {a} t =
        let in_map : a / page_size < h.bitmap.bytes * 8 = omega (arith, t.in_map) in
        let none_before = Laws.contents_of_empty h.stack h.mem empty in
        let none_after = Laws.contents_of_empty h.stack m' empty in
        record {
          valid = record {
            fits = v.fits;
            pages = v.pages;
            apart = v.apart;
            bytes = t.valid.bytes;
            stack = v.stack;
            stacked = rw none_after tt;
          };
          same_map = refl;
          aligned = t.aligned;
          in_map = in_map;
          was_free = rw (none_before, t.was_free);
          takes = λ j hj. rw (none_before, none_after) (ground (arith, t.others j, t.now_used));
        }

-- In a well-formed state a page that the stack-and-bitmap allocator returns was free before, is
-- page aligned and in the map, is free no longer, no other page changes, and the state stays
-- well formed.
pub allocate-Taken :
    {h : Hybrid} (address : ℕ)
    → IsValid h
    → (allocate h).0 ≡ page address
    → Taken h (allocate h).1 address
allocate-Taken {h} address v e = elim (Bool-cases (ltb 0 h.stack.elements)) [
  | inl pos ↦
      let shape = allocate_stacked h (ground arith) in
      let popped : (Stack.pop h.stack h.mem).0 ≡ address = ground (arith, shape) in
      rw (shape, ← popped) (popped-Taken h v (ground arith))
  | inr z ↦
      let shape = allocate_searched h (ground arith) in
      rw shape (
        searched-Taken h v (ground arith)
          (Map.allocate-Taken address (map-IsValid h v) (ground (arith, shape))))
]

module _ {h : Hybrid} (v : IsValid h) where
  free_top : 0 < h.stack.elements → ((j : ℕ) → j < h.bitmap.bytes * 8 → is_free h j ≡ false) → ⊥
  free_top pos all = let t = popped-Taken h v pos in ground (arith, all _ t.in_map, t.was_free)

  free_of_clear : (j : ℕ) → h.stack.elements ≡ 0 → is_free h j ≡ not (check_bit h.bitmap h.mem j)
  free_of_clear j e = rw (Laws.contents_of_empty h.stack h.mem e)

  -- In a well-formed state the stack-and-bitmap allocator panics exactly when no page of the map
  -- is free.
  pub allocate_panic :
      ((allocate h).0 ≡ panic) ↔ ((j : ℕ) → j < h.bitmap.bytes * 8 → is_free h j ≡ false)
  allocate_panic = elim (Bool-cases (ltb 0 h.stack.elements)) [
    | inl pos ↦ (
      λ e. absurd (ground (arith, allocate_stacked h (ground arith))),
      λ all. absurd (free_top (ground arith) all),
    )
    | inr z ↦
        let empty : h.stack.elements ≡ 0 = ground arith in
        let shape = allocate_searched h empty in
        let fit = Map.allocate-FirstFit (map-IsValid h v) in
        (
          λ e j hj. rw (free_of_clear j empty, Map.used_of_panic fit (ground (arith, shape)) j hj),
          λ all. rw (
            shape,
            Map.panic_of_used fit (λ j hj. ground (arith, all j hj, free_of_clear j empty)),
          ),
        )
  ]
