-- ===== src/PhysMemHybrid/Room.antt =====
-- src/modules/physmem_hybrid/PhysMem_Hybrid.c: why the stack of a well-formed state has room for
-- each low page that is in use.
use fantom_os.Base.{
  ℕ, zero, suc, ◌+◌, ◌*◌, ◌/◌, ◌%◌, ◌≤◌, ◌<◌, ◌≡◌, refl, true, false, List, [], ◌∷◌, arith, ltb,
  ◌==◌, if◌then◌else◌, Bool-cases, inl, inr, length, page_size,
}
use fantom_os.Memory.{Mem}
use fantom_os.Bitmap.{Bitmap}
use fantom_os.Stack.Laws.{contents, length-contents}
use fantom_os.PhysMemHybrid.{Hybrid, max_phys_stack}
use fantom_os.PhysMemHybrid.Laws.{on_stack, Stacked, IsValid, is_free}

-- the number of pages below `n` whose address stands on the stack
abbrev count : ℕ → List ℕ → ℕ
count zero xs = 0
count (suc n) xs = (if on_stack (n * page_size) xs then 1 else 0) + count n xs

count-bound : (n : ℕ) (xs : List ℕ) → count n xs ≤ n
count-bound zero xs = omega arith
count-bound (suc n) xs = ground (arith, count-bound n xs)

-- An address that is not on the stack yet counts once more.
count_cons :
    (n x : ℕ) (xs : List ℕ)
    → x % page_size ≡ 0
    → on_stack x xs ≡ false
    → count n (x ∷ xs) ≡ (if ltb (x / page_size) n then 1 else 0) + count n xs
count_cons zero x xs a f = ground arith
count_cons (suc n) x xs a f = elim (Bool-cases (x == n * page_size)) [
  | inl e ↦
      let same : n * page_size ≡ x = ground arith in rw same (ground (arith, count_cons n x xs a f))
  | inr e ↦ ground (arith, count_cons n x xs a f)
]

-- `n` stands for MAX_PHYS_STACK, so that `count` does not compute.
module _ (n : ℕ) (limit : n ≡ max_phys_stack) where
  count-Stacked : (map : Bitmap) (m : Mem) (xs : List ℕ) → Stacked map m xs → length xs ≤ count n xs
  count-Stacked map m [] s = omega arith
  count-Stacked map m (x ∷ xs) s =
      let low : ltb (x / page_size) n ≡ true = ground arith in
      let e = count_cons n x xs s.0 s.4 in
      let tail = count-Stacked map m xs s.5 in
      let counted = rw low at e in rw counted (omega (arith, tail))

  room_below :
      {h : Hybrid} (k : ℕ)
      → IsValid h
      → h.stack.max_elements ≡ n
      → is_free h k ≡ false
      → k < n
      → h.stack.elements < h.stack.max_elements
  room_below {h} k v full held low =
      let xs = contents h.stack h.mem in
      let off : on_stack (k * page_size) xs ≡ false = ground arith in
      let index : k * page_size / page_size ≡ k = omega arith in
      let e = count_cons n (k * page_size) xs (omega arith) off in
      let below : ltb (k * page_size / page_size) n ≡ true = rw index (ground arith) in
      let counted = rw below at e in
      let bound = count-bound n (k * page_size ∷ xs) in
      let many = count-Stacked h.bitmap h.mem xs v.stacked in
      let size = length-contents h.stack h.mem in omega (arith, counted, bound, many, size, full)

-- With a stack of the size that the allocator gives it, each low page that is not free has room.
pub room_of_held :
    {h : Hybrid} (k : ℕ)
    → IsValid h
    → h.stack.max_elements ≡ max_phys_stack
    → is_free h k ≡ false
    → k < max_phys_stack
    → h.stack.elements < h.stack.max_elements
room_of_held k v full held low = room_below max_phys_stack refl k v full held low
