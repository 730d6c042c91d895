-- ===== src/LinkedList/Seg.antt =====
-- Doubly linked chains of nodes, and the list that a handle stands for.
use fantom_os.Base.{
  ℕ, ◌^◌, ◌<◌, ◌≡◌, ◌≢◌, refl, ◌∙◌, Bool, true, false, ◌||◌, Option, none, some, List, [], ◌∷◌,
  ◌++◌, arith, ◌==◌, length, null, subst, inl, inr, Bool-cases,
}
use fantom_os.NodeHeap.{Ptr, ListNode, node, Heap, write}
use fantom_os.LinkedList.{LinkedList}

-- address and data of each node, in order
abbrev pub Cells : Type 0
Cells = List (Ptr × ℕ)

-- the data in order: what a client sees
abbrev pub payloads : Cells → List ℕ
payloads [] = []
payloads ((_, d) ∷ xs) = d ∷ payloads xs

abbrev pub has : Ptr → Cells → Bool
has a [] = false
has a ((p, _) ∷ xs) = (p == a) || has a xs

abbrev pub Distinct : Cells → Type 0
Distinct [] = Unit {0}
Distinct ((p, _) ∷ xs) = (has p xs ≡ false) × Distinct xs

-- the address that a chain starts at, and the one that it ends at
abbrev pub first : Cells → Ptr → Ptr
first [] next = next
first ((p, _) ∷ _) next = p

abbrev pub last : Ptr → Cells → Ptr
last prev [] = prev
last prev ((p, _) ∷ xs) = last p xs

-- From `prev` to `next` the nodes of `xs` follow one another in both directions.
abbrev pub Chain : Heap → Ptr → Cells → Ptr → Type 0
Chain h prev [] next = Unit {0}
Chain h prev ((p, d) ∷ xs) next =
    (p ≢ null) × (h p ≡ some (node d (first xs next) prev)) × Chain h p xs next

pub record IsList (h : Heap) (l : LinkedList) (xs : Cells) : Type 0 where
  pub count : l.items ≡ length xs
  pub small : length xs < 2 ^ 32
  pub front : l.front ≡ first xs null
  pub back : l.back ≡ last null xs
  pub chain : Chain h null xs null
  pub distinct : Distinct xs

-- the heaps agree at every address that is no cell of `xs`
abbrev pub SameOutside : Cells → Heap → Heap → Type 0
SameOutside xs h g = (p : Ptr) → has p xs ≡ false → g p ≡ h p

-- A chain survives a write outside it.
pub Chain-frame :
    (h : Heap) (prev : Ptr) (xs : Cells) (next p : Ptr) (c : Option ListNode)
    → has p xs ≡ false
    → Chain h prev xs next
    → Chain (write h p c) prev xs next
unfolding write
Chain-frame h prev [] next p c out s = tt
Chain-frame h prev ((a, d) ∷ xs) next p c out s =
    (s.0, ground arith, Chain-frame h a xs next p c (ground arith) s.2)

-- Two chains in a row are one.
pub Chain-split :
    (h : Heap) (prev : Ptr) (xs ys : Cells) (next : Ptr)
    → Chain h prev (xs ++ ys) next
    → Chain h prev xs (first ys next) × Chain h (last prev xs) ys next
Chain-split h prev [] ys next s = (tt, s)
Chain-split h prev ((a, d) ∷ []) ys next s = ((s.0, s.1, tt), s.2)
Chain-split h prev ((a, d) ∷ x ∷ xs) ys next s =
    let go = Chain-split h a (x ∷ xs) ys next s.2 in ((s.0, s.1, go.0), go.1)

pub Chain-join :
    (h : Heap) (prev : Ptr) (xs ys : Cells) (next : Ptr)
    → Chain h prev xs (first ys next)
    → Chain h (last prev xs) ys next
    → Chain h prev (xs ++ ys) next
Chain-join h prev [] ys next s t = t
Chain-join h prev ((a, d) ∷ []) ys next s t = (s.0, s.1, t)
Chain-join h prev ((a, d) ∷ x ∷ xs) ys next s t = (s.0, s.1, Chain-join h a (x ∷ xs) ys next s.2 t)

pub has-append : (a : Ptr) (xs ys : Cells) → has a (xs ++ ys) ≡ (has a xs || has a ys)
has-append a [] ys = refl
has-append a (x ∷ xs) ys = ground (arith, has-append a xs ys)

-- what stands in neither part stands not in the whole, and the other way round
pub has_parts :
    (p : Ptr) (xs ys : Cells) → has p (xs ++ ys) ≡ false → (has p xs ≡ false) × (has p ys ≡ false)
has_parts p [] ys o = (refl, o)
has_parts p ((a, d) ∷ xs) ys o = let go = has_parts p xs ys (ground arith) in (ground arith, go.1)

pub write_self : (h : Heap) (p : Ptr) (c : Option ListNode) → write h p c p ≡ c
unfolding write
write_self h p c = ground arith

pub write_ne : (h : Heap) (p : Ptr) (c : Option ListNode) (a : Ptr) → p ≢ a → write h p c a ≡ h a
unfolding write
write_ne h p c a ne = ground arith

pub ne_of_has : (p a : Ptr) (xs : Cells) → has p xs ≡ true → has a xs ≡ false → p ≢ a
ne_of_has p a xs i o e = cc

-- The last node of a chain that is not empty; its `nextNode` can be moved.
pub record Relinked (h : Heap) (prev : Ptr) (xs : Cells) (next next' : Ptr) : Type 0 where
  pub cell : ListNode
  pub held : h (last prev xs) ≡ some cell
  pub not_null : last prev xs ≢ null
  pub inside : has (last prev xs) xs ≡ true
  pub chain :
      Chain (write h (last prev xs) (some (record cell { next_node = next' }))) prev xs next'

pub relink_last :
    (h : Heap) (prev : Ptr) (x : Ptr × ℕ) (xs : Cells) (next next' : Ptr)
    → Distinct (x ∷ xs)
    → Chain h prev (x ∷ xs) next
    → Relinked h prev (x ∷ xs) next next'
unfolding write
relink_last h prev (a, d) [] next next' ds s = record {
  cell = node d next prev;
  held = s.1;
  not_null = s.0;
  inside = ground arith;
  chain = (s.0, ground arith, tt);
}
relink_last h prev (a, d) (y ∷ ys) next next' ds s =
    let go = relink_last h a y ys next next' ds.1 s.2 in
    record {
      cell = go.cell;
      held = go.held;
      not_null = go.not_null;
      inside = ground (arith, go.inside);
      chain = (s.0, write_ne h _ _ a (ne_of_has _ a (y ∷ ys) go.inside ds.0) ∙ s.1, go.chain);
    }

pub Distinct-split : (xs ys : Cells) → Distinct (xs ++ ys) → Distinct xs × Distinct ys
Distinct-split [] ys d = (tt, d)
Distinct-split ((a, _) ∷ xs) ys d =
    let go = Distinct-split xs ys d.1 in ((ground (arith, has-append a xs ys), go.0), go.1)

pub Distinct-snoc :
    (xs : Cells) (p : Ptr) (d : ℕ) → Distinct xs → has p xs ≡ false → Distinct (xs ++ (p, d) ∷ [])
Distinct-snoc [] p d ds out = (refl, tt)
Distinct-snoc ((a, e) ∷ xs) p d ds out =
    (ground (arith, has-append a xs ((p, d) ∷ [])), Distinct-snoc xs p d ds.1 (ground arith))

pub Distinct-drop :
    (xs : Cells) (c : Ptr × ℕ) (ys : Cells) → Distinct (xs ++ c ∷ ys) → Distinct (xs ++ ys)
Distinct-drop [] c ys d = d.1
Distinct-drop ((a, e) ∷ xs) c ys d =
    (ground (arith, has-append a xs ys, has-append a xs (c ∷ ys)), Distinct-drop xs c ys d.1)

-- the middle of a list of distinct cells stands in neither part
pub apart_of_middle :
    (xs : Cells) (a d : ℕ) (ys : Cells)
    → Distinct (xs ++ (a, d) ∷ ys)
    → (has a xs ≡ false) × (has a ys ≡ false)
apart_of_middle [] a d ys ds = (refl, ds.0)
apart_of_middle ((b, e) ∷ xs) a d ys ds =
    let go = apart_of_middle xs a d ys ds.1 in
    (ground (arith, has-append b xs ((a, d) ∷ ys), go.0), go.1)

-- what stands in the second part does not stand in the first
pub apart_of_append :
    (p : Ptr) (xs ys : Cells) → Distinct (xs ++ ys) → has p ys ≡ true → has p xs ≡ false
apart_of_append p [] ys ds i = refl
apart_of_append p ((a, d) ∷ xs) ys ds i =
    ground (arith, has-append a xs ys, apart_of_append p xs ys)

pub last-append : (prev : Ptr) (xs ys : Cells) → last prev (xs ++ ys) ≡ last (last prev xs) ys
last-append prev [] ys = refl
last-append prev ((a, _) ∷ xs) ys = last-append a xs ys

pub first-append : (xs ys : Cells) (next : Ptr) → first (xs ++ ys) next ≡ first xs (first ys next)
first-append [] ys next = refl
first-append (x ∷ xs) ys next = refl

-- An address without a node stands in no chain.
pub has_of_none :
    (h : Heap) (prev : Ptr) (xs : Cells) (next p : Ptr)
    → h p ≡ none
    → Chain h prev xs next
    → has p xs ≡ false
has_of_none h prev [] next p e s = refl
has_of_none h prev ((a, d) ∷ xs) next p e s = ground (arith, has_of_none h a xs next p e s.2)

-- No chain holds NULL.
pub has-null :
    (h : Heap) (prev : Ptr) (xs : Cells) (next : Ptr) → Chain h prev xs next → has null xs ≡ false
has-null h prev [] next s = refl
has-null h prev ((a, d) ∷ xs) next s = ground (arith, has-null h a xs next s.2)

-- what stands in the first part does not stand in the second
pub apart_back :
    (p : Ptr) (xs ys : Cells) → Distinct (xs ++ ys) → has p xs ≡ true → has p ys ≡ false
apart_back p [] ys ds i = absurd (ground arith)
apart_back p ((a, d) ∷ xs) ys ds i = elim (Bool-cases (a == p)) [
  | inl e ↦
      let same : a ≡ p = ground arith in
      (has_parts p xs ys (subst (λ q. has q (xs ++ ys) ≡ false) same ds.0)).1
  | inr e ↦ apart_back p xs ys ds.1 (ground arith)
]

pub has-last : (prev : Ptr) (x : Ptr × ℕ) (xs : Cells) → has (last prev (x ∷ xs)) (x ∷ xs) ≡ true
has-last prev (a, d) [] = ground arith
has-last prev (a, d) (y ∷ ys) = ground (arith, has-last a y ys)

-- The first node of a chain takes a new predecessor.
pub relink_first :
    (h : Heap) (prev b e : ℕ) (ys : Cells) (next prev' : Ptr)
    → Distinct ((b, e) ∷ ys)
    → Chain h prev ((b, e) ∷ ys) next
    → Chain (write h b (some (node e (first ys next) prev'))) prev' ((b, e) ∷ ys) next
relink_first h prev b e ys next prev' ds s =
    (s.0, write_self h b _, Chain-frame h b ys next b _ ds.0 s.2)
