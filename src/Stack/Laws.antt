-- ===== src/Stack/Laws.antt =====
-- A stack refines a list, the top first.
use fantom_os.Base.{
  ℕ, zero, suc, ◌+◌, ◌-◌, ◌*◌, ◌^◌, Bool-cases, inl, inr, leb, ◌≤◌, ◌<◌, ◌≡◌, ◌⊎◌, refl, ap, ap₂,
  List, [], ◌∷◌, arith, ltb, length, if◌then◌else◌, u32, null,
}
use fantom_os.Memory.{Mem, IsBytes, store32, load32}
use fantom_os.Memory.Laws.{load32-store32, load32-store32_ne, store32_outside, store32-IsBytes}
use fantom_os.Stack.{Stack, slot, push, pop}

-- The storage lies in the address space, and the count within the limit.
pub record IsValid (s : Stack) : Type 0 where
  pub room : s.base + 4 * s.max_elements ≤ 2 ^ 32
  pub count : s.elements ≤ s.max_elements
  pub small : s.max_elements < 2 ^ 30

-- the `n` lowest words above `base`, the highest first
abbrev pub words : Mem → ℕ → ℕ → List ℕ
words m base zero = []
words m base (suc n) = load32 m (base + 4 * n) ∷ words m base n

abbrev pub contents : Stack → Mem → List ℕ
contents s m = words m s.base s.elements

-- the abstract stack
abbrev pub top : List ℕ → ℕ
top [] = null
top (x ∷ xs) = x

abbrev pub rest : List ℕ → List ℕ
rest [] = []
rest (x ∷ xs) = xs

length-words : (m : Mem) (base n : ℕ) → length (words m base n) ≡ n
length-words m base zero = refl
length-words m base (suc n) = ap suc (length-words m base n)

pub length-contents : (s : Stack) (m : Mem) → length (contents s m) ≡ s.elements
length-contents s m = length-words m s.base s.elements

-- A write at or above the `n`th word, or below the storage, leaves the words below.
words-store32 :
    (m : Mem) (base n a v : ℕ)
    → base + 4 * n ≤ 2 ^ 32
    → a + 4 ≤ 2 ^ 32
    → (base + 4 * n ≤ a) ⊎ (a + 4 ≤ base)
    → words (store32 m a v) base n ≡ words m base n
words-store32 m base zero a v h ha o = refl
words-store32 m base (suc n) a v h ha o =
    ap₂ ◌∷◌ (load32-store32_ne m a (base + 4 * n) v ha (omega arith) (omega arith))
      (words-store32 m base n a v (omega arith) ha (omega arith))

pub push-IsValid : {s : Stack} (m : Mem) (x : ℕ) → IsValid s → IsValid (push s m x).0
unfolding push
push-IsValid m x v = ground arith

-- On a well-formed stack a push puts a 32-bit element on top if there is room, and otherwise
-- leaves the contents as they were.
pub contents-push :
    {s : Stack} (m : Mem) (x : ℕ)
    → IsValid s
    → x < 2 ^ 32
    → let (s', m') = push s m x in
      contents s' m' ≡ (if ltb s.elements s.max_elements then x ∷ contents s m else contents s m)
unfolding push
contents-push {s} m x v hx = ground (
  arith,
  load32-store32 m (s.base + 4 * s.elements) x,
  words-store32 m s.base s.elements (s.base + 4 * s.elements) x,
)

-- Below the storage, and above it, nothing is written.
pub push_outside :
    {s : Stack} (m : Mem) (x p : ℕ)
    → IsValid s
    → (p < s.base) ⊎ (s.base + 4 * s.max_elements ≤ p)
    → (push s m x).1 p ≡ m p
unfolding push
push_outside {s} m x p v o = ground (arith, store32_outside m (s.base + 4 * s.elements) x p)

pub push-IsBytes : (s : Stack) (m : Mem) (x : ℕ) → IsBytes m → IsBytes (push s m x).1
unfolding push
push-IsBytes s m x b = elim (Bool-cases (leb (u32 (s.elements + 1)) s.max_elements)) [
  | inl e ↦ rw e (store32-IsBytes m (slot s s.elements) x b)
  | inr e ↦ rw e b
]

pub pop-IsValid : {s : Stack} (m : Mem) → IsValid s → IsValid (pop s m).1
unfolding pop
pop-IsValid m v = ground arith

-- `words` matches on `suc`, the code tests `elements == 0`.
words_of_pos :
    (m : Mem) (base n : ℕ)
    → 0 < n
    → words m base n ≡ load32 m (base + 4 * (n - 1)) ∷ words m base (n - 1)
words_of_pos m base zero h = elim h [ ]
words_of_pos m base (suc n) h = ap (λ k. load32 m (base + 4 * k) ∷ words m base k) (omega arith)

words_of_zero : (m : Mem) (base n : ℕ) → n ≡ 0 → words m base n ≡ []
words_of_zero m base zero h = refl
words_of_zero m base (suc n) h = absurd (omega arith)

-- On a well-formed stack a pop returns the top element and leaves the rest, and returns NULL on
-- an empty stack.
pub contents-pop :
    {s : Stack} (m : Mem)
    → IsValid s
    → let (x, s') = pop s m in (x ≡ top (contents s m)) × (contents s' m ≡ rest (contents s m))
unfolding pop
contents-pop {s} m v =
    ground (arith, words_of_pos m s.base s.elements, words_of_zero m s.base s.elements)

-- On a well-formed stack with room, a pop behind a push returns the 32-bit element and the stack
-- from before.
pub pop-push :
    {s : Stack} (m : Mem) (x : ℕ)
    → IsValid s
    → s.elements < s.max_elements
    → x < 2 ^ 32
    → let (s', m') = push s m x in pop s' m' ≡ (x, s)
unfolding push pop
pop-push {s} m x v h hx = ground (arith, load32-store32 m (s.base + 4 * s.elements) x)

-- The contents depend only on the bytes of the storage.
pub words_frame :
    (m m' : Mem) (base n : ℕ)
    → base + 4 * n ≤ 2 ^ 32
    → ((p : ℕ) → base ≤ p → m' p ≡ m p)
    → words m' base n ≡ words m base n
unfolding load32
words_frame m m' base zero h same = refl
words_frame m m' base (suc n) h same =
    ap₂ ◌∷◌
      (ground (
        arith,
        same (base + 4 * n),
        same (u32 (base + 4 * n + 1)),
        same (u32 (base + 4 * n + 2)),
        same (u32 (base + 4 * n + 3)),
      ))
      (words_frame m m' base n (omega arith) same)

-- A push moves neither the storage nor the limit.
pub base-push : (s : Stack) (m : Mem) (x : ℕ) → (push s m x).0.base ≡ s.base
unfolding push
base-push s m x = ground arith

pub contents-push_room :
    {s : Stack} (m : Mem) (x : ℕ)
    → IsValid s
    → s.elements < s.max_elements
    → x < 2 ^ 32
    → let (s', m') = push s m x in contents s' m' ≡ x ∷ contents s m
contents-push_room {s} m x v h hx = ground (arith, contents-push m x v hx)

pub pop_pos :
    (s : Stack) (m : Mem)
    → IsValid s
    → 0 < s.elements
    → contents s m ≡ (pop s m).0 ∷ contents (pop s m).1 m
unfolding pop
pop_pos s m v h = ground (arith, words_of_pos m s.base s.elements)

pub base-pop : (s : Stack) (m : Mem) → (pop s m).1.base ≡ s.base
unfolding pop
base-pop s m = ground arith

pub contents_of_empty : (s : Stack) (m : Mem) → s.elements ≡ 0 → contents s m ≡ []
contents_of_empty s m e = words_of_zero m s.base s.elements e
