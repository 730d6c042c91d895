-- ===== src/PhysMemHybrid/Held.antt =====
-- The pages that the callers of the allocator hold.
use fantom_os.Base.{
  ℕ, ◌*◌, ◌<◌, ◌≡◌, refl, Bool, true, false, ◌||◌, List, [], ◌∷◌, arith, ◌==◌, if◌then◌else◌,
  Bool-cases, inl, inr,
}
use fantom_os.PhysMemHybrid.{Hybrid}
use fantom_os.PhysMemHybrid.Laws.{is_free}

abbrev pub holds : ℕ → List ℕ → Bool
holds k [] = false
holds k (x ∷ xs) = (x == k) || holds k xs

abbrev pub without : ℕ → List ℕ → List ℕ
without k [] = []
without k (x ∷ xs) = if x == k then xs else x ∷ without k xs

-- Each held page is in the map, not free, and held once.
abbrev pub Held : Hybrid → List ℕ → Type 0
Held h [] = Unit {0}
Held h (k ∷ ks) =
    (k < h.bitmap.bytes * 8) × (is_free h k ≡ false) × (holds k ks ≡ false) × Held h ks

-- A held page is not free, and in the map.
pub used_of_Held :
    (h : Hybrid) (ks : List ℕ) (k : ℕ)
    → Held h ks
    → holds k ks ≡ true
    → (k < h.bitmap.bytes * 8) × (is_free h k ≡ false)
used_of_Held h [] k s e = absurd (ground arith)
used_of_Held h (x ∷ xs) k s e = elim (Bool-cases (x == k)) [
  | inl same ↦ let e : x ≡ k = ground arith in rw (← e) (s.0, s.1)
  | inr other ↦ used_of_Held h xs k s.3 (ground arith)
]

-- Held pages stay held where each of them stays used.
pub Held-mono :
    (h h' : Hybrid) (ks : List ℕ)
    → h'.bitmap ≡ h.bitmap
    → ((j : ℕ) → holds j ks ≡ true → is_free h j ≡ false → is_free h' j ≡ false)
    → Held h ks
    → Held h' ks
Held-mono h h' [] e keep s = tt
Held-mono h h' (x ∷ xs) e keep s = (
  rw e s.0,
  keep x (ground arith) s.1,
  s.2,
  Held-mono h h' xs e (λ j on. keep j (ground arith)) s.3,
)

pub holds-without : (j k : ℕ) (ks : List ℕ) → holds j ks ≡ false → holds j (without k ks) ≡ false
holds-without j k [] e = refl
holds-without j k (x ∷ xs) e = ground (arith, holds-without j k xs)

pub Held-without : (h : Hybrid) (k : ℕ) (ks : List ℕ) → Held h ks → Held h (without k ks)
Held-without h k [] s = tt
Held-without h k (x ∷ xs) s = elim (Bool-cases (x == k)) [
  | inl e ↦ rw e s.3
  | inr e ↦ rw e (s.0, s.1, holds-without x k xs s.2, Held-without h k xs s.3)
]

-- Giving back a page that is held once leaves exactly the others.
pub holds_given :
    (h : Hybrid) (j k : ℕ) (ks : List ℕ)
    → Held h ks
    → holds k ks ≡ true
    → holds j (without k ks) ≡ (if k == j then false else holds j ks)
holds_given h j k [] s e = absurd (ground arith)
holds_given h j k (x ∷ xs) s e = elim (Bool-cases (x == k)) [
  | inl same ↦ let e : x ≡ k = ground arith in rw (← e) (ground arith)
  | inr other ↦ rw other (ground (arith, holds_given h j k xs s.3))
]
