-- ===== src/Debug/Reverse.antt =====
-- The loop that turns a string round in place.
use fantom_os.Base.{
  ℕ, zero, suc, ◌+◌, ◌-◌, ◌*◌, ◌≤◌, ◌<◌, ◌≡◌, ◌≢◌, ◌⊎◌, ◌∙◌, ap, inl, inr, refl, arith,
}
use fantom_os.Debug.{Buffer, store, exchange, reverse_string}

exchange_ends :
    (b : Buffer) (pos c j : ℕ)
    → c < pos
    → (j ≡ c) ⊎ (j ≡ pos - 1 - c)
    → exchange b pos c j ≡ b (pos - 1 - j)
unfolding exchange store
exchange_ends b pos c j h at = elim at [
  | inl e ↦ rw e (ground (arith, h))
  | inr e ↦ let back : pos - 1 - (pos - 1 - c) ≡ c = omega (arith, h) in rw (e, back) (ground arith)
]

exchange_other : (b : Buffer) (pos c j : ℕ) → j ≢ c → j ≢ pos - 1 - c → exchange b pos c j ≡ b j
unfolding exchange store
exchange_other b pos c j h h' = ground (arith, h, h')

reverse_string_outside :
    (n : ℕ) (b : Buffer) (pos c j : ℕ)
    → 2 * (c + n) ≤ pos
    → (j < c) ⊎ (pos ≤ j + c)
    → reverse_string n b pos c j ≡ b j
unfolding reverse_string
reverse_string_outside zero b pos c j room out = refl
reverse_string_outside (suc n) b pos c j room out =
    reverse_string_outside n (exchange b pos c) pos (c + 1) j (omega (arith, room))
      (ground (arith, out))
    ∙ exchange_other b pos c j (ground (arith, out, room)) (ground (arith, out, room))

places :
    (pos c j : ℕ)
    → c ≤ j
    → j + c < pos
    → ((j ≡ c) ⊎ (j ≡ pos - 1 - c)) ⊎ ((c + 1 ≤ j) × (j + (c + 1) < pos))
places pos c j low high = ground arith

pub reverse_string_inside :
    (n : ℕ) (b : Buffer) (pos c j : ℕ)
    → 2 * (c + n) ≤ pos
    → pos ≤ 2 * (c + n) + 1
    → c ≤ j
    → j + c < pos
    → reverse_string n b pos c j ≡ b (pos - 1 - j)
unfolding reverse_string
reverse_string_inside zero b pos c j room all low high = ap b (omega (arith, room, all, low, high))
reverse_string_inside (suc n) b pos c j room all low high = elim (places pos c j low high) [
  | inl ends ↦
      reverse_string_outside n (exchange b pos c) pos (c + 1) j (omega (arith, room))
        (ground (arith, ends, room))
      ∙ exchange_ends b pos c j (omega (arith, room)) ends
  | inr (low', high') ↦
      reverse_string_inside n (exchange b pos c) pos (c + 1) j (omega (arith, room))
        (omega (arith, all)) low' high'
      ∙ exchange_other b pos c (pos - 1 - j) (omega (arith, low', high'))
          (omega (arith, low', high'))
]
