-- ===== src/Ps2/Laws.antt =====
-- A poll ends.
use fantom_os.Base.{
  ℕ, zero, suc, ◌+◌, ◌≤◌, ◌<◌, ◌≡◌, ◌⊎◌, inl, inr, refl, ap, ◌∙◌, Bool, true, false, Bool-cases,
  arith, ◌==◌,
}
use fantom_os.Ps2.{poll, in_poll, in_busy}

-- A poll of at most `c + 1` reads from `t` on ended at `t'`: before its last read the device was
-- busy each time, and at the last it was free or the counter had run out.
pub record Polled (c : ℕ) (busy : ℕ → Bool) (t t' : ℕ) : Type 0 where
  pub last : ℕ
  pub ends : t' ≡ last + 1
  pub starts : t ≤ last
  pub bounded : last ≤ t + c
  pub waited : (k : ℕ) → t ≤ k → k < last → busy k ≡ true
  pub done : (busy last ≡ false) ⊎ (last ≡ t + c)

poll-Polled : (c : ℕ) (busy : ℕ → Bool) (t : ℕ) → Polled c busy t (poll c busy t)
unfolding poll
poll-Polled zero busy t = record {
  last = t;
  ends = refl;
  starts = omega arith;
  bounded = omega arith;
  waited = λ k a b. absurd (omega arith);
  done = inr (omega arith);
}
poll-Polled (suc c) busy t = elim (Bool-cases (busy t)) [
  | inl again ↦
      let go = poll-Polled c busy (t + 1) in
      record {
        last = go.last;
        ends = rw again go.ends;
        starts = omega (arith, go.starts);
        bounded = omega (arith, go.bounded);
        waited = λ k a b. elim (Bool-cases (k == t)) [
          | inl now ↦ let same : k ≡ t = ground arith in ap busy same ∙ again
          | inr later ↦ go.waited k (ground arith) b
        ];
        done = ground (arith, go.done);
      }
  | inr free ↦ record {
    last = t;
    ends = rw free;
    starts = omega arith;
    bounded = omega arith;
    waited = λ k a b. absurd (omega arith);
    done = inl free;
  }
]

pub in_poll-Polled : (status : ℕ → ℕ) (t : ℕ) → Polled 100000 (in_busy status) t (in_poll status t)
unfolding in_poll
in_poll-Polled status t = poll-Polled 100000 (in_busy status) t
