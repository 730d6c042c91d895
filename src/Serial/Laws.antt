-- ===== src/Serial/Laws.antt =====
-- A string goes out whole, whatever the port's pauses.
use fantom_os.Base.{
  ℕ, zero, suc, ◌+◌, ◌≤◌, ◌<◌, ◌≡◌, refl, List, [], ◌∷◌, map, arith, length, true, Bool-cases, inl,
  inr, if◌then◌else◌, ltb, leb, u8,
}
use fantom_os.Serial.{sent, transmit_free, send, put_char, put_str, com_of}

-- how often the port is free
abbrev pub times_free : List ℕ → ℕ
times_free [] = 0
times_free (status ∷ later) =
    if transmit_free status then times_free later + 1 else times_free later

-- what is left behind the first free status
abbrev pub after_free : List ℕ → List ℕ
after_free [] = []
after_free (status ∷ later) = if transmit_free status then later else after_free later

send_lem :
    (base c : ℕ) (ss : List ℕ)
    → 0 < times_free ss
    → (send base c ss ≡ sent ((base, u8 c) ∷ []) (after_free ss))
      × (times_free (after_free ss) + 1 ≡ times_free ss)
unfolding send
send_lem base c [] h = absurd (omega arith)
send_lem base c (status ∷ later) h = elim (Bool-cases (transmit_free status)) [
  | inl free ↦ rw free (refl, refl)
  | inr wait ↦ rw wait (send_lem base c later (rw wait at h))
]

-- what is left behind that many
abbrev pub after_frees : ℕ → List ℕ → List ℕ
after_frees zero ss = ss
after_frees (suc n) ss = after_frees n (after_free ss)

-- For a port from 1 to 4 that is free at least as often as the string has characters, sending
-- the string ends and writes each character once and in order to the port's register, at each
-- one's first free status.
pub put_str-sent :
    (cs : List ℕ) (port : ℕ) (ss : List ℕ)
    → 0 < port
    → port ≤ 4
    → length cs ≤ times_free ss
    → put_str cs port ss ≡ sent (map (λ c. (com_of port, u8 c)) cs) (after_frees (length cs) ss)
unfolding put_str put_char
put_str-sent [] port ss lo hi h = refl
put_str-sent (c ∷ cs) port ss lo hi h =
    let low : ltb 0 port ≡ true = ground arith in
    let high : leb port 4 ≡ true = ground arith in
    let one = send_lem (com_of port) c ss (omega arith) in
    rw (low, high, one.0, put_str-sent cs port (after_free ss) lo hi (omega (arith, one.1)))
