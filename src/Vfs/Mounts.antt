-- ===== src/Vfs/Mounts.antt =====
-- Mount letters.
use fantom_os.Base.{
  ℕ, ◌+◌, ◌≤◌, ◌<◌, ◌≡◌, refl, true, false, Bool, ◌||◌, [], ◌∷◌, ◌++◌, arith, ◌==◌, length,
  Bool-cases, inl, inr, if◌then◌else◌, null,
}
use fantom_os.Vfs.{Device, Mounts, next_id_from, next_mount_id, has_root, mount, unmount}

-- the letters run on from `c`
abbrev pub Consecutive : ℕ → Mounts → Type 0
Consecutive c [] = Unit {0}
Consecutive c (d ∷ ds) = (d.mount_id ≡ c) × Consecutive (c + 1) ds

-- a letter that some device has
abbrev pub in_use : ℕ → Mounts → Bool
in_use c [] = false
in_use c (d ∷ ds) = (d.mount_id == c) || in_use c ds

next_id_lem :
    (c : ℕ) (ds : Mounts)
    → Consecutive c ds
    → c + length ds ≤ 90
    → next_id_from c ds ≡ c + length ds
unfolding next_id_from
next_id_lem c [] s h = omega arith
next_id_lem c (d ∷ ds) s h = ground (arith, next_id_lem (c + 1) ds s.1)

next_id_full :
    (c : ℕ) (ds : Mounts)
    → Consecutive c ds
    → c ≤ 90
    → 90 < c + length ds
    → next_id_from c ds ≡ null
unfolding next_id_from
next_id_full c [] s a h = absurd (omega arith)
next_id_full c (d ∷ ds) s a h = ground (arith, next_id_full (c + 1) ds s.1)

Consecutive-snoc :
    (c : ℕ) (ds : Mounts) (d : Device)
    → Consecutive c ds
    → d.mount_id ≡ c + length ds
    → Consecutive c (ds ++ d ∷ [])
Consecutive-snoc c [] d s e = (omega arith, tt)
Consecutive-snoc c (x ∷ ds) d s e = (s.0, Consecutive-snoc (c + 1) ds d s.1 (omega arith))

not_in_use : (c e : ℕ) (ds : Mounts) → Consecutive c ds → c + length ds ≤ e → in_use e ds ≡ false
not_in_use c e [] s h = refl
not_in_use c e (d ∷ ds) s h = ground (arith, not_in_use (c + 1) e ds s.1)

-- What a mount that succeeds has done: the device has the next letter, which no mounted device has,
-- and stands at the end, so that the letters still run on.
pub record Mounted (device : Device) (mounts : Mounts) (r : Bool × Device × Mounts) : Type 0 where
  pub done : r.0 ≡ true
  pub named : r.1 ≡ record device { mount_id = b'C' + length mounts }
  pub mounts_after : r.2 ≡ mounts ++ r.1 ∷ []
  pub unused : in_use r.1.mount_id mounts ≡ false
  pub consecutive : Consecutive b'C' r.2

-- While the mount letters run on from 'C' and fewer than 24 are taken, mounting a device with a
-- new root succeeds, gives it the next letter, which no mounted device has, and puts it at the
-- end.
pub mount-Mounted :
    (device : Device) (mounts : Mounts)
    → Consecutive b'C' mounts
    → length mounts < 24
    → has_root device.root_node mounts ≡ false
    → Mounted device mounts (mount device mounts)
unfolding mount next_mount_id
mount-Mounted device mounts s few new =
    let letter = next_id_lem b'C' mounts s (omega arith) in
    let there : (b'C' + length mounts == null) ≡ false = ground arith in
    rw (letter, there, new)
      (record {
        done = refl;
        named = refl;
        mounts_after = refl;
        unused = not_in_use b'C' _ mounts s (omega arith);
        consecutive = Consecutive-snoc b'C' mounts _ s refl;
      })

-- With the letters running on from 'C' and all 24 taken, mounting refuses and changes neither
-- the device nor the mounts.
pub mount_full :
    (device : Device) (mounts : Mounts)
    → Consecutive b'C' mounts
    → 24 ≤ length mounts
    → mount device mounts ≡ (false, device, mounts)
unfolding mount next_mount_id
mount_full device mounts s full = rw (next_id_full b'C' mounts s (omega arith) (omega arith))

-- the devices that have another letter
abbrev pub others : ℕ → Mounts → Mounts
others id [] = []
others id (d ∷ ds) = if d.mount_id == id then others id ds else d ∷ others id ds

others_id : (id : ℕ) (ds : Mounts) → in_use id ds ≡ false → others id ds ≡ ds
others_id id [] h = refl
others_id id (d ∷ ds) h = ground (arith, others_id id ds)

-- the letter stands at most once
abbrev pub Once : ℕ → Mounts → Type 0
Once id [] = Unit {0}
Once id (d ∷ ds) = if d.mount_id == id then in_use id ds ≡ false else Once id ds

-- If a letter was given at most once, unmounting reports whether a device had the letter and
-- leaves just the devices with other letters, in their order.
pub unmount-others :
    (id : ℕ) (mounts : Mounts)
    → Once id mounts
    → unmount id mounts ≡ (in_use id mounts, others id mounts)
unfolding unmount
unmount-others id [] o = refl
unmount-others id (d ∷ ds) o = elim (Bool-cases (d.mount_id == id)) [
  | inl e ↦ rw (e, others_id id ds (rw e at o))
  | inr e ↦ rw (e, unmount-others id ds (rw e at o))
]
