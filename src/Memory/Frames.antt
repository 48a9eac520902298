-- ===== src/Memory/Frames.antt =====
-- The frame bitmap of memoria/src/paginacion.c: which frames are free, and how many.
use ronaldinh_os_sistemas_op.Common.{
  ℕ, zero, suc, ◌+◌, ◌≤◌, ◌<◌, ◌≡◌, refl, List, ◌∷◌, false, arith, ltb, if◌then◌else◌, length,
}
use ronaldinh_os_sistemas_op.Common.Bits.{Bitarray}
use ronaldinh_os_sistemas_op.Memory.State.{
  Memory, free_from, find_free_frames, count_free, page_availability,
}

module _ {B : Type 0} ⦃ba : Bitarray B⦄ where
  -- 1 for a frame of the memory that is in use, and 0 for any other number.
  abbrev pub used : Memory B → ℕ → ℕ
  used m f = if ltb f m.cant_frames then (if ba.test_bit m.bits f then 1 else 0) else 0

  count_free-length :
      (bits : B) (base left acc : ℕ)
      → count_free bits base left acc ≡ acc + length (free_from bits base left)
  unfolding count_free free_from
  count_free-length bits base zero acc = omega arith
  count_free-length bits base (suc left) acc = ground (
    arith,
    count_free-length bits (base + 1) left acc,
    count_free-length bits (base + 1) left (acc + 1),
  )

  -- `pageAvailability` counts what `findFreeFrames` lists.
  pub page_availability-length : (m : Memory B) → page_availability m ≡ length (find_free_frames m)
  unfolding page_availability find_free_frames
  page_availability-length m = omega (arith, count_free-length m.bits 0 m.cant_frames 0)

  -- The first free frame is free and in range.
  free_from-head :
      (bits : B) (base left f : ℕ) (rest : List ℕ)
      → free_from bits base left ≡ f ∷ rest
      → (ba.test_bit bits f ≡ false) × (base ≤ f) × (f < base + left)
  unfolding free_from
  free_from-head bits base zero f rest e = cc
  free_from-head bits base (suc left) f rest e =
      ground (arith, free_from-head bits (base + 1) left f rest)

  pub find_free_frames-head :
      (m : Memory B) (f : ℕ) (rest : List ℕ)
      → find_free_frames m ≡ f ∷ rest
      → (ba.test_bit m.bits f ≡ false) × (f < m.cant_frames)
  unfolding find_free_frames
  find_free_frames-head m f rest e =
      let h = free_from-head m.bits 0 m.cant_frames f rest e in (h.0, omega arith)

  free_from-set_below :
      (bits : B) (base left f : ℕ)
      → f < base
      → free_from (ba.set_bit bits f) base left ≡ free_from bits base left
  unfolding free_from
  free_from-set_below bits base zero f h = refl
  free_from-set_below bits base (suc left) f h =
      ground (arith, free_from-set_below bits (base + 1) left f, ba.test-set bits f base)

  free_from-set :
      (bits : B) (base left f : ℕ) (rest : List ℕ)
      → free_from bits base left ≡ f ∷ rest
      → free_from (ba.set_bit bits f) base left ≡ rest
  unfolding free_from
  free_from-set bits base zero f rest e = cc
  free_from-set bits base (suc left) f rest e = ground (
    arith,
    free_from-set bits (base + 1) left f rest,
    free_from-set_below bits (base + 1) left f,
    ba.test-set bits f base,
    free_from-head bits (base + 1) left f rest,
  )

  -- Taking the first free frame leaves the other free frames, in order.
  pub find_free_frames-set :
      (m : Memory B) (f : ℕ) (rest : List ℕ)
      → find_free_frames m ≡ f ∷ rest
      → free_from (ba.set_bit m.bits f) 0 m.cant_frames ≡ rest
  unfolding find_free_frames
  find_free_frames-set m f rest e = free_from-set m.bits 0 m.cant_frames f rest e
