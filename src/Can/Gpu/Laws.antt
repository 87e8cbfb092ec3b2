-- ===== src/Can/Gpu/Laws.antt =====
-- That the CAN driver of src/base/can_gpu_recv_send.c leaves no data behind.
use monitor_node.Prelude.{
  ℕ, ◌≡◌, refl, eqb_ℤ, ltb_ℤ, ℤ, pos, error, success, Bool, true, false, none, some, List, [], ◌∷◌,
  ◌++◌, take, drop, ◌⊎◌, inl, inr, if◌then◌else◌, Bool-cases, Option-cases,
}
use monitor_node.Can.Fpu.{capped}
use monitor_node.Can.Gpu.{
  CanCalls, Arrays, Read, can_recv, cleared, frame_data_of, CanGot, receive_packet_can_gpu,
}

abbrev pub AreCleared : Arrays → Type 0
AreCleared a = (a.can0_recv_array ≡ cleared) × (a.can1_recv_array ≡ cleared)

-- A reading succeeds with the frame of this call, or leaves the array.
abbrev pub ReadsNew : CanCalls → List ℕ → Read → Type 0
ReadsNew c array r =
    ((r.ok ≡ true)
      × ((bytes : List ℕ) × (c.read ≡ some bytes)
          × (r.array ≡ frame_data_of bytes ++ drop 8 array)))
    ⊎ ((r.ok ≡ false) × (r.array ≡ array))

ReadsNew-if :
    (c : CanCalls) (array : List ℕ) (b : Bool) (x y : Read)
    → ReadsNew c array x
    → ReadsNew c array y
    → ReadsNew c array (if b then x else y)
ReadsNew-if c array true x y p q = p
ReadsNew-if c array false x y p q = q

can_recv-ReadsNew :
    (c : CanCalls) (fds : List ℤ) (array : List ℕ) → ReadsNew c array (can_recv c fds array)
unfolding can_recv
can_recv-ReadsNew c fds array =
    ReadsNew-if c array (ltb_ℤ c.socket (pos 0)) _ _ (inr (refl, refl)) (
      ReadsNew-if c array (ltb_ℤ c.ioctl (pos 0)) _ _ (inr (refl, refl)) (
        ReadsNew-if c array (ltb_ℤ c.bind (pos 0)) _ _ (inr (refl, refl)) (
          ReadsNew-if c array (ltb_ℤ (pos 0) c.select) _ _
            (elim (Option-cases c.read) [
              | inl e ↦ rw e (inr (refl, refl))
              | inr (bytes, e) ↦ rw e (inl (refl, (bytes, refl, refl)))
            ])
            (inr (refl, refl)))))

-- The arrays are cleared, and the code is 0 with the data of this call's frame, or -1 without data.
abbrev pub GotNew : CanCalls → ℕ → CanGot → Type 0
GotNew c len g =
    AreCleared g.arrays
    × (((g.code ≡ success)
          × ((bytes : List ℕ) × (c.read ≡ some bytes)
              × (g.msg ≡ some (take len (frame_data_of bytes ++ drop 8 cleared)))))
        ⊎ ((g.code ≡ error) × (g.msg ≡ none)))

-- On either channel, when the two arrays are cleared before a reception they are cleared after it,
-- and the reception gives the code 0 with the data of the frame that it read itself, as far as the
-- length asked for and eight bytes at most, or the code -1 and no data: no data of an earlier frame
-- is given, on either channel.
pub receive_packet_can_gpu-GotNew :
    (c : CanCalls) (a : Arrays) (can_id : ℤ) (length_ : ℕ)
    → AreCleared a
    → GotNew c (capped length_) (receive_packet_can_gpu c a can_id length_)
unfolding receive_packet_can_gpu
receive_packet_can_gpu-GotNew c a can_id length_ (z0, z1) =
    elim (Bool-cases (eqb_ℤ can_id (pos 0))) [
      | inl e ↦ elim (can_recv-ReadsNew c [] a.can0_recv_array) [
        | inl (k, (bytes, r, v)) ↦ rw (e, k) ((refl, z1), inl (refl, (bytes, r, rw (v, z0) refl)))
        | inr (k, v) ↦ rw (e, k) ((rw v z0, z1), inr (refl, refl))
      ]
      | inr e ↦ elim (can_recv-ReadsNew c (c.socket ∷ []) a.can1_recv_array) [
        | inl (k, (bytes, r, v)) ↦ rw (e, k) ((z0, refl), inl (refl, (bytes, r, rw (v, z1) refl)))
        | inr (k, v) ↦ rw (e, k) ((z0, rw v z1), inr (refl, refl))
      ]
    ]
