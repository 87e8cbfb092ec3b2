-- ===== src/Can/Gpu.antt =====
-- src/base/can_gpu_recv_send.c: the system calls are parameters. `none` is a write outside of an
-- array. The buffer `msg` has `length` bytes, and is not NULL.
pub mod Laws
use monitor_node.Prelude.{
  ℕ, ◌%◌, ltb, eqb_ℤ, ltb_ℤ, ℤ, pos, error, success, Bool, true, false, Option, none, some, List,
  [], ◌∷◌, ◌++◌, take, drop, replicate, if◌then◌else◌,
}
use monitor_node.Can.Fpu.{capped}

-- `read` gives -1, or the data bytes of a frame, eight at most; `write` tells whether the whole frame went.
pub record CanCalls : Type 0 where
  pub socket : ℤ
  pub ioctl : ℤ
  pub bind : ℤ
  pub select : ℤ
  pub read : Option (List ℕ)
  pub written : Bool

-- The code, the data bytes of the frame that was given to `write`, and the sockets that are closed.
pub record CanSent : Type 0 where
  pub code : ℤ
  pub frame_data : Option (List ℕ)
  pub closed_fds : List ℤ

-- `frame.data`, which is cleared before the bytes are put there.
abbrev pub frame_data_of : List ℕ → List ℕ
frame_data_of bytes = take 8 (bytes ++ replicate 8 0)

-- The length of the data, `can_dlc`, is an `unsigned char`.
unfoldable pub send_packet_can_gpu : CanCalls → List ℕ → ℕ → Option CanSent
send_packet_can_gpu c msg len =
    let refused : CanSent = record {
      code = error;
      frame_data = none;
      closed_fds = c.socket ∷ [];
    } in
    let can_dlc = len % 256 in
    let sent_data = frame_data_of (take can_dlc msg) in
    if ltb_ℤ c.socket (pos 0)
    then some record { code = error; frame_data = none; closed_fds = [] }
    else if ltb_ℤ c.ioctl (pos 0)
    then some refused
    else if ltb_ℤ c.bind (pos 0)
    then some refused
    else if ltb 8 can_dlc
    then none
    else if c.written
    then some record { code = success; frame_data = some sent_data; closed_fds = c.socket ∷ [] }
    else some record { code = error; frame_data = some sent_data; closed_fds = [] }

-- The globals `can0RecvArray` and `can1RecvArray`, of 1024 bytes.
pub record Arrays : Type 0 where
  pub can0_recv_array : List ℕ
  pub can1_recv_array : List ℕ

-- `can0Recv` and `can1Recv`: whether they succeed, the array, and the sockets that are closed. The
-- second closes -1 when there is no socket.
pub record Read : Type 0 where
  pub ok : Bool
  pub array : List ℕ
  pub closed_fds : List ℤ

unfoldable pub can_recv : CanCalls → List ℤ → List ℕ → Read
can_recv c closed_at_socket array =
    let refused : Read = record { ok = false; array = array; closed_fds = c.socket ∷ [] } in
    if ltb_ℤ c.socket (pos 0)
    then record { ok = false; array = array; closed_fds = closed_at_socket }
    else if ltb_ℤ c.ioctl (pos 0)
    then refused
    else if ltb_ℤ c.bind (pos 0)
    then refused
    else if ltb_ℤ (pos 0) c.select
    then read_frame c.read
    else refused
  where
    read_frame : Option (List ℕ) → Read
    read_frame none = record { ok = false; array = array; closed_fds = c.socket ∷ [] }
    read_frame (some bytes) = record {
      ok = true;
      array = frame_data_of bytes ++ drop 8 array;
      closed_fds = c.socket ∷ [];
    }

-- `memset(can0RecvArray, 0x0, sizeof(can0RecvArray))`
unfoldable pub cleared : List ℕ
cleared = replicate 1024 0

-- The code, the bytes put in `msg`, the arrays, and the sockets that are closed.
pub record CanGot : Type 0 where
  pub code : ℤ
  pub msg : Option (List ℕ)
  pub arrays : Arrays
  pub closed_fds : List ℤ

unfoldable pub receive_packet_can_gpu : CanCalls → Arrays → ℤ → ℕ → CanGot
unfolding can_recv
receive_packet_can_gpu c a can_id length_ =
    let r0 = can_recv c [] a.can0_recv_array in
    let r1 = can_recv c (c.socket ∷ []) a.can1_recv_array in
    if eqb_ℤ can_id (pos 0)
    then (if r0.ok
        then record {
          code = success;
          msg = some (take (capped length_) r0.array);
          arrays = record a { can0_recv_array = cleared };
          closed_fds = r0.closed_fds;
        }
        else record {
          code = error;
          msg = none;
          arrays = record a { can0_recv_array = r0.array };
          closed_fds = r0.closed_fds;
        })
    else if r1.ok
    then record {
      code = success;
      msg = some (take (capped length_) r1.array);
      arrays = record a { can1_recv_array = cleared };
      closed_fds = r1.closed_fds;
    }
    else record {
      code = error;
      msg = none;
      arrays = record a { can1_recv_array = r1.array };
      closed_fds = r1.closed_fds;
    }
