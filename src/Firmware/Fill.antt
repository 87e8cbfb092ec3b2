-- ===== src/Firmware/Fill.antt =====
-- src/firmware.c: `fillMessageToMaxMsgLen`, which puts a message into a frame of fixed size. The
-- NULL checks are those of the callers' arrays, which are never NULL. `none` is an access outside
-- of the buffer: `strlen` that finds no zero, or the `memset` whose size wrapped around.
pub mod Laws
use monitor_node.Prelude.{
  ℕ, ◌+◌, ◌-◌, ◌%◌, ◌^◌, Str, strlen, strncpy, memset_zero, store, Option, List, length, ltb,
  if◌then◌else◌, ◌>>=◌,
}

-- `max_message_len - len` in `size_t`.
abbrev pub size_diff : ℕ → ℕ → ℕ
size_diff a b = (a + 2 ^ 64 - b) % 2 ^ 64

unfoldable pub fill_message_to_max_msg_len : Str → List ℕ → ℕ → Option (List ℕ)
fill_message_to_max_msg_len message res_msg max_message_len =
    strncpy res_msg message max_message_len >>= λ copied.
    if ltb max_message_len (length message)
    then store copied max_message_len 0
    else strlen copied >>= λ len.
        memset_zero copied len (size_diff max_message_len len) >>= λ padded.
        store padded max_message_len 0
