-- ===== src/Rs485/Receive.antt =====
-- src/base/rs485_recv_send.c: `receive_packet_rs485`. What the calls of `select` and `read` answer is
-- the list `answers`, one entry for each round of the loop. By its documentation `read` gives at
-- most the bytes that it is asked for. The buffer `msg` has `length` bytes.
pub mod Laws
use monitor_node.Prelude.{
  ℕ, zero, suc, ◌+◌, ◌-◌, ◌==◌, ℤ, pos, error, Bool, true, false, Option, none, some, List, [], ◌∷◌,
  ◌++◌, length, take, replicate, if◌then◌else◌,
}

-- `select` gives 0 or -1, or `read` gives -1, or the bytes that it found.
pub data Answer : Type 0 where
  timed_out : Answer
  select_failed : Answer
  read_failed : Answer
  bytes : List ℕ → Answer

-- A loop that goes on when the answers are used up, or the code and the buffer.
pub data Reception : Type 0 where
  pending : Reception
  received : ℤ → List ℕ → Reception

-- The buffer, cleared at first, with the bytes that were read.
abbrev pub buffer_of : ℕ → List ℕ → List ℕ
buffer_of length_ got = got ++ replicate (length_ - length got) 0

-- After the loop: nothing read is a timeout.
abbrev pub finish : ℕ → List ℕ → Reception
finish length_ got =
    received (if length got == 0 then error else pos (length got)) (buffer_of length_ got)

-- The loop, with the bytes that were read so far, and whether any were.
unfoldable pub read_loop : List Answer → ℕ → ℕ → Bool → List ℕ → Reception
read_loop answers length_ zero started got = finish length_ got
read_loop [] length_ (suc room) started got = pending
read_loop (timed_out ∷ answers) length_ (suc room) started got = finish length_ got
read_loop (select_failed ∷ answers) length_ (suc room) started got =
    received error (buffer_of length_ got)
read_loop (read_failed ∷ answers) length_ (suc room) started got =
    received error (buffer_of length_ got)
read_loop (bytes [] ∷ answers) length_ (suc room) true got = finish length_ got
read_loop (bytes [] ∷ answers) length_ (suc room) false got =
    read_loop answers length_ (suc room) false got
read_loop (bytes (x ∷ xs) ∷ answers) length_ (suc room) started got =
    let chunk = take (suc room) (x ∷ xs) in
    read_loop answers length_ (suc room - length chunk) true (got ++ chunk)

unfoldable pub receive_packet_rs485 : List Answer → Option ℕ → Reception
unfolding read_loop
receive_packet_rs485 answers none = received error []
receive_packet_rs485 answers (some zero) = received (pos 0) []
receive_packet_rs485 answers (some (suc n)) = read_loop answers (suc n) (suc n) false []
