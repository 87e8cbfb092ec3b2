-- ===== src/Rs485/Send.antt =====
-- src/base/rs485_recv_send.c: `send_packet_rs485`. What the calls of `write` answer is the list
-- `writes`, one entry for each call; it is `none` for -1. By its documentation `write` takes at most
-- the bytes that it is offered.
pub mod Laws
use monitor_node.Prelude.{
  ℕ, zero, suc, ◌+◌, min, ℤ, pos, error, Option, none, some, List, [], ◌∷◌, ◌++◌, length, take,
  drop,
}

-- `waiting` stands for a loop that goes on when the answers are used up; a function that ended has
-- its code, and the bytes that went out.
pub data Transfer : Type 0 where
  waiting : Transfer
  ended : ℤ → List ℕ → Transfer

abbrev pub after_bytes : List ℕ → Transfer → Transfer
after_bytes xs waiting = waiting
after_bytes xs (ended code ys) = ended code (xs ++ ys)

-- The loop: `rest` are the bytes from `msg + bytesWrittenTotal` on.
unfoldable pub write_loop : List (Option ℕ) → List ℕ → ℕ → Transfer
write_loop writes [] total = ended (pos total) []
write_loop [] (b ∷ rest) total = waiting
write_loop (none ∷ writes) (b ∷ rest) total = ended error []
write_loop (some n ∷ writes) (b ∷ rest) total =
    let taken = min n (length (b ∷ rest)) in
    after_bytes (take taken (b ∷ rest)) (write_loop writes (drop taken (b ∷ rest)) (total + taken))

-- `msg` is the buffer of `length` bytes, or NULL.
unfoldable pub send_packet_rs485 : List (Option ℕ) → Option (List ℕ) → Transfer
unfolding write_loop
send_packet_rs485 writes none = ended error []
send_packet_rs485 writes (some []) = ended error []
send_packet_rs485 writes (some (b ∷ msg)) = write_loop writes (b ∷ msg) 0
