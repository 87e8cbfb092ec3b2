-- ===== src/EthIp/Laws.antt =====
-- Which descriptors src/base/eth_recv_send_by_ip_addr.c closes.
use monitor_node.Prelude.{
  inl, inr, Bool-cases, ℕ, ◌≡◌, refl, ltb_ℤ, eqb_ℤ, ℤ, pos, Str, text_at, Bool, true, false, Option,
  none, some, List, [], ◌∷◌, if◌then◌else◌, Yields, Yields-bind, Yields-then, Yields-if,
}
use monitor_node.Initializer.Eth.{copy_network}
use monitor_node.EthIp.{
  UdpCalls, Sending, send_data_udp, send_packet_by_ip_addr, Getting, binding, finished,
  repair_commands, after_commands, get_packet, bind_loop, receive_data_udp,
}

-- A call that finished closed the sockets, and no other.
abbrev pub Closes : List ℤ → Getting → Type 0
Closes open_ (binding cs) = Unit
Closes open_ (finished code bytes cs fds) = fds ≡ open_

-- The descriptors that are to be closed for an answer of `socket`: -1 stands for none, in the sender;
-- the receiver takes 0 for none.
abbrev pub opened_by_sender : ℤ → List ℤ
opened_by_sender fd = if ltb_ℤ fd (pos 0) then [] else fd ∷ []

abbrev pub opened_by_receiver : ℤ → List ℤ
opened_by_receiver fd = if eqb_ℤ fd (pos 0) then [] else fd ∷ []

after_commands-Closes :
    (fd : List ℤ) (cs : List Str) (g : Getting) → Closes fd g → Closes fd (after_commands cs g)
after_commands-Closes fd cs (binding ds) h = tt
after_commands-Closes fd cs (finished code bytes ds fds) h = h

get_packet-Closes : (fd : ℤ) (r : Option (List ℕ)) → Closes (fd ∷ []) (get_packet fd r)
get_packet-Closes fd none = refl
get_packet-Closes fd (some bytes) = refl

bind_loop-Closes :
    (c : UdpCalls) (name addr : Str) (binds : List ℤ)
    → Yields (Closes (c.socket ∷ [])) (bind_loop c name addr binds)
unfolding bind_loop
bind_loop-Closes c name addr [] = tt
bind_loop-Closes c name addr (b ∷ binds) =
    Yields-if _ (ltb_ℤ b (pos 0)) _ _
      (Yields-bind _ (copy_network addr 0 0 c.unset_ip_t) _ (λ buffer.
        Yields-bind _ (text_at buffer) _ (λ ip_t.
          Yields-then (Closes (c.socket ∷ [])) _ (bind_loop c name addr binds) _
            (bind_loop-Closes c name addr binds)
            (λ g h. after_commands-Closes (c.socket ∷ []) (repair_commands name addr ip_t) g h))))
      (get_packet-Closes c.socket c.recvfrom)

receive-Closes :
    (c : UdpCalls) (name addr : Option Str)
    → Yields (Closes (opened_by_receiver c.socket)) (receive_data_udp c name addr)
unfolding receive_data_udp
receive-Closes c name addr = elim (Bool-cases (eqb_ℤ c.socket (pos 0))) [
  | inl z ↦ rw z refl
  | inr z ↦ rw z (
      Yields-if _ (ltb_ℤ c.setsockopt (pos 0)) _ _ refl (
        Yields-bind _ name _ (λ n.
          Yields-if _ (ltb_ℤ c.ioctl (pos 0)) _ _ refl
            (Yields-bind _ addr _ (λ a. bind_loop-Closes c n a c.binds)))))
]

-- A sending closed the sockets, and no other.
abbrev pub Closed : List ℤ → Sending → Type 0
Closed open_ s = s.closed_fds ≡ open_

Closed-if :
    (fd : List ℤ) (b : Bool) (x y : Sending)
    → Closed fd x
    → Closed fd y
    → Closed fd (if b then x else y)
Closed-if fd true x y p q = p
Closed-if fd false x y p q = q

send-Closed :
    (c : UdpCalls) (name addr : Option Str) (port : ℤ) (text : Str)
    → Yields (Closed (opened_by_sender c.socket)) (send_data_udp c name addr port text)
unfolding send_data_udp
send-Closed c name addr port text = elim (Bool-cases (ltb_ℤ c.socket (pos 0))) [
  | inl z ↦ rw z refl
  | inr z ↦ rw z (
      Yields-bind _ addr _ (λ a. Yields-if _ (ltb_ℤ c.inet_pton (pos 1)) _ _ refl (
        Yields-bind _ name _ (λ n.
          Closed-if (c.socket ∷ []) (ltb_ℤ c.ioctl (pos 0)) _ _ refl
            (Closed-if (c.socket ∷ []) (ltb_ℤ c.sendto (pos 0)) _ _ refl refl)))))
]

-- Whatever the system calls answer, every path of the two UDP functions that comes to an end without a
-- fault closes just one descriptor, the answer of `socket`, and closes it once, with two exceptions:
-- the sender closes none when the answer is negative, and the receiver closes none when it is 0. So a
-- socket with the number 0 stays open in the receiver, and there -1 is closed.
pub udp-Closes :
    (c : UdpCalls) (name addr : Option Str) (port : ℤ) (message : Str)
    → Yields
        (Closed (opened_by_sender c.socket))
        (send_packet_by_ip_addr c name addr port (some message))
      × Yields (Closes (opened_by_receiver c.socket)) (receive_data_udp c name addr)
unfolding send_packet_by_ip_addr
udp-Closes c name addr port message =
    (send-Closed c name addr port message, receive-Closes c name addr)
