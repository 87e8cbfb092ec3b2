-- ===== src/EthIp.antt =====
-- src/base/eth_recv_send_by_ip_addr.c: packets over UDP. The system calls are parameters. `none` is a
-- fault: a pointer that is NULL, or an access outside of an array.
pub mod Laws
use monitor_node.Prelude.{
  ℕ, ltb, leb, eqb_ℤ, ltb_ℤ, ℤ, pos, error, success, Str, c_str, text_at, take, Bool, Option, none,
  some, List, [], ◌∷◌, ◌++◌, length, if◌then◌else◌, ◌>>=◌, ◌||◌,
}
use monitor_node.Initializer.Eth.{copy_network}

-- What the calls answer; `binds` is for the calls of `bind` in turn, and `recvfrom` gives -1 or the
-- bytes of the packet, 2048 at most.
pub record UdpCalls : Type 0 where
  pub socket : ℤ
  pub inet_pton : ℤ
  pub ioctl : ℤ
  pub sendto : ℤ
  pub setsockopt : ℤ
  pub binds : List ℤ
  pub recvfrom : Option (List ℕ)
  pub unset_ip_t : List ℕ

-- The code, the address, the port and the text that went out, and the sockets that are closed.
pub record Sending : Type 0 where
  pub code : ℤ
  pub out : Option (Str × ℤ × Str)
  pub closed_fds : List ℤ

unfoldable pub send_data_udp : UdpCalls → Option Str → Option Str → ℤ → Str → Option Sending
send_data_udp c ip_name ip_addr port text =
    let sock = c.socket in
    let refused : Sending = record { code = error; out = none; closed_fds = sock ∷ [] } in
    if ltb_ℤ sock (pos 0)
    then some record { code = error; out = none; closed_fds = [] }
    else ip_addr >>= λ addr.
        if ltb_ℤ c.inet_pton (pos 1)
        then some refused
        else ip_name >>= λ name. some (
            if ltb_ℤ c.ioctl (pos 0)
            then refused
            else if ltb_ℤ c.sendto (pos 0)
            then refused
            else record { code = success; out = some (addr, port, text); closed_fds = sock ∷ [] })

unfoldable pub send_packet_by_ip_addr :
    UdpCalls → Option Str → Option Str → ℤ → Option Str → Option Sending
unfolding send_data_udp
send_packet_by_ip_addr c ip_name ip_addr port none =
    some record { code = error; out = none; closed_fds = [] }
send_packet_by_ip_addr c ip_name ip_addr port (some message) =
    send_data_udp c ip_name ip_addr port message

-- A loop that still calls `bind` when the answers are used up; or the code, the bytes put in the
-- buffer, the commands for the shell, and the sockets that are closed.
pub data Getting : Type 0 where
  binding : List Str → Getting
  finished : ℤ → List ℕ → List Str → List ℤ → Getting

-- `sudo ifconfig …` and `sudo route add …`, each in an array of 256 bytes.
abbrev pub repair_commands : Str → Str → Str → List Str
repair_commands name addr ip_t =
    take 255 (c_str "sudo ifconfig " ++ (name ++ (c_str " " ++ addr)))
    ∷ take 255
        (c_str "sudo route add -net " ++ (ip_t ++ (c_str " netmask 255.255.255.0 dev " ++ name)))
    ∷ []

abbrev pub after_commands : List Str → Getting → Getting
after_commands cs (binding ds) = binding (cs ++ ds)
after_commands cs (finished code bytes ds fds) = finished code bytes (cs ++ ds) fds

abbrev pub get_packet : ℤ → Option (List ℕ) → Getting
get_packet fd none = finished error [] [] (fd ∷ [])
get_packet fd (some bytes) = finished success bytes [] (fd ∷ [])

-- The loop over the calls of `bind`.
unfoldable pub bind_loop : UdpCalls → Str → Str → List ℤ → Option Getting
bind_loop c name addr [] = some (binding [])
bind_loop c name addr (b ∷ binds) =
    let rest = bind_loop c name addr binds in
    if ltb_ℤ b (pos 0)
    then (copy_network addr 0 0 c.unset_ip_t >>= λ buffer. text_at buffer >>= λ ip_t.
        rest >>= λ g. some (after_commands (repair_commands name addr ip_t) g))
    else some (get_packet c.socket c.recvfrom)

-- A socket that cannot be made is -1, which the code takes for a socket: it looks for 0.
unfoldable pub receive_data_udp : UdpCalls → Option Str → Option Str → Option Getting
unfolding bind_loop
receive_data_udp c ip_name ip_addr =
    let refused : Getting = finished error [] [] (c.socket ∷ []) in
    if eqb_ℤ c.socket (pos 0)
    then some (finished error [] [] [])
    else if ltb_ℤ c.setsockopt (pos 0)
    then some refused
    else ip_name >>= λ name.
        if ltb_ℤ c.ioctl (pos 0)
        then some refused
        else ip_addr >>= λ addr. bind_loop c name addr c.binds
