-- ===== src/MsgGenerator/Laws.antt =====
-- Which messages the generators of src/msg_generator_lib.c tell apart, and how long they are.
use monitor_node.Prelude.{
  ◌∙◌, sym, ◌≤◌, ◌≡◌, refl, ◌≢◌, ◌↔◌, ap, ◌⊎◌, inl, inr, ℤ, [], success, error, Str, c_str, name_in,
  print_int, print_int-injective, length-print_int, IsInt, true, false, none, some, ◌++◌, length,
  length-append, append-cancel_left, arith,
}
use mathlib.Core.List.{append-nil}
use monitor_node.InfoManager.{Manager}
use monitor_node.InfoManager.Interfaces.{
  get_interface_index, get_channel_id_by_index, interface_at, is_this_interface_in_current_node,
}
use monitor_node.InfoManager.Interfaces.Search.{interface_at_lem}
use monitor_node.MsgGenerator.{
  generate_eth_test_msg, generate_rs485_test_msg, generate_fpu_can_test_msg,
  generate_gpu_can_test_msg, printed, round_text, msg_generator_transfer, msg_generator_name_array,
}

-- An Ethernet message fits in the buffer when the interface's name has at most 2020 characters.
pub generate_eth_test_msg-fits :
    (name mode : Str) (round : ℤ)
    → IsInt round
    → length name ≤ 2020
    → generate_eth_test_msg name mode round ≡ some (success, round_text round name)
unfolding generate_eth_test_msg
generate_eth_test_msg-fits name mode round i h =
    ground (
      arith,
      length-print_int round i,
      length-append (print_int round) (c_str " test for " ++ name),
    )

-- The channel's message fits in the buffer.
can_fits :
    (id : ℤ)
    → IsInt id
    → printed (c_str "can" ++ print_int id) ≡ some (success, c_str "can" ++ print_int id)
can_fits id i = ground (arith, length-print_int id i)

interface_at-absent :
    (m : Manager) (name : Str)
    → is_this_interface_in_current_node m name ≡ false
    → interface_at m (get_interface_index m name) ≡ none
interface_at-absent m name e = elim (interface_at_lem m name) [ inl (h, p) ↦ cc | inr (h, p) ↦ p ]

-- The channel of an interface is an `int`.
abbrev pub HasChannel : Manager → Str → ℤ → Type 0
HasChannel m name id = (get_channel_id_by_index m (get_interface_index m name) ≡ some id) × IsInt id

-- The messages of two CAN interfaces of this node, with an `int` as their channel, are made without a
-- fault, and are the same exactly when the interfaces have the same channel, whichever of the two
-- generators makes each of them, and in whatever modes and rounds. For an interface that is not in this node's array both fault.
pub generate_can_test_msg_lem :
    (m : Manager) (name name' away mode mode' : Str) (round round' id id' : ℤ)
    → HasChannel m name id
    → HasChannel m name' id'
    → is_this_interface_in_current_node m away ≡ false
    → (text : Str) × (text' : Str) × (generate_fpu_can_test_msg m name mode round
        ≡ some (success, text))
      × (generate_gpu_can_test_msg m name mode round ≡ some (success, text))
      × (generate_fpu_can_test_msg m name' mode' round' ≡ some (success, text'))
      × (generate_gpu_can_test_msg m name' mode' round' ≡ some (success, text'))
      × ((text ≡ text') ↔ (id ≡ id'))
      × (generate_fpu_can_test_msg m away mode round ≡ none)
      × (generate_gpu_can_test_msg m away mode round ≡ none)
unfolding generate_fpu_can_test_msg generate_gpu_can_test_msg
generate_can_test_msg_lem m name name' away mode mode' round round' id id' (h, i) (h', i') absent =
    (
      c_str "can" ++ print_int id,
      c_str "can" ++ print_int id',
      rw (h, can_fits id i) refl,
      rw (h, can_fits id i) refl,
      rw (h', can_fits id' i') refl,
      rw (h', can_fits id' i') refl,
      (
        λ e.
            (print_int-injective id id' [] [] tt tt (
              append-nil (print_int id)
              ∙ append-cancel_left (c_str "can") e
              ∙ sym (append-nil (print_int id')))).0,
        λ e. ap (λ q. c_str "can" ++ print_int q) e,
      ),
      rw (interface_at-absent m away absent) refl,
      rw (interface_at-absent m away absent) refl,
    )

-- The receiver of a message finds it again: with the generator's name and the sender's, the call
-- gives the same bytes and code in the same round, whatever its buffer held and in any mode.
-- A name that no generator has is refused, and the buffer is left.
pub msg_generator_transfer_lem :
    (m : Manager) (name interface_name mode mode' : Str) (round : ℤ) (msg msg' : Str)
    → ((name_in name msg_generator_name_array ≡ false)
        × (msg_generator_transfer m name interface_name mode round msg ≡ some (error, msg)))
      ⊎ ((name_in name msg_generator_name_array ≡ true)
          × (msg_generator_transfer m name interface_name mode round msg
              ≡ msg_generator_transfer m name interface_name mode' round msg')
          × (msg_generator_transfer m name interface_name mode round msg ≢ some (error, msg)))
unfolding msg_generator_transfer name_in generate_fpu_can_test_msg generate_gpu_can_test_msg
    generate_eth_test_msg generate_rs485_test_msg
msg_generator_transfer_lem m name interface_name mode mode' round msg msg' = ground arith
