-- ===== src/OneInterface/System.antt =====
-- src/one_interface_operator.c and src/firmware.c together: the threads of a node. Each call is one
-- step, the tests and the listening of any interface, and the threads that deal with a message, which
-- run in any order.
pub mod Invariant
use monitor_node.Prelude.{ℕ, ℤ, ◌≡◌, Str, Bool, Option, none, some, List, [], ◌∷◌, ◌++◌}
use monitor_node.InfoManager.Json.{Platform}
use monitor_node.Firmware.Receive.{DealData, Line, deal_async}
use monitor_node.OneInterface.State.{Node}
use monitor_node.OneInterface.Deal.{deal_with_mnt}
use monitor_node.OneInterface.Round.{World, Event, test_upon_one_interface_in_one_time}
use monitor_node.OneInterface.Listen.{Heard, listen_upon_one_interface_in_one_time}

-- The globals, and what was handed to threads that have not run yet.
pub record System : Type 0 where
  pub node : Node
  pub pending : List DealData

abbrev pub handed_over : Option DealData → List DealData
handed_over none = []
handed_over (some d) = d ∷ []

pub data Step : System → System → Type 1 where
  tested :
      (w : World) (s s' : Node) (q : List DealData) (now : ℤ) (name : Str) (packages_num : ℕ)
      (es : List Event)
      → test_upon_one_interface_in_one_time w s now name packages_num ≡ some (s', es)
      → Step record { node = s; pending = q } record { node = s'; pending = q }
  listened :
      (is_up : Str → Bool) (l : Line) (s : Node) (q : List DealData) (now : ℤ)
      (linked_node name : Str) (h : Heard)
      → listen_upon_one_interface_in_one_time is_up l s now linked_node name ≡ some h
      → Step
          record { node = s; pending = q }
          record { node = h.node; pending = q ++ handed_over h.received.handed }
  dealt :
      (p : Platform) (unset : Str) (s s' : Node) (before after : List DealData) (d : DealData)
      (now later : ℤ) (freed : Bool)
      → deal_async (λ ln li msg t. deal_with_mnt p unset t now later ln li msg) d s
        ≡ some (s', freed)
      → Step
          record { node = s; pending = before ++ d ∷ after }
          record { node = s'; pending = before ++ after }

pub data Reach : System → System → Type 1 where
  start : (s : System) → Reach s s
  then_ : (s t u : System) → Reach s t → Step t u → Reach s u
