-- ===== src/OneInterface/Round/Packages.antt =====
-- src/one_interface_operator.c: how many packages a tester sends in a round.
use monitor_node.Prelude.{
  Yields, ℕ, zero, suc, ◌≡◌, refl, ◌∙◌, ap, subst, ℤ, pos, negsuc, Str, c_str, strcmp_eq, some,
  List, [], ◌∷◌, All, length, set, get_elem?-set_self,
}
use monitor_node.InfoManager.{Manager, InterfaceInfo}
use monitor_node.InfoManager.Interfaces.{get_interface_index, interface_at, set_last_work_time}
use monitor_node.Firmware.Send.{Call, send_packet_by_ip_addr, Wire, sent_by, send_message}
use monitor_node.Firmware.Send.Laws.{IsOpen}
use monitor_node.OneInterface.Deal.Step.{bound}
use monitor_node.OneInterface.Round.{World, Event, sent, send_packages}
use monitor_node.OneInterface.Round.Frame.{
  Frame, get_interface_index-Frame, set_last_work_time-Frame,
}

-- The interface after its last work time was set.
worked :
    (m : Manager) (ind t : ℤ) (f : InterfaceInfo)
    → interface_at m ind ≡ some f
    → (m1 : Manager) × (set_last_work_time m ind t ≡ some m1)
      × (interface_at m1 ind ≡ some (record f { last_work_time = t }))
      × Frame m m1
worked m (negsuc i) t f e = cc
worked m (pos i) t f e =
    let g : InterfaceInfo = record f { last_work_time = t } in
    let m1 : Manager = record m { interface_info_array = set m.interface_info_array i g } in
    let s : set_last_work_time m (pos i) t ≡ some m1 = rw e in
    (
      m1,
      s,
      get_elem?-set_self m.interface_info_array i g (bound m.interface_info_array i f e),
      subst (Yields (Frame m)) s (set_last_work_time-Frame m (pos i) t),
    )

module _ (w : World) (name message : Str) (ind : ℤ) where
  -- The call that a package makes.
  abbrev pub packet_call : InterfaceInfo → Call
  packet_call f =
      send_packet_by_ip_addr f.eth_info.ip_name f.linked_eth_info.ip_addr f.linked_eth_info.port_id
        message

  abbrev pub IsPackage : Call → Event → Type 0
  IsPackage c e = (wire : Wire) × (e ≡ sent (sent_by wire c))

  -- A tester that is in the table, whose send function is `send_packet_by_ip_addr` and that is neither receiving nor closed sends all its packages
  -- in a round, each in the same call with the round's message, whatever the calls answer.
  pub send_packages_by_ip_addr :
      (n i : ℕ) (m : Manager) (f : InterfaceInfo)
      → get_interface_index m name ≡ ind
      → interface_at m ind ≡ some f
      → IsOpen f
      → f.base_send_func ≡ c_str "send_packet_by_ip_addr"
      → (m' : Manager) × (es : List Event) × (send_packages w n i ind name message m
          ≡ some (m', es))
        × (length es ≡ n)
        × All (IsPackage (packet_call f)) es
  unfolding send_packages send_message strcmp_eq
  send_packages_by_ip_addr zero i m f index e open_ func = (m, [], refl, refl, tt)
  send_packages_by_ip_addr (suc n) i m f index e open_ func =
      let (m1, s, at, k) = worked m ind (w.clock i) f e in
      let index1 : get_interface_index m1 name ≡ ind =
        get_interface_index-Frame m m1 name k ∙ index in
      let (m2, es, run, len, all) =
        send_packages_by_ip_addr n (suc i) m1 (record f { last_work_time = w.clock i }) index1 at
          open_ func in
      (
        m2,
        sent (sent_by (w.wire i) (packet_call f)) ∷ es,
        rw (e, open_.0, open_.1, s, index1, at, open_.0, open_.1, func, run),
        ap suc len,
        ((w.wire i, refl), all),
      )
