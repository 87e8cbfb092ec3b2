-- ===== src/Firmware/Receive/Laws.antt =====
-- What `receive_message` of src/firmware.c hands to a thread, and that nothing else is handed over.
use monitor_node.Prelude.{
  ◌≡◌, refl, ◌⊎◌, inl, inr, ℤ, pos, eqb_ℤ, ltb_ℤ, error, success, Str, strcmp_eq, text_at, true,
  false, ◌||◌, Option, none, some, Bool-cases, Option-cases, ap, ◌∙◌, Yields, Yields-bind_known,
  Yields-if_known,
}
use monitor_node.InfoManager.{Manager}
use monitor_node.InfoManager.Interfaces.{
  get_interface_index, get_interface_status_by_index, get_base_receive_func_by_index,
}
use monitor_node.StatusChooser.{sending, closed}
use monitor_node.Firmware.Receive.{
  Listening, DealData, Received, Line, receive_by, call_by_func, receive_call, receive_message,
}

-- The message came from a call that did not fail, and a thread was made for it.
pub record Arrived (l : Line) (c : Listening) (msg : Str) : Type 0 where
  pub came : ltb_ℤ (l.answer c).0 (pos 0) ≡ false
  pub is_text : text_at (l.answer c).1 ≡ some msg
  pub thread : eqb_ℤ l.creates (pos 0) ≡ true

-- What is handed over for a message.
abbrev pub data_of : Str → Str → Str → DealData
data_of linked_node name msg = record {
  linked_node = some linked_node;
  listened_interface = some name;
  msg = some msg;
}

-- The call that `receive_message` makes for the interface, which is there and neither sending nor
-- closed: the one that its receive function names.
pub record Chosen (m : Manager) (name : Str) (wait : ℤ) (c : Listening) : Type 0 where
  pub status : Str
  pub func : Str
  pub status_is : get_interface_status_by_index m (get_interface_index m name) ≡ some status
  pub may_receive : (strcmp_eq status sending || strcmp_eq status closed) ≡ false
  pub func_is : get_base_receive_func_by_index m (get_interface_index m name) ≡ some func
  pub chosen : call_by_func m (get_interface_index m name) func wait ≡ some (some c)

-- The interface is there, and it is sending or closed.
pub record Silent (m : Manager) (name : Str) : Type 0 where
  pub status : Str
  pub status_is : get_interface_status_by_index m (get_interface_index m name) ≡ some status
  pub is_silent : (strcmp_eq status sending || strcmp_eq status closed) ≡ true

-- The interface is there and may receive, and its receive function is none of those that are known.
pub record Unknown (m : Manager) (name : Str) (wait : ℤ) : Type 0 where
  pub status : Str
  pub func : Str
  pub status_is : get_interface_status_by_index m (get_interface_index m name) ≡ some status
  pub may_receive : (strcmp_eq status sending || strcmp_eq status closed) ≡ false
  pub func_is : get_base_receive_func_by_index m (get_interface_index m name) ≡ some func
  pub unknown : call_by_func m (get_interface_index m name) func wait ≡ some none

-- The call failed, or it gave a text and no thread could be made for it.
pub data Failed (l : Line) (c : Listening) : Type 0 where
  call_failed : ltb_ℤ (l.answer c).0 (pos 0) ≡ true → Failed l c
  no_thread : ltb_ℤ (l.answer c).0 (pos 0) ≡ false → eqb_ℤ l.creates (pos 0) ≡ false → Failed l c

module _ (l : Line) (m : Manager) (linked_node name : Str) (wait : ℤ) where
  -- Nothing is handed over and the code is -1, for an interface that is sending or closed or a call
  -- that came to nothing; or there is no code, for an unknown receive function; or a message that
  -- arrived by the call is handed over, with the code 0.
  abbrev pub HandsOver : Received → Type 0
  HandsOver r =
      ((r.handed ≡ none)
        × (r.code ≡ some error)
        × (Silent m name ⊎ ((c : Listening) × Chosen m name wait c × Failed l c)))
      ⊎ (((r.handed ≡ none) × (r.code ≡ none) × Unknown m name wait)
          ⊎ ((r.code ≡ some success)
              × ((c : Listening) × (msg : Str) × Chosen m name wait c
                  × (Arrived l c msg × (r.handed ≡ some (data_of linked_node name msg))))))

  receive_by-HandsOver :
      (c : Listening) → Chosen m name wait c → Yields HandsOver (receive_by l linked_node name c)
  unfolding receive_by
  receive_by-HandsOver c may = elim (Bool-cases (ltb_ℤ (l.answer c).0 (pos 0))) [
    | inl e ↦ rw e (inl (refl, refl, inr (c, may, call_failed e)))
    | inr e ↦ elim (Option-cases (text_at (l.answer c).1)) [
      | inl t ↦ rw (e, t) tt
      | inr (msg, t) ↦ elim (Bool-cases (eqb_ℤ l.creates (pos 0))) [
        | inl k ↦
            rw (e, t, k)
              (inr
                (inr (refl, (c, msg, may, (record { came = e; is_text = t; thread = k }, refl)))))
        | inr k ↦ rw (e, t, k) (inl (refl, refl, inr (c, may, no_thread e k)))
      ]
    ]
  ]

  receive_call-HandsOver :
      (c : Option Listening)
      → ((d : Listening) → c ≡ some d → Chosen m name wait d)
      → (c ≡ none → Unknown m name wait)
      → Yields HandsOver (receive_call l linked_node name c)
  receive_call-HandsOver none may un = inr (inl (refl, refl, un refl))
  receive_call-HandsOver (some c) may un = receive_by-HandsOver c (may c refl)

-- However the base functions and `pthread_create` answer, a reception that does not fault ends in one
-- of three ways. It hands over nothing, with the code -1, and the interface is sending or closed, or
-- the one call that its receive function names failed, or no thread could be made. Or it hands over
-- nothing, without a code, and the receive function is unknown. Or it ends with the code 0 and hands
-- over, with the names of the linked node and of the interface that it was given, the text that this
-- call received without an error; the interface is then neither sending nor closed.
pub receive_message-HandsOver :
    (l : Line) (m : Manager) (linked_node name : Str) (wait : ℤ)
    → Yields
        (HandsOver l m linked_node name wait)
        (receive_message l m (some linked_node) (some name) wait)
unfolding receive_message
receive_message-HandsOver l m linked_node name wait =
    let index = get_interface_index m name in
    Yields-bind_known _ (get_interface_status_by_index m index) _ (λ status s.
      Yields-if_known _ (strcmp_eq status sending || strcmp_eq status closed) _ _
        (λ b. inl (refl, refl, inl (record { status = status; status_is = s; is_silent = b })))
        (λ b. Yields-bind_known _ (get_base_receive_func_by_index m index) _ (λ func f.
          Yields-bind_known _ (call_by_func m index func wait) _ (λ c e.
            receive_call-HandsOver l m linked_node name wait c
              (λ d q. record {
                status = status;
                func = func;
                status_is = s;
                may_receive = b;
                func_is = f;
                chosen = e ∙ ap some q;
              })
              (λ q. record {
                status = status;
                func = func;
                status_is = s;
                may_receive = b;
                func_is = f;
                unknown = e ∙ ap some q;
              })))))
