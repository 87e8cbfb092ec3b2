-- ===== src/Initializer/Serial/Runs.antt =====
-- The initializers and closers of serial lines of src/initializer_closer_lib.c, called in any order on
-- any interfaces, against the table of open devices.
use monitor_node.Prelude.{
  ◌≡◌, refl, ap, subst, ◌∙◌, Str, c_str, strcmp_eq, Bool, true, false, Option, some, List, [], ◌∷◌,
  ◌++◌, All, if◌then◌else◌, ◌>>=◌, Yields,
}
use monitor_node.InfoManager.{Manager, InterfaceInfo}
use monitor_node.InfoManager.Interfaces.{get_interface_index, interface_at}
use monitor_node.Rs485.Port.{SerialPortParams}
use monitor_node.Initializer.Common.{Host, Effect, Outcome}
use monitor_node.Initializer.Serial.{rs485_initializer_normal, rs485_closer_normal}
use monitor_node.Initializer.Serial.Refines.{
  Devices, Step, open_device, close_device, Refines, Does, params_of, Line,
  rs485_initializer_normal-Does, rs485_closer_normal-Does,
}
use monitor_node.Initializer.Serial.Configuration.{
  configuration, Keeps, initializer-Keeps, closer-Keeps, get_interface_index-Keeps,
  interface_at-Keeps,
}

-- A call of the initializer or of the closer, for an interface with its path and parameters, and what
-- the calls outside of the program answer in it.
pub record Use : Type 0 where
  pub opens : Bool
  pub host : Host
  pub name : Str
  pub path : Str
  pub params : SerialPortParams

-- The interface is a serial line, configured like this.
pub record Serves (m : Manager) (u : Use) : Type 0 where
  pub entry : InterfaceInfo
  pub at : interface_at m (get_interface_index m u.name) ≡ some entry
  pub is_serial : strcmp_eq entry.interface_type (c_str "rs485") ≡ true
  pub path_is : entry.rs485_info.rs485_dev_path ≡ some u.path
  pub params_are : params_of entry ≡ u.params

abbrev pub call : Use → Manager → Option Outcome
call u m =
    if u.opens then rs485_initializer_normal u.host m u.name else rs485_closer_normal m u.name

abbrev pub step_of : Use → Devices → Step
step_of u d = if u.opens then open_device u.host u.params u.path d else close_device u.path d

-- The calls in turn, and the steps of the table in turn.
unfoldable pub call_all : List Use → Manager → Option (Manager × List Effect)
call_all [] m = some (m, [])
call_all (u ∷ us) m =
    call u m >>= λ o. call_all us o.manager >>= λ (m1, es). some (m1, o.effects ++ es)

unfoldable pub table_after : List Use → Devices → Devices × List Effect
table_after [] d = (d, [])
table_after (u ∷ us) d =
    let s = step_of u d in let (d1, es) = table_after us s.devices in (d1, s.effects ++ es)

Serves-Keeps :
    (m m1 : Manager) (u : Use) → configuration m1 ≡ configuration m → Serves m u → Serves m1 u
Serves-Keeps m m1 u e s =
    let (g, a, c) = interface_at-Keeps m m1 (get_interface_index m u.name) s.entry e s.at in
    record {
      entry = g;
      at = ap (interface_at m1) (get_interface_index-Keeps m m1 u.name e) ∙ a;
      is_serial = ap (λ k. strcmp_eq k.type_ (c_str "rs485")) c ∙ s.is_serial;
      path_is = ap (λ k. k.path) c ∙ s.path_is;
      params_are = ap (λ k. k.params) c ∙ s.params_are;
    }

All-Serves-Keeps :
    (m m1 : Manager) (us : List Use)
    → configuration m1 ≡ configuration m
    → All (Serves m) us
    → All (Serves m1) us
All-Serves-Keeps m m1 [] e a = tt
All-Serves-Keeps m m1 (u ∷ us) e (a, as_) =
    (Serves-Keeps m m1 u e a, All-Serves-Keeps m m1 us e as_)

line_of :
    (m : Manager) (u : Use) (d : Devices)
    → (s : Serves m u) → Refines m d
    → Line m u.name s.entry u.path d
line_of m u d s r = record { at = s.at; is_serial = s.is_serial; path_is = s.path_is; refines = r }

call-Does :
    (b : Bool) (m : Manager) (u : Use) (d : Devices)
    → Serves m u
    → Refines m d
    → Does
        (if b then open_device u.host u.params u.path d else close_device u.path d)
        (if b then rs485_initializer_normal u.host m u.name else rs485_closer_normal m u.name)
call-Does true m u d s r =
    subst (λ q. Does (open_device u.host q u.path d) (rs485_initializer_normal u.host m u.name))
      s.params_are
      (rs485_initializer_normal-Does m u.name s.entry u.path d u.host (line_of m u d s r))
call-Does false m u d s r = rs485_closer_normal-Does m u.name s.entry u.path d (line_of m u d s r)

call-Keeps :
    (b : Bool) (m : Manager) (u : Use)
    → Yields
        (Keeps m)
        (if b then rs485_initializer_normal u.host m u.name else rs485_closer_normal m u.name)
call-Keeps true m u = initializer-Keeps u.host m u.name
call-Keeps false m u = closer-Keeps m u.name

-- The initializers and closers of serial lines are called in any order, for any interfaces of this
-- node that are serial lines, and the entries are in step with the table of open devices at first.
-- Then no call faults, the calls do to the world exactly what the steps of the table do, in order,
-- and the entries are in step with the table at the end.
pub call_all-table_after :
    (us : List Use) (m : Manager) (d : Devices)
    → All (Serves m) us
    → Refines m d
    → (m1 : Manager) × (call_all us m ≡ some (m1, (table_after us d).1))
      × Refines m1 (table_after us d).0
unfolding call_all table_after
call_all-table_after [] m d a r = (m, refl, r)
call_all-table_after (u ∷ us) m d (a, as_) r =
    let does = call-Does u.opens m u d a r in
    let kept : Keeps m does.outcome =
      subst (Yields (Keeps m)) does.returns (call-Keeps u.opens m u) in
    let (m1, e, r1) =
      call_all-table_after us does.outcome.manager (step_of u d).devices
        (All-Serves-Keeps m does.outcome.manager us kept as_) does.refines in
    (m1, rw (does.returns, e, does.effects_are) refl, r1)
