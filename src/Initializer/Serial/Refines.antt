-- ===== src/Initializer/Serial/Refines.antt =====
-- The serial lines as a table from a path to the descriptor that is open on it, and that
-- `rs485_initializer_normal` and `rs485_closer_normal` of src/initializer_closer_lib.c keep the
-- entries of all interfaces in step with it.
use mathlib.Core.Option.{some-injective}
use monitor_node.Prelude.{
  ℕ, zero, suc, ◌≡◌, refl, sym, subst, ◌∙◌, inl, inr, ℤ, pos, negsuc, ltb_ℤ, error, success, Str,
  c_str, strcmp_eq, true, Option, none, some, List, [], ◌∷◌, All, get_elem?, if◌then◌else◌,
  Bool-cases,
}
use monitor_node.InfoManager.{Manager, InterfaceInfo}
use monitor_node.InfoManager.Interfaces.{get_interface_index, interface_at}
use monitor_node.Rs485.Port.{SerialPortParams, open_port}
use monitor_node.Initializer.Common.{
  Host, Effect, port_opened, closed_fd, Outcome, nothing_done, mark_all,
}
use monitor_node.Initializer.Serial.{
  on_path, with_fd, rs485_initializer_normal, rs485_closer_normal,
}

-- The descriptor that is open on a path.
abbrev pub Devices : Type 0
Devices = Str → Option ℤ

abbrev pub update : Devices → Str → Option ℤ → Devices
update d path v q = if strcmp_eq path q then v else d q

-- What the calls are to do, and how they are to answer.
pub record Step : Type 0 where
  pub code : ℤ
  pub devices : Devices
  pub effects : List Effect

abbrev pub open_device : Host → SerialPortParams → Str → Devices → Step
open_device h q path d = opened (d path)
  where
    opened : Option ℤ → Step
    opened (some fd) = record { code = success; devices = d; effects = [] }
    opened none =
        let o = open_port h.tty (some path) q in
        if ltb_ℤ o.code (pos 0)
        then record { code = error; devices = d; effects = port_opened o ∷ [] }
        else record {
          code = success;
          devices = update d path (some o.code);
          effects = port_opened o ∷ [];
        }

abbrev pub close_device : Str → Devices → Step
close_device path d = closed_ (d path)
  where
    closed_ : Option ℤ → Step
    closed_ none = record { code = success; devices = d; effects = [] }
    closed_ (some fd) = record {
      code = success;
      devices = update d path none;
      effects = closed_fd fd ∷ [];
    }

-- The entry shows the descriptor.
abbrev pub Shows : InterfaceInfo → Option ℤ → Type 0
Shows f none = f.initialized_flag ≡ negsuc 0
Shows f (some fd) = (f.initialized_flag ≡ pos 1) × (f.rs485_info.temporary_fd ≡ fd)

-- Every serial line has a path and shows what is open on it.
abbrev pub Agrees : Devices → InterfaceInfo → Type 0
Agrees d f =
    strcmp_eq f.interface_type (c_str "rs485") ≡ true
    → (path : Str) × (f.rs485_info.rs485_dev_path ≡ some path) × Shows f (d path)

abbrev pub Refines : Manager → Devices → Type 0
Refines m d = All (Agrees d) m.interface_info_array

-- The code ends without a fault, with the code and the effects of the step, and in step with it.
pub record Does (s : Step) (r : Option Outcome) : Type 0 where
  pub outcome : Outcome
  pub returns : r ≡ some outcome
  pub code_is : outcome.code ≡ s.code
  pub effects_are : outcome.effects ≡ s.effects
  pub refines : Refines outcome.manager s.devices

abbrev Marks : Str → ℤ → ℤ → Devices → List InterfaceInfo → Type 0
Marks path flag fd d fs =
    (gs : List InterfaceInfo) × (mark_all (on_path (some path)) (with_fd flag fd) fs ≡ some gs)
    × All (Agrees d) gs

entries_marked :
    (path : Str) (flag fd : ℤ) (v : Option ℤ) (d : Devices) (fs : List InterfaceInfo)
    → ((f : InterfaceInfo) → Shows (with_fd flag fd f) v)
    → All (Agrees d) fs
    → Marks path flag fd (update d path v) fs
unfolding mark_all
entries_marked path flag fd v d [] s a = ([], refl, tt)
entries_marked path flag fd v d (f ∷ fs) s (a, as_) =
    let (gs, e, b) = entries_marked path flag fd v d fs s as_ in
    elim (Bool-cases (strcmp_eq f.interface_type (c_str "rs485"))) [
      | inr k ↦ (f ∷ gs, rw (k, e) refl, (λ h. cc, b))
      | inl k ↦
          let (q, p, w) = a k in
          elim (Bool-cases (strcmp_eq path q)) [
            | inl l ↦ (with_fd flag fd f ∷ gs, rw (k, p, l, e) refl, (λ h. (q, p, rw l (s f)), b))
            | inr l ↦ (f ∷ gs, rw (k, p, l, e) refl, (λ h. (q, p, rw l w), b))
          ]
    ]

All-at :
    {A : Type 0} (P : A → Type 0) (xs : List A) (i : ℕ) (x : A)
    → All P xs
    → get_elem? xs i ≡ some x
    → P x
All-at P [] zero x a e = cc
All-at P [] (suc i) x a e = cc
All-at P (y ∷ ys) zero x (a, as_) e = subst P (some-injective _ _ e) a
All-at P (y ∷ ys) (suc i) x (a, as_) e = All-at P ys i x as_ e

interface_at-Agrees :
    (m : Manager) (d : Devices) (i : ℤ) (f : InterfaceInfo)
    → Refines m d
    → interface_at m i ≡ some f
    → Agrees d f
interface_at-Agrees m d (pos i) f r e = All-at (Agrees d) m.interface_info_array i f r e
interface_at-Agrees m d (negsuc i) f r e = cc

-- What the entry of a serial line shows of its own path.
own_path :
    (d : Devices) (f : InterfaceInfo) (path : Str)
    → Agrees d f
    → strcmp_eq f.interface_type (c_str "rs485") ≡ true
    → f.rs485_info.rs485_dev_path ≡ some path
    → Shows f (d path)
own_path d f path a k e =
    let (q, p, w) = a k in subst (λ t. Shows f (d t)) (some-injective q path (sym p ∙ e)) w

abbrev pub params_of : InterfaceInfo → SerialPortParams
params_of f = record {
  baudrate = f.rs485_info.baud_rate;
  databits = f.rs485_info.databits;
  stopbits = f.rs485_info.stopbits;
  paritybits = f.rs485_info.paritybits;
}

module _ (m : Manager) (name : Str) (f : InterfaceInfo) (path : Str) (d : Devices) where
  -- The name is that of a serial line with the path, and the entries are in step with the table.
  pub record Line : Type 0 where
    pub at : interface_at m (get_interface_index m name) ≡ some f
    pub is_serial : strcmp_eq f.interface_type (c_str "rs485") ≡ true
    pub path_is : f.rs485_info.rs485_dev_path ≡ some path
    pub refines : Refines m d

  opening :
      (h : Host)
      → Line
      → (v : Option ℤ) → d path ≡ v
      → Shows f v
      → Does (open_device h (params_of f) path d) (rs485_initializer_normal h m name)
  unfolding rs485_initializer_normal
  opening h l (some fd) e (flag, fd_is) =
      rw (e, l.at, flag)
        (record {
          outcome = nothing_done m;
          returns = refl;
          code_is = refl;
          effects_are = refl;
          refines = l.refines;
        })
  opening h l none e flag =
      let o = open_port h.tty (some path) (params_of f) in
      elim (Bool-cases (ltb_ℤ o.code (pos 0))) [
        | inl k ↦
            rw (e, l.at, flag, l.path_is, k)
              (record {
                outcome = record { code = error; manager = m; effects = port_opened o ∷ [] };
                returns = refl;
                code_is = refl;
                effects_are = refl;
                refines = l.refines;
              })
        | inr k ↦
            let (gs, r, a) =
              entries_marked path (pos 1) o.code (some o.code) d m.interface_info_array
                (λ g. (refl, refl)) l.refines in
            rw (e, l.at, flag, l.path_is, k, r)
              (record {
                outcome = record {
                  code = success;
                  manager = record m { interface_info_array = gs };
                  effects = port_opened o ∷ [];
                };
                returns = refl;
                code_is = refl;
                effects_are = refl;
                refines = a;
              })
      ]

  closing :
      Line
      → (v : Option ℤ) → d path ≡ v
      → Shows f v
      → Does (close_device path d) (rs485_closer_normal m name)
  unfolding rs485_closer_normal
  closing l none e flag =
      rw (e, l.at, flag)
        (record {
          outcome = nothing_done m;
          returns = refl;
          code_is = refl;
          effects_are = refl;
          refines = l.refines;
        })
  closing l (some fd) e (flag, fd_is) =
      let (gs, r, a) =
        entries_marked path (negsuc 0) (negsuc 0) none d m.interface_info_array (λ g. refl)
          l.refines in
      rw (e, l.at, flag, fd_is, l.path_is, r)
        (record {
          outcome = record {
            code = success;
            manager = record m { interface_info_array = gs };
            effects = closed_fd fd ∷ [];
          };
          returns = refl;
          code_is = refl;
          effects_are = refl;
          refines = a;
        })

  shown : Line → Shows f (d path)
  shown l = own_path d f path (interface_at-Agrees m d _ f l.refines l.at) l.is_serial l.path_is

  -- The initializer of a serial line does what the table says, when all entries are in step with it:
  -- on an open path nothing; else it opens the port with the parameters of the interface, and on
  -- success all interfaces on the path have the new descriptor and are initialized, while on failure
  -- the code is -1 and nothing changes. It never faults, and the entries are in step with the new
  -- table.
  pub rs485_initializer_normal-Does :
      (h : Host)
      → Line
      → Does (open_device h (params_of f) path d) (rs485_initializer_normal h m name)
  rs485_initializer_normal-Does h l = opening h l (d path) refl (shown l)

  -- The closer of a serial line does what the table says, when all entries are in step with it: it
  -- closes the descriptor that is open on the path, once, and all interfaces on the path are closed;
  -- on a path without one it does nothing. It never faults, and the entries are in step with the new
  -- table.
  pub rs485_closer_normal-Does : Line → Does (close_device path d) (rs485_closer_normal m name)
  rs485_closer_normal-Does l = closing l (d path) refl (shown l)
