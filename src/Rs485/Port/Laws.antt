-- ===== src/Rs485/Port/Laws.antt =====
-- The settings of a line that `open_port` opened, and that it leaves nothing open otherwise.
use monitor_node.Prelude.{
  ◌≡◌, refl, ◌∙◌, ap, ℤ, pos, ltb_ℤ, eqb_ℤ, Str, Bool, true, false, Option, none, some, [], ◌∷◌,
  ◌||◌, ◌&&◌, not, ◌==◌, if◌then◌else◌, arith,
}
use monitor_node.Rs485.Port.{
  cs7, cs8, Termios, SerialPortParams, Tty, name_arr, set_port_attr, known_rate, set_baudrate,
  set_databits, set_parity, set_stopbits, open_port_raw, Opened, refused, or_refused, open_port,
}

abbrev pub no_parity : SerialPortParams → Bool
no_parity q = (q.paritybits == b'n') || (q.paritybits == b'N')

abbrev pub odd_parity : SerialPortParams → Bool
odd_parity q = (q.paritybits == b'o') || (q.paritybits == b'O')

abbrev pub even_parity : SerialPortParams → Bool
even_parity q = (q.paritybits == b'e') || (q.paritybits == b'E')

-- The parameters that the driver supports; all baud rates are let pass.
abbrev pub supported : SerialPortParams → Bool
supported q =
    (eqb_ℤ q.databits (pos 7) || eqb_ℤ q.databits (pos 8))
    && ((no_parity q || (odd_parity q || even_parity q))
        && (eqb_ℤ q.stopbits (pos 1) || eqb_ℤ q.stopbits (pos 2)))

-- The settings that the parameters ask for, on top of the ones found.
abbrev pub wanted : SerialPortParams → Termios → Termios
wanted q t = record (set_port_attr t) {
  ispeed = if known_rate q.baudrate name_arr then q.baudrate else t.ispeed;
  ospeed = if known_rate q.baudrate name_arr then q.baudrate else t.ospeed;
  char_size = if eqb_ℤ q.databits (pos 7) then cs7 else cs8;
  parenb = not (no_parity q);
  parodd = if no_parity q then t.parodd else odd_parity q;
  inpck = not (no_parity q);
  cstopb = not (eqb_ℤ q.stopbits (pos 1));
}

-- What `open_port` is to do.
abbrev pub open_rule : Tty → Option Str → SerialPortParams → Opened
open_rule tty port q =
    let fd = open_port_raw tty port in
    if ltb_ℤ fd (pos 0)
    then refused
    else or_refused tty.found (λ t.
      if supported q && tty.sets
      then record { code = fd; left_open = fd ∷ []; settings = some (wanted q t) }
      else refused)

set_databits_lem :
    (d : ℤ) (t : Termios)
    → set_databits d t ≡ (
        if eqb_ℤ d (pos 7) || eqb_ℤ d (pos 8)
        then some (record t { char_size = if eqb_ℤ d (pos 7) then cs7 else cs8 })
        else none)
unfolding set_databits
set_databits_lem d t = ground arith

set_stopbits_lem :
    (d : ℤ) (t : Termios)
    → set_stopbits d t ≡ (
        if eqb_ℤ d (pos 1) || eqb_ℤ d (pos 2)
        then some (record t { cstopb = not (eqb_ℤ d (pos 1)) })
        else none)
unfolding set_stopbits
set_stopbits_lem d t = ground arith

set_baudrate_lem :
    (d : ℤ) (t : Termios)
    → set_baudrate d t ≡ record t {
      ispeed = if known_rate d name_arr then d else t.ispeed;
      ospeed = if known_rate d name_arr then d else t.ospeed;
    }
unfolding set_baudrate
set_baudrate_lem d t = ground arith

set_parity_lem :
    (q : SerialPortParams) (t : Termios)
    → set_parity q.paritybits t ≡ (
        if no_parity q || (odd_parity q || even_parity q)
        then some (record t {
          parenb = not (no_parity q);
          parodd = if no_parity q then t.parodd else odd_parity q;
          inpck = not (no_parity q);
        })
        else none)
unfolding set_parity
set_parity_lem q t = ground arith

or_refused_if :
    (x : Option Termios) (b : Bool) (t : Termios) (f : Termios → Opened) (s : Opened)
    → x ≡ (if b then some t else none)
    → f t ≡ s
    → or_refused x f ≡ (if b then s else refused)
or_refused_if x true t f s e h = ap (λ y. or_refused y f) e ∙ h
or_refused_if x false t f s e h = ap (λ y. or_refused y f) e

if_and :
    (a b c d : Bool) (s : Opened)
    → (if a
        then (if b then (if c then (if d then s else refused) else refused) else refused)
        else refused)
      ≡ (if (a && (b && c)) && d then s else refused)
if_and true true true d s = refl
if_and true true false d s = refl
if_and true false c d s = refl
if_and false b c d s = refl

set_all :
    (tty : Tty) (fd : ℤ) (q : SerialPortParams) (t : Termios)
    → or_refused (set_databits q.databits (set_baudrate q.baudrate (set_port_attr t))) (λ t1.
      or_refused (set_parity q.paritybits t1) (λ t2. or_refused (set_stopbits q.stopbits t2) (λ t3.
        if tty.sets
        then record { code = fd; left_open = fd ∷ []; settings = some t3 }
        else refused)))
      ≡ (if supported q && tty.sets
          then record { code = fd; left_open = fd ∷ []; settings = some (wanted q t) }
          else refused)
unfolding set_port_attr
set_all tty fd q t =
    or_refused_if _ _ _ _ _
      (ap (set_databits q.databits) (set_baudrate_lem q.baudrate (set_port_attr t))
        ∙ set_databits_lem q.databits _)
      (or_refused_if _ _ _ _ _ (set_parity_lem q _)
        (or_refused_if _ _ _ _ _ (set_stopbits_lem q.stopbits _) refl))
    ∙ if_and (eqb_ℤ q.databits (pos 7) || eqb_ℤ q.databits (pos 8))
        (no_parity q || (odd_parity q || even_parity q))
        (eqb_ℤ q.stopbits (pos 1) || eqb_ℤ q.stopbits (pos 2)) tty.sets
        record { code = fd; left_open = fd ∷ []; settings = some (wanted q t) }

opened_if :
    (tty : Tty) (port : Option Str) (q : SerialPortParams) (fd : ℤ) (found : Option Termios)
    → or_refused found (λ t.
      or_refused (set_databits q.databits (set_baudrate q.baudrate (set_port_attr t))) (λ t1.
        or_refused (set_parity q.paritybits t1) (λ t2.
          or_refused (set_stopbits q.stopbits t2) (λ t3.
            if tty.sets
            then record { code = fd; left_open = fd ∷ []; settings = some t3 }
            else refused))))
      ≡ or_refused found (λ t.
        if supported q && tty.sets
        then record { code = fd; left_open = fd ∷ []; settings = some (wanted q t) }
        else refused)
opened_if tty port q fd none = refl
opened_if tty port q fd (some t) = set_all tty fd q t

-- `open_port` gives a descriptor, with the line set to the wanted settings, only when the device
-- opens, its settings are found and can be set, and the data bits, the parity and the stop bits are
-- among the supported ones; the baud rate is not among these conditions, one that is not in the
-- table leaves the speed found. In all other cases the code is -1 and no descriptor is left open.
pub open_port_lem :
    (tty : Tty) (port : Option Str) (q : SerialPortParams)
    → open_port tty port q ≡ open_rule tty port q
unfolding open_port
open_port_lem tty port q =
    ap (λ o. if ltb_ℤ (open_port_raw tty port) (pos 0) then refused else o)
      (opened_if tty port q (open_port_raw tty port) tty.found)
