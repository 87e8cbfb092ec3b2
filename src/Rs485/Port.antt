-- ===== src/Rs485/Port.antt =====
-- src/base/rs485_recv_send.c: `open_port` and `close_port`. The bits of a `struct termios` are the
-- Boolean fields of `Termios`, so that the constants of the system's headers play no part. The
-- NULL checks of the helpers are left out, since the argument is the address of a local variable.
pub mod Laws
use monitor_node.Prelude.{
  ℕ, ℤ, pos, ltb_ℤ, eqb_ℤ, error, success, Str, Bool, true, false, Option, none, some, List, [],
  ◌∷◌, ◌||◌, ◌==◌, if◌then◌else◌,
}

pub data CharSize : Type 0 where
  cs5 cs6 cs7 cs8 : CharSize

pub record Termios : Type 0 where
  pub ispeed : ℤ
  pub ospeed : ℤ
  pub char_size : CharSize
  pub parenb : Bool
  pub parodd : Bool
  pub cstopb : Bool
  pub clocal : Bool
  pub cread : Bool
  pub inpck : Bool
  pub brkint : Bool
  pub icrnl : Bool
  pub igncr : Bool
  pub istrip : Bool
  pub ixon : Bool
  pub opost : Bool
  pub icanon : Bool
  pub isig : Bool
  pub echo : Bool
  pub echoe : Bool
  pub vtime : ℕ
  pub vmin : ℕ

pub record SerialPortParams : Type 0 where
  pub baudrate : ℤ
  pub databits : ℤ
  pub stopbits : ℤ
  pub paritybits : ℕ

-- What the calls answer: `open`, `tcgetattr` with the settings that it finds, and `tcsetattr`.
pub record Tty : Type 0 where
  pub open_answer : Str → ℤ
  pub found : Option Termios
  pub sets : Bool

abbrev pub name_arr : List ℤ
name_arr =
    pos 921600
    ∷ pos 460800
    ∷ pos 230400
    ∷ pos 115200
    ∷ pos 38400
    ∷ pos 19200
    ∷ pos 9600
    ∷ pos 4800
    ∷ pos 2400
    ∷ pos 1200
    ∷ pos 300
    ∷ []

unfoldable pub set_port_attr : Termios → Termios
set_port_attr t = record t {
  clocal = true;
  cread = true;
  brkint = false;
  icrnl = false;
  igncr = false;
  istrip = false;
  ixon = false;
  opost = false;
  icanon = false;
  isig = false;
  echo = false;
  echoe = false;
  vtime = 5;
  vmin = 0;
}

-- A rate that the table does not have leaves the speeds, and the function succeeds all the same.
unfoldable pub known_rate : ℤ → List ℤ → Bool
known_rate rate [] = false
known_rate rate (r ∷ rs) = eqb_ℤ rate r || known_rate rate rs

unfoldable pub set_baudrate : ℤ → Termios → Termios
unfolding known_rate
set_baudrate baudrate t =
    if known_rate baudrate name_arr then record t { ispeed = baudrate; ospeed = baudrate } else t

unfoldable pub set_databits : ℤ → Termios → Option Termios
set_databits databits t =
    if eqb_ℤ databits (pos 7)
    then some (record t { char_size = cs7 })
    else if eqb_ℤ databits (pos 8)
    then some (record t { char_size = cs8 })
    else none

unfoldable pub set_parity : ℕ → Termios → Option Termios
set_parity paritybits t =
    if (paritybits == b'n') || (paritybits == b'N')
    then some (record t { parenb = false; inpck = false })
    else if (paritybits == b'o') || (paritybits == b'O')
    then some (record t { parodd = true; parenb = true; inpck = true })
    else if (paritybits == b'e') || (paritybits == b'E')
    then some (record t { parenb = true; parodd = false; inpck = true })
    else none

unfoldable pub set_stopbits : ℤ → Termios → Option Termios
set_stopbits stopbits t =
    if eqb_ℤ stopbits (pos 1)
    then some (record t { cstopb = false })
    else if eqb_ℤ stopbits (pos 2)
    then some (record t { cstopb = true })
    else none

unfoldable pub open_port_raw : Tty → Option Str → ℤ
open_port_raw tty none = error
open_port_raw tty (some port) =
    let fd = tty.open_answer port in if ltb_ℤ fd (pos 0) then error else fd

-- The code, the descriptors that are left open, and the settings that the line was given.
pub record Opened : Type 0 where
  pub code : ℤ
  pub left_open : List ℤ
  pub settings : Option Termios

-- `close(fd); return _ERROR;`
abbrev pub refused : Opened
refused = record { code = error; left_open = []; settings = none }

abbrev pub or_refused : Option Termios → (Termios → Opened) → Opened
or_refused none f = refused
or_refused (some t) f = f t

unfoldable pub open_port : Tty → Option Str → SerialPortParams → Opened
unfolding set_port_attr set_baudrate set_databits set_parity set_stopbits open_port_raw
open_port tty port params =
    let fd = open_port_raw tty port in
    if ltb_ℤ fd (pos 0)
    then refused
    else or_refused tty.found (λ t.
      or_refused (set_databits params.databits (set_baudrate params.baudrate (set_port_attr t)))
        (λ t1. or_refused (set_parity params.paritybits t1) (λ t2.
          or_refused (set_stopbits params.stopbits t2) (λ t3.
            if tty.sets
            then record { code = fd; left_open = fd ∷ []; settings = some t3 }
            else refused))))

-- Whether `close` succeeds is the argument.
unfoldable pub close_port : Bool → ℤ
close_port closes = if closes then success else error
