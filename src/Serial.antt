-- ===== src/Serial.antt =====
-- src/serial.c: the serial port is opened, set to 4800 8N1 raw, written to and closed. What the system
-- calls answer is a parameter.
pub mod Sessions
mod Tests
use edysquelch.Prelude.{
  ℕ, Bool, true, false, not, ◌&&◌, Option, none, some, List, [], ◌∷◌, ◌++◌, ◌==◌, if◌then◌else◌, ℤ,
  pos, negsuc, ltb_ℤ,
}
use edysquelch.Memory.{Pointer, block, Heap, Run, runs, ◌>>=◌, Allocator, hmalloc, hfree}

-- struct termios, by the fields and flags that are set.
pub record Termios : Type 0 where
  pub ispeed : ℕ
  pub ospeed : ℕ
  pub clocal : Bool
  pub cread : Bool
  pub parenb : Bool
  pub cstopb : Bool
  pub csize : ℕ
  pub icanon : Bool
  pub echo : Bool
  pub echoe : Bool
  pub isig : Bool
  pub opost : Bool
  pub vmin : ℕ
  pub vtime : ℕ

-- struct serial_state_t with its address.
pub record SerialState : Type 0 where
  pub state : Pointer
  pub fd : ℤ

-- What is logged.
pub data SerialLog : Type 0 where
  cannot_open opened_port cannot_read cannot_configure cannot_write cannot_close : SerialLog

-- open() gives `fd`; tcgetattr gives `options` or fails, where `garbage` stands in them; tcsetattr
-- and close fail or not.
pub record SerialCalls : Type 0 where
  pub fd : ℤ
  pub options : Option Termios
  pub garbage : Termios
  pub set_done : Bool
  pub close_done : Bool

abbrev pub is_minus_one : ℤ → Bool
is_minus_one (pos n) = false
is_minus_one (negsuc k) = k == 0

unfoldable pub set_options : Termios → Termios
set_options o = record o {
  ispeed = 4800;
  ospeed = 4800;
  clocal = true;
  cread = true;
  icanon = false;
  echo = false;
  echoe = false;
  isig = false;
  opost = false;
  vmin = 0;
  vtime = 10;
  parenb = false;
  cstopb = false;
  csize = 8;
}

abbrev pub read_options : SerialCalls → Termios × List SerialLog
read_options calls = elim calls.options [
  | some o ↦ (o, [])
  | none ↦ (calls.garbage, cannot_read ∷ [])
]

-- What serial_init returns, where `none` is NULL, what it gives tcsetattr, and what it logs.
pub record Opening : Type 0 where
  pub returned : Option SerialState
  pub applied : Option Termios
  pub log : List SerialLog

unfoldable pub serial_init : Allocator → ℕ → SerialCalls → Heap → Run (Opening × Heap)
unfolding hmalloc set_options
serial_init malloc size calls h = do
  (p, h1) ← hmalloc malloc size h
  let (options, log) = read_options calls
  if is_minus_one calls.fd
      then runs (record { returned = none; applied = none; log = cannot_open ∷ [] }, h1)
      else runs (
        record {
          returned = some (record { state = block p; fd = calls.fd });
          applied = some (set_options options);
          log = opened_port ∷ log ++ (if calls.set_done then [] else cannot_configure ∷ []);
        },
        h1,
      )

-- The bytes that write() says are written are returned.
unfoldable pub serial_write : SerialState → ℤ → ℤ × List SerialLog
serial_write x n = (n, if ltb_ℤ n (pos 0) then cannot_write ∷ [] else [])

unfoldable pub serial_close : SerialState → Bool → Heap → Run (ℤ × List SerialLog × Heap)
unfolding hfree
serial_close x close_done h = do
  h1 ← hfree x.state h
  if not (ltb_ℤ x.fd (pos 0)) && not close_done
      then runs (negsuc 0, cannot_close ∷ [], h1)
      else runs (pos 0, [], h1)
