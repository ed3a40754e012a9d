-- ===== src/Serial/Tests.antt =====
-- Runs of opening and closing the serial port.
use edysquelch.Prelude.{
  ℕ, ◌≡◌, refl, true, false, Option, none, some, List, [], ◌∷◌, ℤ, pos, negsuc,
}
use edysquelch.Memory.{Heap, Run, runs, stopped, corrupted, release, Allocator, hmalloc, hfree}
use edysquelch.Serial.{Termios, SerialCalls, set_options, serial_init, serial_close}
use edysquelch.Serial.Sessions.{session}

abbrev termios : Termios
termios = record {
  ispeed = 9600;
  ospeed = 9600;
  clocal = false;
  cread = false;
  parenb = true;
  cstopb = true;
  csize = 7;
  icanon = true;
  echo = true;
  echoe = true;
  isig = true;
  opost = true;
  vmin = 1;
  vtime = 0;
}

abbrev calls : SerialCalls
calls = record {
  fd = negsuc 0;
  options = none;
  garbage = termios;
  set_done = true;
  close_done = true;
}

abbrev heap : Heap
heap = record { live = []; size = λ p. 0; text = λ p. []; calls = 0; mem_panic = false }

abbrev live_of : Run (Option Termios × ℤ × Heap) → Option (List ℕ)
live_of (runs r) = some r.2.live
live_of (stopped x) = none
live_of corrupted = none

abbrev new_block : Allocator
new_block count size = some count

leaves_state : live_of (session new_block 4 calls true heap) ≡ some (0 ∷ [])
unfolding serial_init hmalloc set_options
leaves_state = refl

frees_state : live_of (session new_block 4 (record calls { fd = pos 3 }) true heap) ≡ some []
unfolding serial_init hmalloc set_options serial_close hfree release
frees_state = refl
