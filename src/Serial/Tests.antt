-- ===== src/Serial/Tests.antt =====
-- A 16550 that loses a byte written to a busy transmitter, which is empty again at the second read of the status.
use ga_os.Base.{ℕ, ◌%◌, ◌==◌, bit_and, not, if◌then◌else◌, List, [], ◌∷◌, ◌++◌, false, true, Bool}
use ga_os.Libc.Strings.{CString}
use ga_os.Serial.{Hardware, Uart}
use ga_os.Serial.Port.{View}

record Chip : Type 0 where
  line : ℕ
  modem : ℕ
  last : ℕ
  sent : List ℕ
  busy : Bool

abbrev written : ℕ → Chip → Chip
written v w =
    if not (bit_and (w.line % 256) 0x80 == 0)
    then w
    else if not (bit_and (w.modem % 256) 0x10 == 0)
    then record w { last = v }
    else if w.busy
    then w
    else record w { sent = w.sent ++ v ∷ []; busy = true }

abbrev chip : Hardware
chip = record {
  World = Chip;
  in8 = λ port w.
      if port == 0x3FB
      then (w.line % 256, w)
      else if port == 0x3FC
      then (w.modem % 256, w)
      else if port == 0x3FD
      then (if w.busy then 0 else 0x20, record w { busy = false })
      else if port == 0x3F8
      then (w.last, w)
      else (0, w);
  out8 = λ port v w.
      if port == 0x3FB
      then record w { line = v }
      else if port == 0x3FC
      then record w { modem = v }
      else if port == 0x3F8
      then written v w
      else w;
}

abbrev view : Chip → View
view w = record { line_control = w.line % 256; modem_control = w.modem % 256; sent = w.sent }

abbrev empty : Chip → Bool
empty w = not w.busy

abbrev two_lines : CString
two_lines i = if i == 0 then b'a' else if i == 1 then 10 else if i == 2 then b'b' else 0

abbrev uart : Uart chip
uart = record {
  world = record { line = 0x80; modem = 0; last = 0; sent = []; busy = true };
  present = false;
}
