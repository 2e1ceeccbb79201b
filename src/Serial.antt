-- ===== src/Serial.antt =====
-- kernel/src/devices/serial/uart16550/uart.c on the ports of kernel/src/arch/x86_64/pio.h. The instructions `in` and
-- `out` are those of a `Hardware`, which is an argument. A wait for the port takes fuel, where `none` is a wait
-- that did not end.
pub mod Crlf
pub mod Port
mod Tests
use ga_os.Base.{
  ℕ, zero, suc, ◌+◌, ◌/◌, ◌%◌, ◌^◌, bit_and, bit_or, Bool, true, false, not, ◌==◌, if◌then◌else◌,
  Option, none, some,
}
use ga_os.Libc.Memory.{Memory}
use ga_os.Libc.Strings.{CString, skip, string_at}

pub record Hardware : Type 1 where
  pub World : Type 0
  pub in8 : (port : ℕ) → World → ℕ × World
  pub out8 : (port value : ℕ) → World → World

abbrev pub com_port_base : ℕ
com_port_base = 0x3F8

abbrev pub com_port_data : ℕ
com_port_data = 0x3F8

abbrev pub com_port_interrupt_enable : ℕ
com_port_interrupt_enable = 0x3F9

abbrev pub com_port_fifo_control : ℕ
com_port_fifo_control = 0x3FA

abbrev pub com_port_line_control : ℕ
com_port_line_control = 0x3FB

abbrev pub com_port_modem_control : ℕ
com_port_modem_control = 0x3FC

abbrev pub com_port_line_status : ℕ
com_port_line_status = 0x3FD

module _ (hw : Hardware) where
  open hw use {World, in8, out8}

  -- arch_pio_write8(port, f(arch_pio_read8(port)))
  abbrev pub update8 : (port : ℕ) → (ℕ → ℕ) → World → World
  update8 port f w = let (value, w') = in8 port w in out8 port (f value) w'

  -- The port and `uart16650_present`.
  pub record Uart : Type 0 where
    pub world : World
    pub present : Bool

  pub detect : World → Bool × World
  detect w =
      let looped = update8 com_port_modem_control (λ v. bit_or v 0x10) w in
      let (back, w') = in8 com_port_data (out8 com_port_data b'X' looped) in
      if not (back == b'X')
      then (false, w')
      else (true, update8 com_port_modem_control (λ v. bit_and v 0xEF) w')

  -- The writes of `uart16550_init` before the test.
  pub set_up : World → World
  set_up w =
      let opened = update8 com_port_line_control (λ v. bit_or v 0x80) w in
      let divided =
        out8 com_port_interrupt_enable (1 / 2 ^ 8) (out8 com_port_data (bit_and 1 0xFF) opened) in
      let closed = update8 com_port_line_control (λ v. bit_and v 0x7F) divided in
      let cleared = update8 com_port_line_control (λ v. bit_and v 0xF8) closed in
      let data_bits = update8 com_port_line_control (λ v. bit_or v 3) cleared in
      let stop_bits = update8 com_port_line_control (λ v. bit_or v 0) data_bits in
      out8 com_port_fifo_control 0x31 stop_bits

  pub uart_init : Uart → Uart
  uart_init u =
      let (found, w) = detect (set_up u.world) in
      record { world = w; present = if found then true else u.present }

  pub can_send : World → Bool × World
  can_send w = let (status, w') = in8 com_port_line_status w in (not (bit_and status 0x20 == 0), w')

  -- while (!uart16550_can_send());
  pub wait_to_send : ℕ → World → Option World
  wait_to_send zero w = none
  wait_to_send (suc polls) w =
      let (ready, w') = can_send w in
      let again = wait_to_send polls w' in if ready then some w' else again

  abbrev pub put_byte : (polls byte : ℕ) → World → Option World
  put_byte polls byte w = elim (wait_to_send polls w) [
    | none ↦ none
    | some w' ↦ some (out8 com_port_data byte w')
  ]

  -- What `uart16550_send_byte` does when the port is there; the call for '\r' is not itself one for '\n'.
  pub send_present : (polls byte : ℕ) → World → Option World
  send_present polls byte w =
      if byte == 10
      then elim (put_byte polls 13 w) [ none ↦ none | some w' ↦ put_byte polls byte w' ]
      else put_byte polls byte w

  pub send_byte : (polls byte : ℕ) → Uart → Option Uart
  send_byte polls byte u =
      if not u.present then some u else elim (send_present polls byte u.world) [
        | none ↦ none
        | some w ↦ some (record u { world = w })
      ]

  -- while (*string), with fuel.
  pub send_from : (rounds polls : ℕ) → CString → Uart → Option Uart
  send_from zero polls string u = none
  send_from (suc rounds) polls string u =
      let sent = elim (send_byte polls (string 0) u) as (λ _. Option Uart) [
        | none ↦ none
        | some u' ↦ send_from rounds polls (skip string 1) u'
      ] in
      if string 0 == 0 then some u else sent

  pub send_string : (rounds polls : ℕ) → CString → Uart → Option Uart
  send_string rounds polls string u =
      if not u.present then some u else send_from rounds polls string u

  -- The loop of `uart16550_write`: `size` bytes of `c`.
  pub send_bytes : (size polls : ℕ) → CString → Uart → Option Uart
  send_bytes zero polls c u = some u
  send_bytes (suc size) polls c u = elim (send_byte polls (c 0) u) [
    | none ↦ none
    | some u' ↦ send_bytes size polls (skip c 1) u'
  ]

  -- `uart16550_write`. `device_t` calls it with three arguments, so `offset` is whatever a register held.
  pub uart_write : (polls : ℕ) → Memory → (buffer size offset : ℕ) → Uart → Option (ℕ × Uart)
  uart_write polls m buffer size offset u =
      let c : ℕ = (buffer + offset) % 2 ^ 64 in
      elim (send_bytes size polls (string_at m c) u) [ none ↦ none | some u' ↦ some (c, u') ]
