-- ===== src/Serial/Port.antt =====
-- What uart.c relies on of the 16550: its documented registers, and `uart16550_init` on it.
use ga_os.Base.{
  Bool-cases, inl, inr, ==→eq, ℕ, zero, suc, ◌<◌, ◌≡◌, ◌≢◌, ◌⊎◌, refl, arith, bit_and, bit_or, Bool,
  true, false, not, ◌==◌, ◌&&◌, eq→==, if◌then◌else◌, ltb, ◌/◌, ◌^◌, ◌∙◌, ap, List, [], ◌∷◌, ◌++◌,
}
use ga_os.Serial.{
  Hardware, Uart, update8, detect, set_up, uart_init, com_port_data, com_port_interrupt_enable,
  com_port_fifo_control, com_port_line_control, com_port_modem_control, com_port_line_status,
}

-- The registers that a 16550 shows, and the bytes that it has sent.
pub record View : Type 0 where
  pub line_control : ℕ
  pub modem_control : ℕ
  pub sent : List ℕ

-- The divisor registers stand in for the data register while bit 7 of the line control is set, and in loop-back
-- mode nothing is sent.
abbrev pub divisor_open : View → Bool
divisor_open v = not (bit_and v.line_control 0x80 == 0)

abbrev pub looped : View → Bool
looped v = not (bit_and v.modem_control 0x10 == 0)

-- Bytes that are written are sent.
abbrev pub IsOpen : View → Type 0
IsOpen v = (divisor_open v ≡ false) × (looped v ≡ false)

abbrev pub after_data : ℕ → View → View
after_data byte v =
    if divisor_open v then v else if looped v then v else record v { sent = v.sent ++ byte ∷ [] }

module _ (hw : Hardware) where
  open hw use {World, in8, out8}

  -- The transmitter is found empty within `polls` reads of the line status.
  abbrev pub IsReady : (polls : ℕ) → World → Type 0
  IsReady zero w = ⊥
  IsReady (suc polls) w =
      (bit_and (in8 com_port_line_status w).0 0x20 ≢ 0)
      ⊎ IsReady polls (in8 com_port_line_status w).1

  -- `empty` is whether the transmitter is empty. A status that says so is true, and a byte is only relied on to be
  -- sent where the transmitter is empty when it is written.
  pub record Is16550 (polls : ℕ) (view : World → View) (empty : World → Bool) : Type 0 where
    pub byte_line : (w : World) → (view w).line_control < 256
    pub byte_modem : (w : World) → (view w).modem_control < 256
    pub in_line : (w : World) → in8 com_port_line_control w ≡ ((view w).line_control, w)
    pub in_modem : (w : World) → in8 com_port_modem_control w ≡ ((view w).modem_control, w)
    pub in_status : (w : World) → view (in8 com_port_line_status w).1 ≡ view w
    pub in_empty :
        (w : World)
        → bit_and (in8 com_port_line_status w).0 0x20 ≢ 0
        → empty (in8 com_port_line_status w).1 ≡ true
    pub in_data : (w : World) → view (in8 com_port_data w).1 ≡ view w
    pub out_line :
        (v : ℕ) (w : World)
        → v < 256
        → view (out8 com_port_line_control v w) ≡ record (view w) { line_control = v }
    pub out_modem :
        (v : ℕ) (w : World)
        → v < 256
        → view (out8 com_port_modem_control v w) ≡ record (view w) { modem_control = v }
    pub out_interrupt : (v : ℕ) (w : World) → view (out8 com_port_interrupt_enable v w) ≡ view w
    pub out_fifo : (v : ℕ) (w : World) → view (out8 com_port_fifo_control v w) ≡ view w
    pub out_data :
        (v : ℕ) (w : World)
        → (divisor_open (view w) ≡ true) ⊎ ((looped (view w) ≡ true) ⊎ (empty w ≡ true))
        → view (out8 com_port_data v w) ≡ after_data v (view w)
    pub loop_back :
        (v : ℕ) (w : World)
        → divisor_open (view w) ≡ false
        → looped (view w) ≡ true
        → (in8 com_port_data (out8 com_port_data v w)).0 ≡ v
    pub ready : (w : World) → IsReady polls w

-- A test of every register value below a bound, from the bound down.
passes : (test : ℕ → Bool) → ℕ → Bool
passes test zero = true
passes test (suc bound) = passes test bound && test bound

passes-at :
    (test : ℕ → Bool) (bound value : ℕ)
    → value < bound
    → passes test bound ≡ true
    → test value ≡ true
unfolding passes
passes-at test zero value lt e = absurd (omega arith)
passes-at test (suc bound) value lt e = elim (Bool-cases (value == bound)) [
  | inl top ↦ rw (==→eq value bound top) (ground (arith, e))
  | inr lower ↦ passes-at test bound value (ground (arith, lower)) (ground (arith, e))
]

-- The line control after `set_up`, step by step.
abbrev pub configured : ℕ → ℕ
configured v = bit_or (bit_or (bit_and (bit_and (bit_or v 0x80) 0x7F) 0xF8) 3) 0

abbrev line_test : ℕ → Bool
line_test v =
    let a = bit_or v 0x80 in
    let b = bit_and a 0x7F in
    let c = bit_and b 0xF8 in
    let d = bit_or c 3 in
    ltb a 256
    && (not (bit_and a 0x80 == 0)
        && (ltb b 256
            && (ltb c 256
                && (ltb d 256
                    && (ltb (bit_or d 0) 256
                        && ((bit_and (bit_or d 0) 0x80 == 0) && (bit_and (bit_or d 0) 7 == 3)))))))

line_table : passes line_test 256 ≡ true
unfolding passes
line_table = refl

abbrev modem_test : ℕ → Bool
modem_test v =
    let a = bit_or v 0x10 in
    ltb a 256
    && (not (bit_and a 0x10 == 0)
        && (ltb (bit_and a 0xEF) 256 && (bit_and (bit_and a 0xEF) 0x10 == 0)))

modem_table : passes modem_test 256 ≡ true
unfolding passes
modem_table = refl

abbrev pub unlooped : ℕ → ℕ
unlooped v = bit_and (bit_or v 0x10) 0xEF

-- 8 data bits, 1 stop bit, the divisor registers closed.
configured_lem :
    (v : ℕ) → v < 256 → (bit_and (configured v) 0x80 ≡ 0) × (bit_and (configured v) 7 ≡ 3)
configured_lem v lt = let e = passes-at line_test 256 v lt line_table in ground (arith, e)

unlooped_lem : (v : ℕ) → v < 256 → bit_and (unlooped v) 0x10 ≡ 0
unlooped_lem v lt = let e = passes-at modem_test 256 v lt modem_table in ground (arith, e)

module _ (hw : Hardware) (polls : ℕ) (view : hw.World → View) (empty : hw.World → Bool)
    (law : Is16550 hw polls view empty) where
  open hw use {World, in8, out8}

  update_line :
      (f : ℕ → ℕ) (w : World)
      → f (view w).line_control < 256
      → view (update8 hw com_port_line_control f w)
        ≡ record (view w) { line_control = f (view w).line_control }
  update_line f w lt = rw (update8, law.in_line w) (law.out_line (f (view w).line_control) w lt)

  update_modem :
      (f : ℕ → ℕ) (w : World)
      → f (view w).modem_control < 256
      → view (update8 hw com_port_modem_control f w)
        ≡ record (view w) { modem_control = f (view w).modem_control }
  update_modem f w lt = rw (update8, law.in_modem w) (law.out_modem (f (view w).modem_control) w lt)

  set_up-view :
      (w : World)
      → view (set_up hw w) ≡ record (view w) { line_control = configured (view w).line_control }
  unfolding set_up
  set_up-view w =
      let l = (view w).line_control in
      let test = passes-at line_test 256 l (law.byte_line w) line_table in
      let w1 = update8 hw com_port_line_control (λ v. bit_or v 0x80) w in
      let e1 : view w1 ≡ record (view w) { line_control = bit_or l 0x80 } =
        update_line (λ v. bit_or v 0x80) w (ground (arith, test)) in
      let is_open : divisor_open (record (view w) { line_control = bit_or l 0x80 }) ≡ true =
        ground (arith, test) in
      let w2 =
        out8 com_port_interrupt_enable (1 / 2 ^ 8) (out8 com_port_data (bit_and 1 0xFF) w1) in
      let e2 : view w2 ≡ record (view w) { line_control = bit_or l 0x80 } =
        law.out_interrupt (1 / 2 ^ 8) (out8 com_port_data (bit_and 1 0xFF) w1)
        ∙ (law.out_data (bit_and 1 0xFF) w1 (inl (rw e1 is_open)) ∙ rw (e1, is_open) refl) in
      let w3 = update8 hw com_port_line_control (λ v. bit_and v 0x7F) w2 in
      let e3 : view w3 ≡ record (view w) { line_control = bit_and (bit_or l 0x80) 0x7F } =
        update_line (λ v. bit_and v 0x7F) w2 (rw e2 (ground (arith, test))) ∙ rw e2 refl in
      let w4 = update8 hw com_port_line_control (λ v. bit_and v 0xF8) w3 in
      let e4 : view w4
          ≡ record (view w) { line_control = bit_and (bit_and (bit_or l 0x80) 0x7F) 0xF8 } =
        update_line (λ v. bit_and v 0xF8) w3 (rw e3 (ground (arith, test))) ∙ rw e3 refl in
      let w5 = update8 hw com_port_line_control (λ v. bit_or v 3) w4 in
      let e5 : view w5 ≡ record (view w) {
        line_control = bit_or (bit_and (bit_and (bit_or l 0x80) 0x7F) 0xF8) 3;
      } =
        update_line (λ v. bit_or v 3) w4 (rw e4 (ground (arith, test))) ∙ rw e4 refl in
      let w6 = update8 hw com_port_line_control (λ v. bit_or v 0) w5 in
      let e6 : view w6 ≡ record (view w) { line_control = configured l } =
        update_line (λ v. bit_or v 0) w5 (rw e5 (ground (arith, test))) ∙ rw e5 refl in
      law.out_fifo 0x31 w6 ∙ e6

  module _ (w : World) (closed : divisor_open (view w) ≡ false) where
    abbrev modem : ℕ
    modem = (view w).modem_control

    abbrev in_loop : World
    in_loop = update8 hw com_port_modem_control (λ v. bit_or v 0x10) w

    abbrev tested : World
    tested = (in8 com_port_data (out8 com_port_data b'X' in_loop)).1

    in_loop-view : view in_loop ≡ record (view w) { modem_control = bit_or modem 0x10 }
    in_loop-view =
        let test = passes-at modem_test 256 modem (law.byte_modem w) modem_table in
        update_modem (λ v. bit_or v 0x10) w (ground (arith, test))

    looped_in_loop : looped (record (view w) { modem_control = bit_or modem 0x10 }) ≡ true
    looped_in_loop =
        let test = passes-at modem_test 256 modem (law.byte_modem w) modem_table in
        ground (arith, test)

    tested-view : view tested ≡ record (view w) { modem_control = bit_or modem 0x10 }
    tested-view =
        law.in_data (out8 com_port_data b'X' in_loop)
        ∙ (law.out_data b'X' in_loop (inr (inl (rw in_loop-view looped_in_loop)))
            ∙ rw (in_loop-view, closed, looped_in_loop) refl)

    detect-view :
        (w' : World) × (detect hw w ≡ (true, w'))
        × (view w' ≡ record (view w) { modem_control = unlooped modem })
    unfolding detect
    detect-view =
        let test = passes-at modem_test 256 modem (law.byte_modem w) modem_table in
        let back : (in8 com_port_data (out8 com_port_data b'X' in_loop)).0 ≡ b'X' =
          law.loop_back b'X' in_loop (rw in_loop-view closed) (rw in_loop-view looped_in_loop) in
        let same : ((in8 com_port_data (out8 com_port_data b'X' in_loop)).0 == b'X') ≡ true =
          eq→== _ b'X' back in
        (
          update8 hw com_port_modem_control (λ v. bit_and v 0xEF) tested,
          rw (detect, same) refl,
          update_modem (λ v. bit_and v 0xEF) tested (rw tested-view (ground (arith, test)))
              ∙ rw tested-view refl,
        )

  uart_init-view :
      (u : Uart hw)
      → ((uart_init hw u).present ≡ true)
        × (view (uart_init hw u).world ≡ record {
          line_control = configured (view u.world).line_control;
          modem_control = unlooped (view u.world).modem_control;
          sent = (view u.world).sent;
        })
  unfolding uart_init
  uart_init-view u =
      let e = set_up-view u.world in
      let closed : divisor_open (view (set_up hw u.world)) ≡ false =
        rw e (ground (arith, configured_lem (view u.world).line_control (law.byte_line u.world))) in
      let (w', found, v) = detect-view (set_up hw u.world) closed in
      (
        rw (uart_init, found) refl,
        rw (uart_init, found)
            (v ∙ ap (λ (x : View). record x { modem_control = unlooped x.modem_control }) e),
      )

  -- A port behaves as a 16550 should: it is found, and then its line is set to 8 data bits and 1 stop bit, the
  -- divisor registers are closed, the loop-back mode is off, and nothing was sent.
  pub uart_init-IsOpen :
      (u : Uart hw)
      → let v = view (uart_init hw u).world in
        ((uart_init hw u).present ≡ true)
        × (bit_and v.line_control 7 ≡ 3)
        × IsOpen v
        × (v.sent ≡ (view u.world).sent)
  uart_init-IsOpen u =
      let (present, e) = uart_init-view u in
      let line = configured_lem (view u.world).line_control (law.byte_line u.world) in
      let modem = unlooped_lem (view u.world).modem_control (law.byte_modem u.world) in
      (present, rw e line.1, (rw e (ground (arith, line)), rw e (ground (arith, modem))), rw e refl)
