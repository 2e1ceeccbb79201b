-- ===== src/Interrupts/Gates.antt =====
-- The table of gates after `arch_interrupts_init`.
use ga_os.Base.{
  ℕ, zero, suc, ◌+◌, ◌*◌, ◌^◌, ◌≤◌, ◌<◌, ◌≡◌, ◌≢◌, ◌⊎◌, inl, inr, refl, arith, ◌==◌, Bool-cases,
  ==→eq, eq→==, ne→==, ◌∙◌,
}
use ga_os.Interrupts.{
  Gate, Vectors, gate_to, map_vector, map_handlers, interrupts_init, reserve_kernel_vector,
}

-- Where the processor goes through a gate.
abbrev pub entry_point : Gate → ℕ
entry_point g = g.offset + g.offset2 * 2 ^ 16 + g.offset3 * 2 ^ 32

-- A gate that is present, for user code as well, with interrupts off and the stack 1, into kernel code at the
-- handler.
abbrev pub LeadsTo : Gate → ℕ → Type 0
LeadsTo g handler =
    (entry_point g ≡ handler) × (g.segment_selector ≡ 8) × (g.ist ≡ 1) × (g.attributes ≡ 0b11101110)

gate_to-LeadsTo : (handler : ℕ) → handler < 2 ^ 64 → LeadsTo (gate_to handler) handler
unfolding gate_to
gate_to-LeadsTo handler lt = (omega arith, refl, refl, refl)

map_vector-other :
    (vector handler v : ℕ) (gates : ℕ → Gate)
    → v ≢ vector
    → map_vector vector handler gates v ≡ gates v
unfolding map_vector
map_vector-other vector handler v gates ne = rw (ne→== v vector ne) refl

map_vector-same :
    (vector handler : ℕ) (gates : ℕ → Gate)
    → map_vector vector handler gates vector ≡ gate_to handler
unfolding map_vector
map_vector-same vector handler gates = rw (eq→== vector vector refl) refl

map_handlers-outside :
    (rounds i v : ℕ) (handlers : ℕ → ℕ) (gates : ℕ → Gate)
    → (v < i) ⊎ (i + rounds ≤ v)
    → map_handlers rounds i handlers gates v ≡ gates v
unfolding map_handlers
map_handlers-outside zero i v handlers gates out = refl
map_handlers-outside (suc rounds) i v handlers gates out =
    map_handlers-outside rounds (i + 1) v handlers (map_vector i (handlers i) gates) (ground arith)
    ∙ map_vector-other i (handlers i) v gates (ground arith)

map_handlers-inside :
    (rounds i v : ℕ) (handlers : ℕ → ℕ) (gates : ℕ → Gate)
    → i ≤ v
    → v < i + rounds
    → map_handlers rounds i handlers gates v ≡ gate_to (handlers v)
unfolding map_handlers
map_handlers-inside zero i v handlers gates le lt = absurd (omega arith)
map_handlers-inside (suc rounds) i v handlers gates le lt = elim (Bool-cases (v == i)) [
  | inl here ↦
      let e = ==→eq v i here in
      rw e (
        map_handlers-outside rounds (i + 1) i handlers (map_vector i (handlers i) gates)
          (inl (omega arith))
        ∙ map_vector-same i (handlers i) gates)
  | inr past ↦
      map_handlers-inside rounds (i + 1) v handlers (map_vector i (handlers i) gates) (ground arith)
        (omega arith)
]

-- With handlers at 64-bit addresses, each vector that the size of the table covers has a present gate of ring 3 and
-- kernel code that leads to its handler after `arch_interrupts_init`, and still does after a vector was reserved and
-- mapped to another handler, unless it is that vector, which then leads to the other handler in the same way.
pub interrupts_init-entry_point :
    (handlers : ℕ → ℕ) (s : Vectors) (handler v : ℕ)
    → ((i : ℕ) → handlers i < 2 ^ 64)
    → handler < 2 ^ 64
    → v * 16 + 15 ≤ (interrupts_init handlers s).size
    → let (vector, t) = reserve_kernel_vector (interrupts_init handlers s) in
      LeadsTo (t.gates v) (handlers v)
      × (vector ≡ s.vector_base)
      × LeadsTo (map_vector vector handler t.gates vector) handler
      × (v ≢ vector → LeadsTo (map_vector vector handler t.gates v) (handlers v))
unfolding interrupts_init reserve_kernel_vector
interrupts_init-entry_point handlers s handler v small below covered =
    let gate = map_handlers-inside 0xFF 0 v handlers s.gates (omega arith) (omega arith) in
    let e = gate_to-LeadsTo (handlers v) (small v) in
    (
      rw gate e,
      refl,
      rw (map_vector-same s.vector_base handler (map_handlers 0xFF 0 handlers s.gates))
          (gate_to-LeadsTo handler below),
      λ ne.
          rw
            (
              map_vector-other s.vector_base handler v (map_handlers 0xFF 0 handlers s.gates) ne,
              gate,
            )
            e,
    )
