-- ===== src/Syscalls/Counts.antt =====
-- How many descriptors are open against `fd_count`: sys_open.c, sys_close.c, sys_read.c and the start
-- value in round_robin.c.
use ga_os.Base.{
  ℕ, zero, suc, ◌+◌, ◌-◌, ◌^◌, ◌≤◌, ◌<◌, ◌≡◌, ◌≢◌, refl, ◌==◌, if◌then◌else◌, ltb, Bool-cases, inl,
  inr, arith, ==→eq, ==→ne, eq→==, ne→==, ltb→lt, ltb→le,
}
use ga_os.Scheduler.{Task}
use ga_os.Syscalls.{put_slot}

-- The open descriptors below `n`.
unfoldable pub open_below : (ℕ → ℕ) → ℕ → ℕ
open_below t zero = 0
open_below t (suc n) = open_below t n + (if t n == 0 then 0 else 1)

-- The table of a task created with one more than its open descriptors.
pub record IsCounted (t : Task) : Type 0 where
  pub counted : t.fd_count ≡ open_below t.fd_translation t.fd_max + 1
  pub bounded : t.fd_max < 2 ^ 64 - 1

pub open_below_le : (t : ℕ → ℕ) (n : ℕ) → open_below t n ≤ n
unfolding open_below
open_below_le t zero = omega arith
open_below_le t (suc n) = let rec = open_below_le t n in ground arith

pub put_slot_same : (t : ℕ → ℕ) (fd v i : ℕ) → fd ≢ i → put_slot t fd v i ≡ t i
put_slot_same t fd v i ne = rw (ne→== i fd (ground arith)) refl

pub put_slot_at : (t : ℕ → ℕ) (fd v : ℕ) → put_slot t fd v fd ≡ v
put_slot_at t fd v = rw (eq→== fd fd refl) refl

pub open_below-outside :
    (t : ℕ → ℕ) (fd v n : ℕ) → n ≤ fd → open_below (put_slot t fd v) n ≡ open_below t n
unfolding open_below
open_below-outside t fd v zero le = refl
open_below-outside t fd v (suc n) le =
    rw (open_below-outside t fd v n (omega arith), put_slot_same t fd v n (omega arith)) refl

pub open_below-open :
    (t : ℕ → ℕ) (fd v n : ℕ)
    → fd < n
    → t fd ≡ 0
    → 0 ≢ v
    → open_below (put_slot t fd v) n ≡ open_below t n + 1
unfolding open_below
open_below-open t fd v zero lt free ne = absurd (omega arith)
open_below-open t fd v (suc n) lt free ne = elim (Bool-cases (fd == n)) [
  | inl same ↦
      let at : fd ≡ n = ==→eq fd n same in
      let free' : t n ≡ 0 = rw (← at) free in
      let low : open_below (put_slot t fd v) n ≡ open_below t n =
        open_below-outside t fd v n (omega arith) in
      let up : put_slot t fd v n ≡ v = rw at (put_slot_at t n v) in
      rw (low, up, free', ne→== v 0 (ground arith)) (ground arith)
  | inr other ↦
      let apart : fd ≢ n = ==→ne fd n other in
      let rec : open_below (put_slot t fd v) n ≡ open_below t n + 1 =
        open_below-open t fd v n (omega arith) free ne in
      let up : put_slot t fd v n ≡ t n = put_slot_same t fd v n apart in rw (rec, up) (omega arith)
]

pub open_below-close :
    (t : ℕ → ℕ) (fd n : ℕ) → fd < n → 0 ≢ t fd → open_below (put_slot t fd 0) n + 1 ≡ open_below t n
unfolding open_below
open_below-close t fd zero lt used = absurd (omega arith)
open_below-close t fd (suc n) lt used = elim (Bool-cases (fd == n)) [
  | inl same ↦
      let at : fd ≡ n = ==→eq fd n same in
      let used' : 0 ≢ t n = rw (← at) used in
      let low : open_below (put_slot t fd 0) n ≡ open_below t n =
        open_below-outside t fd 0 n (omega arith) in
      let up : put_slot t fd 0 n ≡ 0 = rw at (put_slot_at t n 0) in
      rw (low, up, ne→== (t n) 0 (ground arith)) (ground arith)
  | inr other ↦
      let apart : fd ≢ n = ==→ne fd n other in
      let rec : open_below (put_slot t fd 0) n + 1 ≡ open_below t n =
        open_below-close t fd n (omega arith) used in
      let up : put_slot t fd 0 n ≡ t n = put_slot_same t fd 0 n apart in rw up (omega arith)
]

-- With every descriptor below `f` open, there are at least `f` of them.
pub open_below-full :
    (t : ℕ → ℕ) (f n : ℕ) → ((j : ℕ) → j < f → 0 ≢ t j) → f ≤ n → f ≤ open_below t n
unfolding open_below
open_below-full t f zero used le = omega arith
open_below-full t f (suc n) used le = elim (Bool-cases (ltb n f)) [
  | inl top ↦
      let lt : n < f = ltb→lt n f top in
      let rec : n ≤ open_below t n =
        open_below-full t n n (λ j lt'. used j (omega arith)) (omega arith) in
      rw (ne→== (t n) 0 (let u = used n lt in ground arith)) (ground arith)
  | inr rest ↦ let rec = open_below-full t f n used (ltb→le n f rest) in ground arith
]

-- None is open from `f` on, so there are at most `f`.
pub open_below-short :
    (t : ℕ → ℕ) (f n : ℕ) → ((j : ℕ) → f ≤ j → j < n → t j ≡ 0) → open_below t n ≤ f
unfolding open_below
open_below-short t f zero free = omega arith
open_below-short t f (suc n) free = elim (Bool-cases (ltb n f)) [
  | inl low ↦ let lt = ltb→lt n f low in let most = open_below_le t n in ground arith
  | inr rest ↦
      let rec = open_below-short t f n (λ j le lt. free j le (omega arith)) in
      let at : t n ≡ 0 = free n (ltb→le n f rest) (omega arith) in ground arith
]
