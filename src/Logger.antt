-- ===== src/Logger.antt =====
-- `_log` of kernel/src/misc/logger.c: what a line of the log sends to the framebuffer and to the serial port.
-- `module` and the colours are arguments; the lock makes the line one step.
pub mod Line
mod Tests
use ga_os.Base.{
  ℕ, ◌/◌, ◌%◌, Bool, true, false, if◌then◌else◌, Option, none, some, List, [], ◌∷◌, ◌++◌,
}
use ga_os.Libc.Format.{Arg, number, text, vprintk_unsafe, vprintk_serial_unsafe}

-- "[%d.%d%d%d] %s: "
abbrev pub prefix_format : List ℕ
prefix_format =
    b'[' ∷ b'%' ∷ b'd' ∷ b'.' ∷ b'%' ∷ b'd' ∷ b'%' ∷ b'd' ∷ b'%' ∷ b'd' ∷ b']' ∷ b' ' ∷ b'%' ∷ b's'
    ∷ b':' ∷ b' ' ∷ []

abbrev pub prefix_arguments : (miliseconds : ℕ) (module_name : List ℕ) → List Arg
prefix_arguments miliseconds module_name =
    number (miliseconds / 1000)
    ∷ number (miliseconds % 1000 / 100)
    ∷ number (miliseconds % 100 / 10)
    ∷ number (miliseconds % 10)
    ∷ text module_name
    ∷ []

-- Three calls that print, one after the other.
abbrev pub three :
    (List ℕ → List Arg → Option (List ℕ))
    → ℕ
    → (module_name fmt : List ℕ) → List Arg
    → Option (List ℕ)
three print miliseconds module_name fmt args =
    elim (print prefix_format (prefix_arguments miliseconds module_name)) [
      | none ↦ none
      | some first ↦ elim (print fmt args) [
        | none ↦ none
        | some second ↦ elim (print (10 ∷ []) []) [
          | none ↦ none
          | some third ↦ some (first ++ second ++ third)
        ]
      ]
    ]

pub record Output : Type 0 where
  pub framebuffer : List ℕ
  pub serial : List ℕ

-- `none` is an argument of `fmt` that is missing or of another kind.
pub log :
    (framebuffer_available time_keeping_capable : Bool) (nanoseconds : ℕ) (module_name fmt : List ℕ)
    → List Arg
    → Option Output
log framebuffer_available time_keeping_capable nanoseconds module_name fmt args =
    let miliseconds : ℕ = (if time_keeping_capable then nanoseconds else 0) / 1000000 in
    elim (if framebuffer_available
      then three vprintk_unsafe miliseconds module_name fmt args
      else some []) [
        | none ↦ none
        | some shown ↦ elim (three vprintk_serial_unsafe miliseconds module_name fmt args) [
          | none ↦ none
          | some sent ↦ some (record { framebuffer = shown; serial = sent })
        ]
      ]
