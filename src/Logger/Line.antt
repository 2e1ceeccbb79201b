-- ===== src/Logger/Line.antt =====
-- The line that `_log` prints, and the time in it.
use ga_os.Base.{
  ℕ, ◌+◌, ◌/◌, ◌%◌, ◌^◌, ◌<◌, ◌≡◌, refl, arith, Bool, Option, if◌then◌else◌, List, [], ◌∷◌, ◌++◌,
  some,
}
use ga_os.Libc.Format.{Arg, conversion, convert, format, vprintk_unsafe, vprintk_serial_unsafe}
use ga_os.Libc.Format.Digits.{value_of, conversion-value_of, conversion_digit}
use ga_os.Logger.{log, three, prefix_format, prefix_arguments}

-- "[s.ddd] module: "
abbrev pub prefix_text : (seconds : List ℕ) (miliseconds : ℕ) (module_name : List ℕ) → List ℕ
prefix_text seconds miliseconds module_name =
    b'['
    ∷ (seconds
        ++ b'.'
          ∷ (b'0' + miliseconds % 1000 / 100)
          ∷ (b'0' + miliseconds % 100 / 10)
          ∷ (b'0' + miliseconds % 10)
          ∷ b']'
          ∷ b' '
          ∷ (module_name ++ b':' ∷ b' ' ∷ []))

prefix_text-format :
    (seconds : List ℕ) (miliseconds : ℕ) (module_name : List ℕ)
    → conversion 10 (miliseconds / 1000) ≡ some seconds
    → format prefix_format (prefix_arguments miliseconds module_name)
      ≡ some (prefix_text seconds miliseconds module_name)
unfolding format convert
prefix_text-format seconds miliseconds module_name e =
    let e1 = conversion_digit (miliseconds % 1000 / 100) (omega arith) in
    let e2 = conversion_digit (miliseconds % 100 / 10) (omega arith) in
    let e3 = conversion_digit (miliseconds % 10) (omega arith) in ground (arith, e, e1, e2, e3)

three-line :
    (print : List ℕ → List Arg → Option (List ℕ)) (seconds : List ℕ) (miliseconds : ℕ)
    (module_name fmt : List ℕ) (args : List Arg) (body : List ℕ)
    → print prefix_format (prefix_arguments miliseconds module_name)
      ≡ some (prefix_text seconds miliseconds module_name)
    → print fmt args ≡ some body
    → print (10 ∷ []) [] ≡ some (10 ∷ [])
    → three print miliseconds module_name fmt args
      ≡ some (prefix_text seconds miliseconds module_name ++ body ++ 10 ∷ [])
three-line print seconds miliseconds module_name fmt args body e1 e2 e3 =
    rw (three, e1, e2, e3) refl

format-line :
    (miliseconds : ℕ) (module_name fmt : List ℕ) (args : List Arg) (body seconds : List ℕ)
    → conversion 10 (miliseconds / 1000) ≡ some seconds
    → format fmt args ≡ some body
    → three format miliseconds module_name fmt args
      ≡ some (prefix_text seconds miliseconds module_name ++ body ++ 10 ∷ [])
unfolding format
format-line miliseconds module_name fmt args body seconds e printed =
    three-line format seconds miliseconds module_name fmt args body
      (prefix_text-format seconds miliseconds module_name e) printed refl

-- The time that a reader of the prefix finds: the seconds, and the three digits behind the point.
abbrev pub time_of : (seconds : List ℕ) (miliseconds : ℕ) → ℕ
time_of seconds miliseconds = value_of 10 (value_of 10 0 seconds) (
    (b'0' + miliseconds % 1000 / 100)
    ∷ (b'0' + miliseconds % 100 / 10)
    ∷ (b'0' + miliseconds % 10)
    ∷ [])

time_of-seconds :
    (seconds : List ℕ) (miliseconds : ℕ)
    → value_of 10 0 seconds ≡ miliseconds / 1000
    → time_of seconds miliseconds ≡ miliseconds
time_of-seconds seconds miliseconds e = ground (arith, e)

-- For a message that can be formatted, at a time below 2 ^ 64 nanoseconds: the serial port gets one line, the
-- prefix and the message, the framebuffer the same line if it is there, and the digits of the prefix read as the
-- whole milliseconds of that time, which is 0 while no timer keeps time.
pub log-line :
    (framebuffer_available time_keeping_capable : Bool) (nanoseconds : ℕ) (module_name fmt : List ℕ)
    (args : List Arg) (body : List ℕ)
    → nanoseconds < 2 ^ 64
    → format fmt args ≡ some body
    → let miliseconds : ℕ = (if time_keeping_capable then nanoseconds else 0) / 1000000 in
      (seconds : List ℕ) × (time_of seconds miliseconds ≡ miliseconds)
      × (log framebuffer_available time_keeping_capable nanoseconds module_name fmt args
          ≡ some (record {
            framebuffer =
                if framebuffer_available
                then prefix_text seconds miliseconds module_name ++ body ++ 10 ∷ []
                else [];
            serial = prefix_text seconds miliseconds module_name ++ body ++ 10 ∷ [];
          }))
unfolding log vprintk_unsafe vprintk_serial_unsafe
log-line framebuffer_available time_keeping_capable nanoseconds module_name fmt args body small
      printed =
    let time : ℕ = if time_keeping_capable then nanoseconds else 0 in
    let miliseconds : ℕ = time / 1000000 in
    let below : time < 2 ^ 64 = ground arith in
    let (seconds, e, denotes) =
      conversion-value_of 10 (miliseconds / 1000) (omega arith) (omega arith) (omega arith)
        (omega arith) in
    (
      seconds,
      time_of-seconds seconds miliseconds denotes,
      ground (arith, format-line miliseconds module_name fmt args body seconds e printed),
    )
