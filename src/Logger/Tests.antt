-- ===== src/Logger/Tests.antt =====
-- A line at 1.234 seconds.
use ga_os.Base.{ℕ, ◌/◌, ◌≡◌, refl, arith, true, false, List, [], ◌∷◌, ◌++◌, some}
use ga_os.Libc.Format.{format}
use ga_os.Logger.{log}
use ga_os.Logger.Line.{prefix_text, time_of, log-line}

abbrev vfs : List ℕ
vfs = b'v' ∷ b'f' ∷ b's' ∷ []

abbrev message : List ℕ
message = b'h' ∷ b'i' ∷ []

format-message : format message [] ≡ some message
unfolding format
format-message = refl

log-line_example :
    let miliseconds : ℕ = 1234567890 / 1000000 in
    (seconds : List ℕ) × (time_of seconds miliseconds ≡ miliseconds)
    × (log false true 1234567890 vfs message []
        ≡ some (record {
          framebuffer = [];
          serial = prefix_text seconds miliseconds vfs ++ message ++ 10 ∷ [];
        }))
log-line_example =
    log-line false true 1234567890 vfs message [] message (omega arith) format-message
