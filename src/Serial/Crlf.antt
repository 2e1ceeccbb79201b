-- ===== src/Serial/Crlf.antt =====
-- What the port sends for a text: every line feed behind a carriage return.
use ga_os.Base.{ℕ, zero, suc, ◌≡◌, Bool, true, ◌==◌, if◌then◌else◌, List, [], ◌∷◌, ◌++◌}
use ga_os.Libc.Strings.{CString, skip}
use ga_os.Serial.{Hardware, Uart}
use ga_os.Serial.Port.{View, Is16550, IsOpen}

abbrev pub expand : ℕ → List ℕ
expand c = if c == 10 then 13 ∷ c ∷ [] else c ∷ []

-- The first `n` bytes of a text, each line feed behind a carriage return.
abbrev pub crlf : ℕ → CString → List ℕ
crlf zero s = []
crlf (suc n) s = expand (s 0) ++ crlf n (skip s 1)

abbrev pub add_sent : View → List ℕ → View
add_sent v bytes = record v { sent = v.sent ++ bytes }

module _ (hw : Hardware) (polls : ℕ) (view : hw.World → View) (empty : hw.World → Bool)
    (law : Is16550 hw polls view empty) where
  open hw use {World, in8, out8}

  -- The port is there, and what is written to it is sent.
  abbrev IsOn : Uart hw → Type 0
  IsOn u = (u.present ≡ true) × IsOpen (view u.world)
