-- ===== src/Tests/Strings.antt =====
-- Theorems on printing, reading and cutting text, and on the serial port, at concrete inputs.
use omb.Base.{ℕ, ◌-◌, ◌^◌, ◌≡◌, refl, none, some, List, [], ◌∷◌, arith, get_or, ◌++◌}
use omb.Text.{Chars, vsnprintf, snprintf, digit_char}
use omb.Text.Format.{
  Piece, plain, shows, percent, signed, text, format_of, arguments_of, text_of, Formatted,
  vsnprintf_lem,
}
use omb.Text.Token.{strtok}
use omb.Text.Scan.{sscanf, number}
use omb.Text.Scan.Trip.{line_of, snprintf-sscanf}
use omb.Text.Token.Cutting.{Tokens, strtok_lem}
use omb.Kern.State.{ok, pid_all}
use omb.Kern.Sys.{sys_send, sys_recv}
use omb.Board.Uart.{Uart, debug}
use omb.Board.Uart.Output.{Debugged, IsServed, with_returns, debug_lem}
use omb.Server.{At, offer_call, hello}
use omb.Server.Serving.{Message, server_run, received_as, replies, output, Served, server_lem}

abbrev chars_of : List ℕ → Chars
chars_of cs i = get_or cs i 0

abbrev blank : Chars
blank i = 46

-- "n=%i %s%%\n", -5, "ab"
abbrev pieces : List Piece
pieces =
    plain 110
    ∷ plain 61
    ∷ shows (signed (2 ^ 32 - 5))
    ∷ plain 32
    ∷ shows (text (chars_of (97 ∷ 98 ∷ [])) (97 ∷ 98 ∷ []))
    ∷ shows percent
    ∷ plain 10
    ∷ []

abbrev pieces_chars : Chars
pieces_chars = chars_of (format_of pieces)

vsnprintf_lem_example :
    Formatted blank 6 (text_of pieces) (vsnprintf 40 blank 6 pieces_chars (arguments_of pieces))
vsnprintf_lem_example =
    vsnprintf_lem pieces 40 blank 6 pieces_chars
      (cc, (cc, (tt, (cc, (ground arith, (tt, (cc, tt))))))) (ground arith) (omega arith)

-- "12,7"
abbrev behind : List (ℕ × ℕ)
behind = (44, 7) ∷ []

abbrev printing : List Piece
printing = line_of 12 behind

abbrev reading : Chars
reading = chars_of (37 ∷ 105 ∷ 44 ∷ 37 ∷ 105 ∷ [])

snprintf-sscanf_example :
    (s : Chars) × (n : ℕ) × (snprintf 60 blank 20
        (chars_of (format_of printing))
        (arguments_of printing)
      ≡ some (s, n))
    × (sscanf 60 s reading ≡ some (2, number 12 ∷ number 7 ∷ []))
snprintf-sscanf_example =
    snprintf-sscanf 12 behind 60 20 blank (chars_of (format_of printing)) reading (omega arith)
      (refl, cc, omega arith, tt) (ground arith) (ground arith) (omega arith) (omega arith)

-- "ab  c", cut at a blank.
abbrev spaced : List ℕ
spaced = 97 ∷ 98 ∷ 32 ∷ 32 ∷ 99 ∷ []

strtok_lem_example :
    Tokens 9
      (chars_of spaced)
      0
      32
      (chars_of (32 ∷ []))
      spaced
      (strtok 9 (chars_of spaced) none (some 0) (chars_of (32 ∷ [])))
    × Tokens 9
        (chars_of spaced)
        0
        32
        (chars_of (32 ∷ []))
        spaced
        (strtok 9 (chars_of spaced) (some 0) none (chars_of (32 ∷ [])))
strtok_lem_example =
    strtok_lem (chars_of (32 ∷ [])) 32 (ground arith) spaced 9 (chars_of spaced) 0 (ground arith)
      (omega arith) none

-- A device that is always ready.
abbrev device : Uart
device = record { lsr = λ n. 32; reads = 0; sent = [] }

device-IsServed : IsServed device.lsr 1
device-IsServed n = (0, omega arith, cc)

debug_lem_example :
    Debugged device (text_of pieces) (debug 40 1 blank pieces_chars (arguments_of pieces) device)
unfolding digit_char
debug_lem_example =
    debug_lem pieces 40 1 1 blank pieces_chars device (omega arith) device-IsServed
      (cc, (cc, (tt, (cc, (ground arith, (tt, (cc, tt))))))) (ground arith) (ground arith)
      (omega arith)

-- Process 4 sends "ab".
abbrev sent : List Message
sent = record { sender = 4; bytes = chars_of (97 ∷ 98 ∷ []); text = 97 ∷ 98 ∷ [] } ∷ []

server_lem_example :
    Served device
      (offer_call ∷ sys_send 0 ∷ sys_recv pid_all ∷ replies sent)
      (with_returns hello ++ output sent)
      (server_run 40 1 At.starting
        ((4096, blank) ∷ (ok, blank) ∷ (ok, blank) ∷ received_as sent)
        device)
server_lem_example =
    server_lem 40 1 1 sent 4096 blank blank blank device (omega arith) device-IsServed
      (ground arith, omega arith, tt) (omega arith)
