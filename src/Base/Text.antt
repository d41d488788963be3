-- ===== src/Base/Text.antt =====
-- What the sources use of Rust's strings, over bytes: lossy UTF-8 decoding and debug formatting.
use Prim.Native.Nat.{ℕ, zero, suc, ◌+◌, ◌-◌, ◌/◌, ◌%◌, ◌<◌}
use mathlib.Core.Path.{◌≡◌, refl}
use mathlib.Core.Bool.{Bool, true, false, ◌&&◌}
use mathlib.Core.Option.{Option, none, some}
use mathlib.Core.List.{List, [], ◌∷◌, ◌++◌}
use daqingest.Base.Tests.{ltb, leb, lt→ltb, ◌==◌, if◌then◌else◌}

-- A character that is not complete: its bytes, the range of the next byte, and how many are left.
record Pending : Type 0 where
  bytes : List ℕ
  lo : ℕ
  hi : ℕ
  left : ℕ

abbrev Scan : Type 0
Scan = Option Pending

-- U+FFFD
abbrev pub replacement : List ℕ
replacement = 0xef ∷ 0xbf ∷ 0xbd ∷ []

pending : ℕ → ℕ → ℕ → ℕ → Scan
pending b lo hi left = some (record { bytes = b ∷ []; lo = lo; hi = hi; left = left })

-- A first byte: what it completes, whether it is an error, and what it leaves open.
begin : ℕ → List ℕ × Bool × Scan
unfolding pending
begin b =
    if ltb b 0x80
    then (b ∷ [], true, none)
    else if leb 0xc2 b && leb b 0xdf
    then ([], true, pending b 0x80 0xbf 1)
    else if b == 0xe0
    then ([], true, pending b 0xa0 0xbf 2)
    else if b == 0xed
    then ([], true, pending b 0x80 0x9f 2)
    else if leb 0xe1 b && leb b 0xef
    then ([], true, pending b 0x80 0xbf 2)
    else if b == 0xf0
    then ([], true, pending b 0x90 0xbf 3)
    else if leb 0xf1 b && leb b 0xf3
    then ([], true, pending b 0x80 0xbf 3)
    else if b == 0xf4
    then ([], true, pending b 0x80 0x8f 3)
    else (replacement, false, none)

scan_step : Scan → ℕ → List ℕ × Bool × Scan
unfolding begin
scan_step none b = begin b
scan_step (some p) b =
    let (out, _, next) = begin b in
    if leb p.lo b && leb b p.hi
    then (if p.left == 1 then (p.bytes ++ b ∷ [], true, none) else (
      [],
      true,
      some (record { bytes = p.bytes ++ b ∷ []; lo = 0x80; hi = 0xbf; left = p.left - 1 }),
    ))
    else (replacement ++ out, false, next)

scan : Scan → List ℕ → List ℕ
scan none [] = []
scan (some _) [] = replacement
scan st (b ∷ bs) = let (out, _, next) = scan_step st b in out ++ scan next bs

scan_valid : Scan → List ℕ → Bool
scan_valid none [] = true
scan_valid (some _) [] = false
scan_valid st (b ∷ bs) = let (_, fine, next) = scan_step st b in fine && scan_valid next bs

-- `String::from_utf8_lossy`
unfoldable pub utf8_lossy : List ℕ → List ℕ
unfolding scan scan_step
utf8_lossy bs = scan none bs

unfoldable pub is_utf8 : List ℕ → Bool
unfolding scan_valid scan_step
is_utf8 bs = scan_valid none bs

-- The digits of a number, in front of a text.
digits : ℕ → ℕ → List ℕ → List ℕ
digits zero n rest = rest
digits (suc fuel) n rest =
    let more = digits fuel (n / 10) ((48 + n % 10) ∷ rest) in
    if ltb n 10 then (48 + n) ∷ rest else more

-- A `usize` has at most 20 digits.
unfoldable pub decimal : ℕ → List ℕ
unfolding digits
decimal n = digits 20 n []

debug_items : List ℕ → List ℕ
debug_items [] = []
debug_items (b ∷ []) = decimal b
debug_items (b ∷ c ∷ bs) = decimal b ++ (b',' ∷ b' ' ∷ debug_items (c ∷ bs))

-- `format!("{:?}", bytes)`
unfoldable pub debug_bytes : List ℕ → List ℕ
unfolding debug_items decimal
debug_bytes bs = b'[' ∷ debug_items bs ++ b']' ∷ []

abbrev pub IsAscii : List ℕ → Type 0
IsAscii [] = Unit
IsAscii (b ∷ bs) = (b < 0x80) × IsAscii bs

begin-ascii : (b : ℕ) → b < 0x80 → begin b ≡ (b ∷ [], true, none)
unfolding begin
begin-ascii b h = rw (lt→ltb b 0x80 h)

-- ASCII text is decoded as it stands.
pub utf8_lossy-IsAscii : (bs : List ℕ) → IsAscii bs → utf8_lossy bs ≡ bs
unfolding utf8_lossy
utf8_lossy-IsAscii [] h = refl
utf8_lossy-IsAscii (b ∷ bs) (h, hs) = rw (begin-ascii b h, utf8_lossy-IsAscii bs hs)

lossy_example :
    utf8_lossy (0x41 ∷ 0xc3 ∷ 0xa9 ∷ 0xe0 ∷ 0x80 ∷ 0x42 ∷ [])
    ≡ 0x41 ∷ 0xc3 ∷ 0xa9 ∷ 0xef ∷ 0xbf ∷ 0xbd ∷ 0xef ∷ 0xbf ∷ 0xbd ∷ 0x42 ∷ []
unfolding utf8_lossy
lossy_example = refl

debug_example :
    debug_bytes (0 ∷ 12 ∷ 255 ∷ [])
    ≡ b'[' ∷ b'0' ∷ b',' ∷ b' ' ∷ b'1' ∷ b'2' ∷ b',' ∷ b' ' ∷ b'2' ∷ b'5' ∷ b'5' ∷ b']' ∷ []
unfolding debug_bytes
debug_example = refl
