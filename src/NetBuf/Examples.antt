-- ===== src/NetBuf/Examples.antt =====
-- Runs of netbuf.rs at a buffer of eight bytes.
use daqingest.Base.{[], ◌∷◌, arith}
use daqingest.NetBuf.{NetBuf, put_slice}
use daqingest.NetBuf.Space.{Put, put_slice-Put}

-- One byte is held, at the end.
abbrev late : NetBuf
late = record { buf = 9 ∷ 9 ∷ 9 ∷ 9 ∷ 9 ∷ 9 ∷ 9 ∷ 1 ∷ []; wp = 8; rp = 7 }

-- Two bytes are held, and the space behind them is short.
abbrev middle : NetBuf
middle = record { buf = 9 ∷ 9 ∷ 9 ∷ 9 ∷ 1 ∷ 2 ∷ 9 ∷ 9 ∷ []; wp = 6; rp = 4 }

put_slice-Put_example : Put (3 ∷ 4 ∷ 5 ∷ []) late (put_slice (3 ∷ 4 ∷ 5 ∷ []) late)
put_slice-Put_example = put_slice-Put (3 ∷ 4 ∷ 5 ∷ []) (omega arith)
