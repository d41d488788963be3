-- ===== src/SlideBuf/Examples.antt =====
-- Runs of slidebuf.rs at concrete buffers.
use daqingest.Base.{ℕ, ◌≡◌, refl, List, [], ◌∷◌, arith, ok, ◌>>◌}
use daqingest.SlideBuf.{SlideBuf, make_room, put_slice}
use daqingest.SlideBuf.Invariant.{IsValid, contents}
use daqingest.SlideBuf.Room.{MadeRoom, make_room_lem}
use daqingest.SlideBuf.Write.{Appended, put_slice_lem}
use daqingest.SlideBuf.Queue.{
  Call, put_slice_call, put_u16_call, read_u16_call, read_bytes_call, adv_call, reset_call, run,
  queue_run, run_refines,
}
use daqingest.SlideBuf.RoundTrip.{Kind, u8, u16, f32, put_all, read_all, read_all-put_all}

-- eight bytes, of which three are to be read
abbrev half : SlideBuf
half = record { buf = 9 ∷ 9 ∷ 1 ∷ 2 ∷ 3 ∷ 9 ∷ 9 ∷ 9 ∷ []; wp = 5; rp = 2 }

half-IsValid : IsValid half
half-IsValid = omega arith

abbrev blank : SlideBuf
blank = record { buf = 0 ∷ 0 ∷ 0 ∷ 0 ∷ 0 ∷ 0 ∷ 0 ∷ []; wp = 0; rp = 0 }

blank-IsValid : IsValid blank
blank-IsValid = omega arith

-- The second write makes the buffer move its bytes, and the third one fails.
abbrev calls : List Call
calls =
    read_u16_call
    ∷ put_slice_call (4 ∷ 5 ∷ 6 ∷ [])
    ∷ put_slice_call (7 ∷ 8 ∷ 9 ∷ [])
    ∷ put_u16_call 258
    ∷ read_bytes_call 4
    ∷ adv_call 9
    ∷ reset_call
    ∷ read_u16_call
    ∷ []

run_refines_example : run calls half ≡ queue_run 8 calls (1 ∷ 2 ∷ 3 ∷ [])
run_refines_example = run_refines calls half-IsValid

put_slice_lem_example : Appended (4 ∷ 5 ∷ 6 ∷ 7 ∷ []) half (put_slice (4 ∷ 5 ∷ 6 ∷ 7 ∷ []) half)
put_slice_lem_example = put_slice_lem (4 ∷ 5 ∷ 6 ∷ 7 ∷ []) half-IsValid

make_room_lem_example : MadeRoom 5 half (make_room 5 half)
make_room_lem_example = make_room_lem 5 half-IsValid

abbrev fields : List (Kind × ℕ)
fields = (u8, 200) ∷ (u16, 513) ∷ (f32, 70000) ∷ []

read_all-put_all_example :
    (s' : SlideBuf) × ((put_all fields >> read_all fields) blank
      ≡ (ok (200 ∷ 513 ∷ 70000 ∷ []), s'))
    × IsValid s'
    × (contents s' ≡ [])
read_all-put_all_example = read_all-put_all fields blank-IsValid refl (omega arith) (omega arith)
