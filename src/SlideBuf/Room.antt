-- ===== src/SlideBuf/Room.antt =====
-- The three steps by which a write finds room: what they keep, and when there is room.
use daqingest.Base.{
  ℕ, ◌-◌, ◌+◌, ◌≤◌, ◌≡◌, refl, sym, ap, ◌∙◌, ◌⊎◌, arith, length, take, drop, leb, ltb, ◌==◌, ◌||◌,
  Bool, if◌then◌else◌, ok, err, Outcome,
}
use daqingest.SlideBuf.{
  SlideBuf, Error, not_enough_space, rewind_if_needed, rewind_if_short, check_space, make_room, cap,
  reset,
}
use daqingest.SlideBuf.Invariant.{
  IsValid, Kept, contents, rewind-eq, rewound-Kept, length-contents, wcap-eq,
}

pub Kept-refl : {s : SlideBuf} → IsValid s → Kept s s
Kept-refl v = record { valid = v; same = refl; size = refl }

pub Kept-trans : {s t u : SlideBuf} → Kept s t → Kept t u → Kept s u
Kept-trans h k = record { valid = k.valid; same = k.same ∙ h.same; size = k.size ∙ h.size }

reset-Kept : {s : SlideBuf} → IsValid s → s.rp ≡ s.wp → Kept s (record s { wp = 0; rp = 0 })
reset-Kept {s} v e = record {
  valid = omega arith;
  same = ap (λ n. take n (drop s.rp s.buf)) {x = 0} (omega arith);
  size = refl;
}

module _ {s : SlideBuf} (n : ℕ) (v : IsValid s) where
  pub rewind_if_needed-Kept : ((rewind_if_needed n s).0 ≡ ok tt) × Kept s (rewind_if_needed n s).1
  unfolding rewind_if_needed
  rewind_if_needed-Kept = ground (arith, rewind-eq v, rewound-Kept v, reset-Kept v, Kept-refl v)

  pub rewind_if_short-Kept : ((rewind_if_short n s).0 ≡ ok tt) × Kept s (rewind_if_short n s).1
  unfolding rewind_if_short
  rewind_if_short-Kept = ground (arith, rewind-eq v, rewound-Kept v, Kept-refl v)

  -- Either there is room, or the bytes stand at the front.
  pub rewind_if_short-room :
      let s' = (rewind_if_short n s).1 in (n ≤ length s'.buf - s'.wp) ⊎ (s'.rp ≡ 0)
  unfolding rewind_if_short
  rewind_if_short-room = ground (arith, rewind-eq v, wcap-eq v)

  check_space-eq : check_space n s ≡ (
    if leb (s.wp + n) (length s.buf)
        then ok tt
        else err (not_enough_space (length s.buf) (length s.buf - s.wp) n),
    s,
  )
  unfolding check_space cap
  check_space-eq = ground (arith, wcap-eq v)

abbrev pub room_reply : SlideBuf → ℕ → Outcome Error Unit
room_reply s n =
    if leb (length (contents s) + n) (length s.buf)
    then ok tt
    else err (not_enough_space (length s.buf) (length s.buf - length (contents s)) n)

-- what `make_room` does, from a state with `n` bytes asked for
pub record MadeRoom (n : ℕ) (s : SlideBuf) (out : Outcome Error Unit × SlideBuf) : Type 0 where
  pub kept : Kept s out.1
  pub reply : out.0 ≡ room_reply s n
  pub room : length (contents s) + n ≤ length s.buf → out.1.wp + n ≤ length s.buf

pub check_space-MadeRoom :
    {s t : SlideBuf} (n : ℕ)
    → IsValid s
    → Kept s t
    → (n ≤ length t.buf - t.wp) ⊎ (t.rp ≡ 0)
    → MadeRoom n s (check_space n t)
check_space-MadeRoom {s} {t} n v k room =
    rw (check_space-eq n k.valid)
      record { kept = k; reply = ground (arith, held, k.size); room = ground (arith, held, k.size) }
  where
    held : length (contents s) ≡ t.wp - t.rp
    held = ap length (sym k.same) ∙ length-contents k.valid

-- The buffer makes room for `n` bytes exactly when they fit beside those that it holds, and the
-- bytes are kept in either case.
pub make_room_lem : {s : SlideBuf} (n : ℕ) → IsValid s → MadeRoom n s (make_room n s)
unfolding make_room
make_room_lem {s} n v =
    let a = rewind_if_needed-Kept n v in
    let b = rewind_if_short-Kept n a.1.valid in
    ground (
      arith,
      a,
      b,
      check_space-MadeRoom n v (Kept-trans a.1 b.1) (rewind_if_short-room n a.1.valid),
    )

-- Making room never moves the write position forward.
module _ {s : SlideBuf} (n : ℕ) (v : IsValid s) where
  rewind_if_needed-back : (rewind_if_needed n s).1.wp ≤ s.wp
  unfolding rewind_if_needed
  rewind_if_needed-back = ground (arith, rewind-eq v)

  rewind_if_short-back : (rewind_if_short n s).1.wp ≤ s.wp
  unfolding rewind_if_short
  rewind_if_short-back = ground (arith, rewind-eq v)

pub make_room-back : {s : SlideBuf} (n : ℕ) → IsValid s → (make_room n s).1.wp ≤ s.wp
unfolding make_room check_space
make_room-back {s} n v =
    let a = rewind_if_needed-Kept n v in
    let b = rewind_if_short-Kept n a.1.valid in
    ground (arith, a, b, rewind_if_needed-back n v, rewind_if_short-back n a.1.valid)

-- The bytes held are moved to the front when there are none, or when what is needed does not fit
-- behind them.
abbrev pub moves : ℕ → SlideBuf → Bool
moves n s = s.rp == s.wp || ltb (length s.buf) (s.wp + n)

-- the bytes that can be written behind those held, when `n` are needed
abbrev pub area_size : ℕ → SlideBuf → ℕ
area_size n s = if moves n s then length s.buf - (s.wp - s.rp) else length s.buf - s.wp

module _ {s : SlideBuf} (n : ℕ) (v : IsValid s) (h : n ≤ length s.buf) where
  needed-wp :
      (rewind_if_needed n s).1.wp
      ≡ (if s.rp == s.wp || ltb (length s.buf) (s.rp + n) then s.wp - s.rp else s.wp)
  unfolding rewind_if_needed cap reset
  needed-wp = ground (arith, rewind-eq v)

  needed-rp :
      (rewind_if_needed n s).1.rp
      ≡ (if s.rp == s.wp || ltb (length s.buf) (s.rp + n) then 0 else s.rp)
  unfolding rewind_if_needed cap reset
  needed-rp = ground (arith, rewind-eq v)

  short-wp :
      (rewind_if_short n s).1.wp ≡ (if ltb (length s.buf - s.wp) n then s.wp - s.rp else s.wp)
  unfolding rewind_if_short
  short-wp = ground (arith, rewind-eq v, wcap-eq v)

pub make_room-area :
    {s : SlideBuf} (n : ℕ)
    → IsValid s
    → n ≤ length s.buf
    → length s.buf - (make_room n s).1.wp ≡ area_size n s
unfolding make_room check_space
make_room-area {s} n v h =
    let a = rewind_if_needed-Kept n v in
    let b = rewind_if_short-Kept n a.1.valid in
    ground (
      arith,
      a,
      b,
      a.1.size,
      needed-wp n v h,
      needed-rp n v h,
      short-wp n a.1.valid (omega (arith, a.1.size)),
    )
