-- ===== src/SlideBuf/Invariant.antt =====
-- What `check_invariants` of slidebuf.rs tests, the bytes that a buffer holds, and the state that
-- `rewind` leaves.
use daqingest.Base.{
  ℕ, ◌-◌, ◌≤◌, ◌≡◌, ap, ◌∙◌, List, ◌++◌, arith, length, take, drop, slice-eq_some, copy_at-eq_some,
  length-append, length-take, length-drop, take-append_left, isize_max, ok,
}
use daqingest.SlideBuf.{SlideBuf, len, wcap, rewind}

pub record IsValid (s : SlideBuf) : Type 0 where
  pub rp_le_wp : s.rp ≤ s.wp
  pub wp_le_cap : s.wp ≤ length s.buf
  -- what `Vec` ensures
  pub small : length s.buf ≤ isize_max

abbrev pub contents : SlideBuf → List ℕ
contents s = take (s.wp - s.rp) (drop s.rp s.buf)

pub length-contents : {s : SlideBuf} → IsValid s → length (contents s) ≡ s.wp - s.rp
length-contents {s} v =
    omega (arith, length-take (s.wp - s.rp) (drop s.rp s.buf), length-drop s.rp s.buf)

pub len-eq : {s : SlideBuf} → IsValid s → len s ≡ s.wp - s.rp
unfolding len
len-eq v = omega arith

pub wcap-eq : {s : SlideBuf} → IsValid s → wcap s ≡ length s.buf - s.wp
unfolding wcap
wcap-eq v = omega arith

-- The same bytes in a buffer of the same size.
pub record Kept (s s' : SlideBuf) : Type 0 where
  pub valid : IsValid s'
  pub same : contents s' ≡ contents s
  pub size : length s'.buf ≡ length s.buf

abbrev pub rewound : SlideBuf → SlideBuf
rewound s = record { buf = contents s ++ drop (s.wp - s.rp) s.buf; wp = s.wp - s.rp; rp = 0 }

pub rewind-eq : {s : SlideBuf} → IsValid s → rewind s ≡ (ok tt, rewound s)
unfolding rewind
rewind-eq {s} v =
    ground (
      arith,
      slice-eq_some s.rp s.wp s.buf,
      copy_at-eq_some 0 (contents s) s.buf,
      length-contents v,
    )

pub rewound-Kept : {s : SlideBuf} → IsValid s → Kept s (rewound s)
rewound-Kept {s} v = record {
  valid = omega (arith, full);
  same =
      ap (λ n. take n (contents s ++ drop (s.wp - s.rp) s.buf)) (omega (arith, length-contents v))
      ∙ take-append_left (contents s) (drop (s.wp - s.rp) s.buf);
  size = omega (arith, full);
}
  where
    full : length (rewound s).buf ≡ length s.buf
    full = omega (
      arith,
      length-append (contents s) (drop (s.wp - s.rp) s.buf),
      length-contents v,
      length-drop (s.wp - s.rp) s.buf,
    )
