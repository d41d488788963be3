-- ===== src/CaProto/Parser/Head.antt =====
-- `HeadInfo::from_netbuf` of proto.rs reads back the six fields of a header.
use daqingest.Base.{ℕ, ◌+◌, ◌^◌, ◌<◌, ◌≡◌, sym, ap, ◌∙◌, List, ◌++◌, length, arith, be_bytes, ok}
use mathlib.Core.Path.{subst}
use daqingest.SlideBuf.{SlideBuf, read_u16_be, read_u32_be}
use daqingest.SlideBuf.Invariant.{IsValid, contents}
use daqingest.SlideBuf.Read.{advanced, read_be-front}
use daqingest.CaProto.Header.{HeadInfo, from_netbuf}

pub record InRange (hi : HeadInfo) : Type 0 where
  pub cmdid : hi.cmdid < 2 ^ 16
  pub payload_size : hi.payload_size < 2 ^ 16
  pub data_type : hi.data_type < 2 ^ 16
  pub data_count : hi.data_count < 2 ^ 16
  pub param1 : hi.param1 < 2 ^ 32
  pub param2 : hi.param2 < 2 ^ 32

-- the bytes of a header, in front of a rest
abbrev pub head_and : HeadInfo → List ℕ → List ℕ
head_and hi rest =
    be_bytes 2 hi.cmdid
    ++ (be_bytes 2 hi.payload_size
        ++ (be_bytes 2 hi.data_type
            ++ (be_bytes 2 hi.data_count
                ++ (be_bytes 4 hi.param1 ++ (be_bytes 4 hi.param2 ++ rest)))))

pub length-head_and : (hi : HeadInfo) (rest : List ℕ) → length (head_and hi rest) ≡ 16 + length rest
unfolding be_bytes
length-head_and hi rest = omega arith

module _ {s : SlideBuf} (v : IsValid s) (x : ℕ) (rest : List ℕ) where
  pub u16-front :
      x < 2 ^ 16
      → contents s ≡ be_bytes 2 x ++ rest
      → (read_u16_be s ≡ (ok x, advanced 2 s))
        × IsValid (advanced 2 s)
        × (contents (advanced 2 s) ≡ rest)
  unfolding read_u16_be
  u16-front h e = read_be-front v 2 x rest h e

  pub u32-front :
      x < 2 ^ 32
      → contents s ≡ be_bytes 4 x ++ rest
      → (read_u32_be s ≡ (ok x, advanced 4 s))
        × IsValid (advanced 4 s)
        × (contents (advanced 4 s) ≡ rest)
  unfolding read_u32_be
  u32-front h e = read_be-front v 4 x rest h e

-- The bytes of a header whose fields are in the ranges of their widths are read back as that
-- header, and what follows them stays in the buffer.
pub from_netbuf-front :
    {s : SlideBuf} (hi : HeadInfo) (rest : List ℕ)
    → IsValid s
    → InRange hi
    → contents s ≡ head_and hi rest
    → (from_netbuf s ≡ (ok hi, advanced 16 s))
      × IsValid (advanced 16 s)
      × (contents (advanced 16 s) ≡ rest)
unfolding from_netbuf
from_netbuf-front {s} hi rest v r e =
    let a = u16-front v hi.cmdid _ r.cmdid e in
    let b = u16-front a.1 hi.payload_size _ r.payload_size a.2 in
    let c = u16-front b.1 hi.data_type _ r.data_type b.2 in
    let d = u16-front c.1 hi.data_count _ r.data_count c.2 in
    let f = u32-front d.1 hi.param1 _ r.param1 d.2 in
    let g = u32-front f.1 hi.param2 _ r.param2 f.2 in
    let last : SlideBuf =
      advanced 4 (advanced 4 (advanced 2 (advanced 2 (advanced 2 (advanced 2 s))))) in
    let whole : last ≡ advanced 16 s =
      ap (λ n. record s { rp = n }) {x = s.rp + 2 + 2 + 2 + 2 + 4 + 4} (omega arith) in
    (
      rw (a.0, b.0, c.0, d.0, f.0, g.0) (ap (λ t. (ok hi, t)) whole),
      subst IsValid whole g.1,
      ap contents (sym whole) ∙ g.2,
    )
