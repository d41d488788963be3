-- ===== src/Zmtp/Safety.antt =====
-- The parser of zmtpproto.rs never panics, and it leaves buffers that are valid.
pub mod States
pub mod Sockets
pub mod Rounds
use daqingest.Base.{
  ℕ, ◌+◌, ◌≤◌, ◌≡◌, refl, ◌∙◌, Bool, true, false, Bool-cases, inl, inr, List, length, leb, leb→le,
  if◌then◌else◌, arith, Outcome, ok, err, Runs, returns, fails, be_value, slice-eq_some,
}
use daqingest.SlideBuf
use daqingest.SlideBuf.{
  SlideBuf, read_u8, read_be, read_u64_be, read_bytes, adv, put_slice, data_slice,
}
use daqingest.SlideBuf.Invariant.{IsValid, contents, length-contents}
use daqingest.SlideBuf.Read.{
  read_reply, advanced, advanced-IsValid, read_u8-eq, read_be-eq, read_bytes-eq, adv-eq,
}
use daqingest.SlideBuf.Write.{put_slice_lem}
use daqingest.Zmtp.{Error, Zmtp, on_buf, on_outbuf, wrap}

-- a valid buffer of a given size
abbrev pub IsSized : ℕ → SlideBuf → Type 0
IsSized n b = IsValid b × (length b.buf ≡ n)

-- A call that keeps a buffer valid.
abbrev pub KeepsBuf : {A : Type 0} → SlideBuf.Op A → Type 0
KeepsBuf m = (n : ℕ) (b : SlideBuf) → IsSized n b → Runs (IsSized n) (λ _ b'. IsSized n b') (m b)

pub read_reply-KeepsBuf : {A : Type 0} (n : ℕ) (f : List ℕ → A) → KeepsBuf (read_reply n f)
read_reply-KeepsBuf n f size b (v, e) = elim (Bool-cases (leb n (length (contents b)))) [
  | inl c ↦ rw c (returns ((advanced-IsValid v n (leb→le _ _ c)).0, e))
  | inr c ↦ rw c (fails (v, e))
]

pub read_u8-KeepsBuf : KeepsBuf read_u8
read_u8-KeepsBuf n b h = rw (read_u8-eq h.0) (read_reply-KeepsBuf 1 be_value n b h)

pub read_u64_be-KeepsBuf : KeepsBuf read_u64_be
unfolding read_u64_be
read_u64_be-KeepsBuf n b h = rw (read_be-eq h.0 8) (read_reply-KeepsBuf 8 be_value n b h)

pub read_bytes-KeepsBuf : (k : ℕ) → KeepsBuf (read_bytes k)
read_bytes-KeepsBuf k n b h = rw (read_bytes-eq h.0 k) (read_reply-KeepsBuf k (λ xs. xs) n b h)

pub adv-KeepsBuf : (k : ℕ) → KeepsBuf (adv k)
adv-KeepsBuf k n b h = rw (adv-eq h.0 k) (read_reply-KeepsBuf k (λ _. tt) n b h)

pub data_slice-KeepsBuf : KeepsBuf data_slice
unfolding data_slice
data_slice-KeepsBuf n b h =
    rw (slice-eq_some b.rp b.wp b.buf h.0.rp_le_wp h.0.wp_le_cap) (returns h)

pub put_slice-KeepsBuf : (xs : List ℕ) → KeepsBuf (put_slice xs)
put_slice-KeepsBuf xs n b h =
    let p = put_slice_lem xs h.0 in
    reply-KeepsBuf (leb (length (contents b) + length xs) (length b.buf)) _ p.reply
      (p.valid, p.size ∙ h.1)
  where
    reply-KeepsBuf :
        {r : Outcome SlideBuf.Error Unit × SlideBuf} (c : Bool) (e : SlideBuf.Error)
        → r.0 ≡ (if c then ok tt else err e)
        → IsSized n r.1
        → Runs (IsSized n) (λ _ b'. IsSized n b') r
    reply-KeepsBuf {r = (q, t)} true e h k = rw h (returns k)
    reply-KeepsBuf {r = (q, t)} false e h k = rw h (fails k)

-- Both buffers are valid and of given sizes, and the stream has not ended.
pub record Buffers (n k : ℕ) (z : Zmtp) : Type 0 where
  pub inp : IsSized n z.buf
  pub out : IsSized k z.outbuf
  pub going : (z.done ≡ false) × (z.complete ≡ false)

module _ {n k : ℕ} {z : Zmtp} (b : Buffers n k z) where
  pub on_buf-Runs :
      {A : Type 0} (m : SlideBuf.Op A)
      → KeepsBuf m
      → Runs (Buffers n k) (λ _ z'. Buffers n k z') (on_buf m z)
  unfolding on_buf
  on_buf-Runs m keeps = lift (m z.buf) (keeps n z.buf b.inp)
    where
      lift :
          {A : Type 0} (r : Outcome SlideBuf.Error A × SlideBuf)
          → Runs (IsSized n) (λ _ b'. IsSized n b') r
          → Runs (Buffers n k) (λ _ z'. Buffers n k z') (wrap r.0, record z { buf = r.1 })
      lift _ (returns h) = returns (record { inp = h; out = b.out; going = b.going })
      lift _ (fails h) = fails (record { inp = h; out = b.out; going = b.going })

  pub on_outbuf-Runs :
      {A : Type 0} (m : SlideBuf.Op A)
      → KeepsBuf m
      → Runs (Buffers n k) (λ _ z'. Buffers n k z') (on_outbuf m z)
  unfolding on_outbuf
  on_outbuf-Runs m keeps = lift (m z.outbuf) (keeps k z.outbuf b.out)
    where
      lift :
          {A : Type 0} (r : Outcome SlideBuf.Error A × SlideBuf)
          → Runs (IsSized k) (λ _ b'. IsSized k b') r
          → Runs (Buffers n k) (λ _ z'. Buffers n k z') (wrap r.0, record z { outbuf = r.1 })
      lift _ (returns h) = returns (record { inp = b.inp; out = h; going = b.going })
      lift _ (fails h) = fails (record { inp = b.inp; out = h; going = b.going })
