-- ===== src/SlideBuf/RoundTrip.antt =====
-- Integers that slidebuf.rs writes come back, in order, from its reads.
use daqingest.Base.{
  ℕ, ◌+◌, ◌^◌, ◌≤◌, ◌<◌, ◌≡◌, refl, sym, ap, ◌∙◌, List, [], ◌∷◌, ◌++◌, append-nil, append_assoc,
  arith, length, le→leb, ok, bind-ok, length-append, ◌>>=◌, ◌>>◌, pure, be_bytes, length-be_bytes,
}
use daqingest.SlideBuf.{
  SlideBuf, Op, read_u8, read_be, put_slice, put_be, read_u16_be, read_u32_be, read_u64_be,
  read_f32_be, read_f64_be, put_u8, put_u16_be, put_u32_be, put_u64_be, put_f32_be, put_f64_be,
}
use daqingest.SlideBuf.Invariant.{IsValid, contents}
use daqingest.SlideBuf.Write.{put_slice_lem}
use daqingest.SlideBuf.Read.{read_be-eq, read_u8-eq, read_be-front}

pub data Kind : Type 0 where
  u8 u16 u32 u64 f32 f64 : Kind

abbrev pub size_of : Kind → ℕ
size_of u8 = 1
size_of u16 = 2
size_of u32 = 4
size_of u64 = 8
size_of f32 = 4
size_of f64 = 8

unfoldable pub put_kind : Kind → ℕ → Op Unit
unfolding put_u8 put_u16_be put_u32_be put_u64_be put_f32_be put_f64_be
put_kind u8 = put_u8
put_kind u16 = put_u16_be
put_kind u32 = put_u32_be
put_kind u64 = put_u64_be
put_kind f32 = put_f32_be
put_kind f64 = put_f64_be

unfoldable pub read_kind : Kind → Op ℕ
unfolding read_u16_be read_u32_be read_u64_be read_f32_be read_f64_be
read_kind u8 = read_u8
read_kind u16 = read_u16_be
read_kind u32 = read_u32_be
read_kind u64 = read_u64_be
read_kind f32 = read_f32_be
read_kind f64 = read_f64_be

-- the writes of a list of values, one after the other, and the reads of a list of kinds
unfoldable pub put_all : List (Kind × ℕ) → Op Unit
put_all [] = pure tt
put_all ((k, x) ∷ fs) = do put_kind k x; put_all fs

unfoldable pub read_all : List (Kind × ℕ) → Op (List ℕ)
read_all [] = pure []
read_all ((k, _) ∷ fs) = do x ← read_kind k; xs ← read_all fs; pure (x ∷ xs)

abbrev pub Fits : List (Kind × ℕ) → Type 0
Fits [] = Unit
Fits ((k, x) ∷ fs) = (x < 256 ^ size_of k) × Fits fs

abbrev pub total : List (Kind × ℕ) → ℕ
total [] = 0
total ((k, _) ∷ fs) = size_of k + total fs

abbrev pub encoded : List (Kind × ℕ) → List ℕ
encoded [] = []
encoded ((k, x) ∷ fs) = be_bytes (size_of k) x ++ encoded fs

abbrev pub values : List (Kind × ℕ) → List ℕ
values [] = []
values ((_, x) ∷ fs) = x ∷ values fs

put_kind-eq :
    (k : Kind) (x : ℕ) (s : SlideBuf) → put_kind k x s ≡ put_slice (be_bytes (size_of k) x) s
unfolding put_kind put_be
put_kind-eq u8 x s = refl
put_kind-eq _ x s = refl

read_kind-eq : (k : Kind) {s : SlideBuf} → IsValid s → read_kind k s ≡ read_be (size_of k) s
unfolding read_kind
read_kind-eq u8 v = read_u8-eq v ∙ sym (read_be-eq v 1)
read_kind-eq _ v = refl

-- The writes succeed where the values fit, and append their encodings.
put_all-encoded :
    (fs : List (Kind × ℕ)) {s : SlideBuf}
    → IsValid s
    → length (contents s) + total fs ≤ length s.buf
    → (s' : SlideBuf) × (put_all fs s ≡ (ok tt, s'))
      × IsValid s'
      × (contents s' ≡ contents s ++ encoded fs)
unfolding put_all
put_all-encoded [] {s} v h = (s, refl, v, sym (append-nil (contents s)))
put_all-encoded ((k, x) ∷ fs) {s} v h =
    let bytes = be_bytes (size_of k) x in
    let p = put_slice_lem bytes v in
    let size = length-be_bytes (size_of k) x in
    let fits : length (contents s) + length bytes ≤ length s.buf = omega (arith, size) in
    let t : SlideBuf = (put_slice bytes s).1 in
    let grown : contents t ≡ contents s ++ bytes = p.bytes ∙ rw (le→leb _ _ fits) in
    let (s', r, v', c) =
      put_all-encoded fs {s = t} p.valid
        (omega (arith, size, p.size, ap length grown, length-append (contents s) bytes)) in
    (
      s',
      bind-ok (put_kind k x) (λ _. put_all fs) {s' = t} {a = tt}
            (put_kind-eq k x s ∙ ap (λ r. (r, t)) (p.reply ∙ rw (le→leb _ _ fits)))
          ∙ r,
      v',
      c ∙ ap (λ q. q ++ encoded fs) grown ∙ append_assoc (contents s) bytes (encoded fs),
    )

-- Reads in the order of the encodings return the values.
read_all-encoded :
    (fs : List (Kind × ℕ)) (rest : List ℕ) {s : SlideBuf}
    → IsValid s
    → Fits fs
    → contents s ≡ encoded fs ++ rest
    → (s' : SlideBuf) × (read_all fs s ≡ (ok (values fs), s')) × IsValid s' × (contents s' ≡ rest)
unfolding read_all
read_all-encoded [] rest {s} v h e = (s, refl, v, e)
read_all-encoded ((k, x) ∷ fs) rest {s} v (h, hs) e =
    let f =
      read_be-front v (size_of k) x (encoded fs ++ rest) h
        (e ∙ append_assoc (be_bytes (size_of k) x) (encoded fs) rest) in
    let (s', r, v', c) = read_all-encoded fs rest f.1 hs f.2 in
    (
      s',
      bind-ok (read_kind k) (λ y. read_all fs >>= λ ys. pure (y ∷ ys)) (read_kind-eq k v ∙ f.0)
          ∙ bind-ok (read_all fs) (λ ys. pure (x ∷ ys)) r,
      v',
      c,
    )

-- Values of the ranges of their kinds (8 to 64 bit integers and the bit patterns of floats),
-- written to a valid empty buffer that has the space, are all accepted, and reads of the same
-- kinds return them in order and leave the buffer empty.
pub read_all-put_all :
    (fs : List (Kind × ℕ)) {s : SlideBuf}
    → IsValid s
    → contents s ≡ []
    → Fits fs
    → total fs ≤ length s.buf
    → (s' : SlideBuf) × ((put_all fs >> read_all fs) s ≡ (ok (values fs), s'))
      × IsValid s'
      × (contents s' ≡ [])
read_all-put_all fs {s} v empty fits h =
    let (t, r, w, c) = put_all-encoded fs v (omega (arith, ap length empty)) in
    let (s', r', w', c') =
      read_all-encoded fs [] w fits
        (c ∙ ap (λ q. q ++ encoded fs) empty ∙ sym (append-nil (encoded fs))) in
    (s', bind-ok (put_all fs) (λ _. read_all fs) r ∙ r', w', c')
