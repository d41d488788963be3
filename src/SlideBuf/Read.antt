-- ===== src/SlideBuf/Read.antt =====
-- The reads of slidebuf.rs take bytes from the front of those that the buffer holds.
use native.Mathlib.Decide.{dec_le}
use daqingest.Base.{
  [], ◌∷◌, ℕ, ◌-◌, ◌+◌, ◌≤◌, ◌<◌, ◌≡◌, sym, ap, ◌∙◌, List, ◌++◌, arith, length, take, drop, leb,
  le→leb, if◌then◌else◌, ok, err, Outcome, drop-take, drop-drop, take-take, slice-eq_some,
  take_one-drop, be_value, be_bytes, length-be_bytes, length-append, length-drop, take-append_left,
  drop-append_left, be_value-be_bytes, ◌^◌,
}
use daqingest.SlideBuf.{SlideBuf, Error, not_enough_bytes, adv, read_bytes, read_u8, read_be}
use daqingest.SlideBuf.Invariant.{IsValid, contents, length-contents, len-eq}

abbrev pub advanced : ℕ → SlideBuf → SlideBuf
advanced n s = record s { rp = s.rp + n }

-- the reply and the state of a read of `n` bytes, which `f` decodes
abbrev pub read_reply : {A : Type 0} → ℕ → (List ℕ → A) → SlideBuf → Outcome Error A × SlideBuf
read_reply n f s =
    if leb n (length (contents s))
    then (ok (f (take n (contents s))), advanced n s)
    else (err not_enough_bytes, s)

module _ {s : SlideBuf} (v : IsValid s) where
  pub advanced-IsValid :
      (n : ℕ)
      → n ≤ length (contents s)
      → IsValid (advanced n s) × (contents (advanced n s) ≡ drop n (contents s))
  advanced-IsValid n h =
      let size = length-contents v in
      let front : drop n (contents s) ≡ take (s.wp - (s.rp + n)) (drop n (drop s.rp s.buf)) =
        ap (λ k. drop n (take k (drop s.rp s.buf))) {y = n + (s.wp - (s.rp + n))} (omega arith)
        ∙ drop-take n (s.wp - (s.rp + n)) (drop s.rp s.buf) in
      (
        omega (arith, size),
        ap (λ xs. take (s.wp - (s.rp + n)) xs) (sym (drop-drop n s.rp s.buf)) ∙ sym front,
      )

  -- `read_bytes` takes the first `n` bytes, or fails and changes nothing when there are fewer.
  pub read_bytes-eq : (n : ℕ) → read_bytes n s ≡ read_reply n (λ xs. xs) s
  unfolding read_bytes
  read_bytes-eq n = ground (
    arith,
    len-eq v,
    length-contents v,
    slice-eq_some s.rp (s.rp + n) s.buf,
    take-take n (s.wp - s.rp) (drop s.rp s.buf),
  )

  pub read_be-eq : (n : ℕ) → read_be n s ≡ read_reply n be_value s
  unfolding read_be
  read_be-eq n = ground (arith, read_bytes-eq n)

  pub adv-eq : (n : ℕ) → adv n s ≡ read_reply n (λ _. tt) s
  unfolding adv
  adv-eq n = ground (arith, len-eq v, length-contents v)

  pub read_u8-eq : read_u8 s ≡ read_reply 1 be_value s
  unfolding read_u8 be_value
  read_u8-eq = elim (dec_le 1 (length (contents s))) [
    | yes h ↦
        let (x, at, front) = take_one-drop s.rp s.buf (omega (arith, length-contents v)) in
        ground (
          arith,
          len-eq v,
          length-contents v,
          at,
          front,
          take-take 1 (s.wp - s.rp) (drop s.rp s.buf),
        )
    | no h ↦ ground (arith, len-eq v, length-contents v)
  ]

  -- With an encoded integer in front, a read of its width returns it and leaves what follows.
  pub read_be-front :
      (n x : ℕ) (rest : List ℕ)
      → x < 256 ^ n
      → contents s ≡ be_bytes n x ++ rest
      → (read_be n s ≡ (ok x, advanced n s))
        × IsValid (advanced n s)
        × (contents (advanced n s) ≡ rest)
  read_be-front n x rest small e =
      let fits : n ≤ length (contents s) =
        omega (arith, ap length e, length-append (be_bytes n x) rest, length-be_bytes n x) in
      let front : take n (be_bytes n x ++ rest) ≡ be_bytes n x =
        ap (λ k. take k (be_bytes n x ++ rest)) (sym (length-be_bytes n x))
        ∙ take-append_left (be_bytes n x) rest in
      let back : drop n (be_bytes n x ++ rest) ≡ rest =
        ap (λ k. drop k (be_bytes n x ++ rest)) (sym (length-be_bytes n x))
        ∙ drop-append_left (be_bytes n x) rest in
      let a = advanced-IsValid n fits in
      (
        rw (read_be-eq n, le→leb _ _ fits, e, front, be_value-be_bytes n x small),
        a.0,
        a.1 ∙ ap (λ xs. drop n xs) e ∙ back,
      )

  -- A read of bytes that have come returns them.
  pub read_be-enough :
      (n : ℕ)
      → n ≤ length (contents s)
      → (read_be n s ≡ (ok (be_value (take n (contents s))), advanced n s))
        × IsValid (advanced n s)
        × (contents (advanced n s) ≡ drop n (contents s))
        × (length (contents (advanced n s)) ≡ length (contents s) - n)
  read_be-enough n h =
      let a = advanced-IsValid n h in
      (read_be-eq n ∙ rw (le→leb _ _ h), a.0, a.1, ap length a.1 ∙ length-drop n (contents s))

  -- With `body` in front, a read of its length decodes it and leaves what follows.
  pub read_reply-front :
      {A : Type 0} (f : List ℕ → A) (body rest : List ℕ)
      → contents s ≡ body ++ rest
      → (read_reply (length body) f s ≡ (ok (f body), advanced (length body) s))
        × IsValid (advanced (length body) s)
        × (contents (advanced (length body) s) ≡ rest)
  read_reply-front f body rest e =
      let fits : length body ≤ length (contents s) =
        omega (arith, ap length e, length-append body rest) in
      let a = advanced-IsValid (length body) fits in
      (
        rw (le→leb _ _ fits, e, take-append_left body rest),
        a.0,
        a.1 ∙ ap (λ xs. drop (length body) xs) e ∙ drop-append_left body rest,
      )

  pub read_u8-front :
      (x : ℕ) (rest : List ℕ)
      → contents s ≡ x ∷ rest
      → (read_u8 s ≡ (ok x, advanced 1 s))
        × IsValid (advanced 1 s)
        × (contents (advanced 1 s) ≡ rest)
  unfolding be_value
  read_u8-front x rest e =
      let f = read_reply-front be_value (x ∷ []) rest e in
      (read_u8-eq ∙ f.0 ∙ ap (λ y. (ok y, advanced 1 s)) {x = 0 + x} (omega arith), f.1, f.2)

  pub read_bytes-front :
      (body rest : List ℕ)
      → contents s ≡ body ++ rest
      → (read_bytes (length body) s ≡ (ok body, advanced (length body) s))
        × IsValid (advanced (length body) s)
        × (contents (advanced (length body) s) ≡ rest)
  read_bytes-front body rest e =
      let f = read_reply-front (λ xs. xs) body rest e in
      (read_bytes-eq (length body) ∙ f.0, f.1, f.2)

  pub adv-front :
      (body rest : List ℕ)
      → contents s ≡ body ++ rest
      → (adv (length body) s ≡ (ok tt, advanced (length body) s))
        × IsValid (advanced (length body) s)
        × (contents (advanced (length body) s) ≡ rest)
  adv-front body rest e =
      let f = read_reply-front (λ _. tt) body rest e in (adv-eq (length body) ∙ f.0, f.1, f.2)
